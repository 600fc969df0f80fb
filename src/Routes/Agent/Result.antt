-- ===== src/Routes/Agent/Result.antt =====
-- gateway/src/routes/agent.ts, POST /v1/agent/jobs/:id/result: the terminal outcome. The awaited
-- removal of a file is one step with what follows it.
pub mod Kept
pub mod Completion
use nidora_ai_inference.Base.{
  ℕ, ◌/◌, Bool, true, false, not, ◌&&◌, Option, none, some, [], ◌∷◌, ltb, if◌then◌else◌, coalesce,
  take, Str, text, column_is,
}
use nidora_ai_inference.Domain.Types.{
  VideoStatus, queued, completed, failed, cancelled, Number, Job,
}
use nidora_ai_inference.Store.Db.{Db, get}
use nidora_ai_inference.Store.Jobs.{complete, fail, requeue, mark_cancelled, clear_input}
use nidora_ai_inference.Routes.State.{Gateway, kick, Reply, sent, rejected}
use nidora_ai_inference.Domain.Errors.{invalid_filename, api_error}
use nidora_ai_inference.Artifacts.{remove_input}
use nidora_ai_inference.Domain.Filenames.{is_safe_filename}
use nidora_ai_inference.Store.Pods
use nidora_ai_inference.Store.Pods.{record_outcome}
use nidora_ai_inference.Scheduler.Config.{Config}
use nidora_ai_inference.Routes.Agent.Poll.{str}
use nidora_ai_inference.Routes.Agent.Files.{current_lease, no_such_job, lease_is_stale}

-- A JSON field that may be missing, a string, or another value.
pub data Field : Type 0 where
  missing : Field
  string : Str → Field
  other : Field

pub record ResultBody : Type 0 where
  pub state : Option Str
  pub error : Option Str
  pub retryable : Bool
  pub filename : Field
  pub bytes : Option Number
  pub sha256 : Option Str

-- The file name that the body gives, if it is a safe one.
unfoldable pub safe_name : Field → Option Str
safe_name missing = if is_safe_filename (text "output.mp4") then some (text "output.mp4") else none
safe_name (string s) = if is_safe_filename s then some s else none
safe_name other = none

abbrev says : Option Str → Str → Bool
says o s = column_is o s

unfoldable pub failure_message : Option Str → Str
failure_message error = coalesce (str error) (text "pod reported an unspecified failure")

abbrev reply_state : Str → VideoStatus → Reply (Str × VideoStatus)
reply_state id state = sent 200 (id, state)

module _ (job : Job) (lease : Str) (now : ℕ) where
  -- `removeInput`, `clearInput`, `kick`.
  drop_input : Gateway → Gateway
  unfolding kick
  drop_input g = kick (record g { disk = remove_input job.id g.disk; db = clear_input job.id g.db })

  finish_completed : Db × Bool → Gateway → Gateway × Reply (Str × VideoStatus)
  unfolding drop_input
  finish_completed (db, false) g = (record g { db = db }, lease_is_stale)
  finish_completed (db, true) g = (
    drop_input (record g { db = record_outcome job.pod_id Pods.completed db }),
    reply_state job.id completed,
  )

  report_completed : ResultBody → Gateway → Gateway × Reply (Str × VideoStatus)
  unfolding finish_completed safe_name
  report_completed body g = elim (safe_name body.filename) [
    | none ↦ (g, rejected 400 (api_error 400 (some invalid_filename) (some (text "filename"))))
    | some filename ↦
        finish_completed
          (complete job.id lease
            (record {
              media_type = text "video/mp4";
              filename = filename;
              bytes = body.bytes;
              sha256 = str body.sha256;
            }
              ∷ [])
            now g.db)
          g
  ]

  -- The result of the swap is not read, and the row keeps its `input_path`.
  report_cancelled : Gateway → Gateway × Reply (Str × VideoStatus)
  unfolding kick
  report_cancelled g = (
    kick (record g {
      db = (mark_cancelled job.id (some lease) now (text "acknowledged by pod") g.db).0;
      disk = remove_input job.id g.disk;
    }),
    reply_state job.id cancelled,
  )

  -- Nor is it read here.
  report_retryable : Str → Gateway → Gateway × Reply (Str × VideoStatus)
  unfolding kick
  report_retryable message g = (
    kick (record g {
      db =
          record_outcome job.pod_id Pods.failed
            (requeue job.id (some lease) (take 200 message) g.db).0;
    }),
    reply_state job.id queued,
  )

  finish_failed : Db × Bool → Gateway → Gateway × Reply (Str × VideoStatus)
  unfolding drop_input
  finish_failed (db, false) g = (record g { db = db }, lease_is_stale)
  finish_failed (db, true) g = (
    drop_input (record g { db = record_outcome job.pod_id Pods.failed db }),
    reply_state job.id failed,
  )

  report_failed : Str → Gateway → Gateway × Reply (Str × VideoStatus)
  unfolding finish_failed
  report_failed message g = finish_failed (fail job.id (some lease) message now g.db) g

  -- Behind the checks of the job and of its lease.
  report : Config → ResultBody → Gateway → Gateway × Reply (Str × VideoStatus)
  unfolding report_completed report_cancelled report_retryable report_failed
  report config body g =
      if says body.state (text "completed")
      then report_completed body g
      else if says body.state (text "cancelled")
      then report_cancelled g
      else if body.retryable && ltb job.attempts config.max_attempts
      then report_retryable (failure_message body.error) g
      else report_failed (failure_message body.error) g

unfoldable pub result :
    Config → Str → Str → ResultBody → Gateway → Gateway × Reply (Str × VideoStatus)
unfolding report current_lease
result config id lease body g = elim (get id g.db) [
  | none ↦ (g, no_such_job)
  | some job ↦
      if not (current_lease lease job)
      then (g, lease_is_stale)
      else report job lease g.db.clock config body g
]
