-- ===== src/Routes/Agent/Files.antt =====
-- gateway/src/routes/agent.ts: the source image of a job, and the upload of its media in two parts,
-- before and after the body has streamed in.
pub mod Soundness
pub mod Mismatch
pub mod Opening
use nidora_ai_inference.Base.{
  ℕ, ◌+◌, Bool, false, not, ◌&&◌, Option, none, some, List, [], ◌∷◌, ◌++◌, ltb, if◌then◌else◌,
  coalesce, length, Str, text, str_eq, truthy_null, column_is, decimal,
}
use nidora_ai_inference.Domain.Types.{FilePath, Job, JobEventKind}
use nidora_ai_inference.Store.Db.{get, add_event}
use nidora_ai_inference.Routes.State.{Upload, Gateway, Reply, sent, rejected}
use nidora_ai_inference.Domain.Errors.{
  video_not_found, stale_lease, input_expired, invalid_filename, artifact_too_large,
  checksum_mismatch, api_error,
}
use nidora_ai_inference.Artifacts.{Disk, read_file, write_artifact, remove_job}
use nidora_ai_inference.Domain.Filenames.{is_safe_filename}
use nidora_ai_inference.Scheduler.Config.{Config}

pub record Uploaded : Type 0 where
  pub filename : Str
  pub bytes : ℕ
  pub sha256 : Str

-- `!(!job.lease_id || job.lease_id !== lease)`; a lease that the query lacks is the empty one.
unfoldable pub current_lease : Str → Job → Bool
current_lease lease job = truthy_null job.lease_id && column_is job.lease_id lease

abbrev pub no_such_job {ℓ} : {A : Type ℓ} → Reply A
no_such_job = rejected 404 (api_error 404 (some video_not_found) none)

abbrev pub lease_is_stale {ℓ} : {A : Type ℓ} → Reply A
lease_is_stale = rejected 409 (api_error 409 (some stale_lease) none)

abbrev pub input_is_gone : Reply (List ℕ)
input_is_gone = rejected 410 (api_error 410 (some input_expired) none)

send_input : Option FilePath → Gateway → Reply (List ℕ)
send_input none g = input_is_gone
send_input (some path) g = elim (read_file path g.disk) [
  | none ↦ input_is_gone
  | some content ↦ sent 200 content
]

-- GET /v1/agent/jobs/:id/input
unfoldable pub input : Str → Str → Gateway → Reply (List ℕ)
unfolding send_input current_lease
input id lease g = elim (get id g.db) [
  | none ↦ no_such_job
  | some job ↦ if not (current_lease lease job) then lease_is_stale else send_input job.input_path g
]

abbrev too_large {ℓ} : {A : Type ℓ} → Reply A
too_large = rejected 413 (api_error 413 (some artifact_too_large) none)

-- `Number.isFinite(declared) && declared > config.maxArtifactBytes`
abbrev pub declares_over : Option ℕ → ℕ → Bool
declares_over none cap = false
declares_over (some n) cap = ltb cap n

-- POST /v1/agent/jobs/:id/artifact, up to the await: refused, or streaming.
begin_upload : Config → Str → Option ℕ → Job → Gateway → Gateway × Option (Reply Uploaded)
begin_upload config filename declared job g =
    if not (is_safe_filename filename)
    then (g, some (rejected 400 (api_error 400 (some invalid_filename) (some (text "filename")))))
    else if declares_over declared config.max_artifact_bytes
    then (g, some too_large)
    else (record g { uploads = g.uploads ++ record { job = job; filename = filename } ∷ [] }, none)

unfoldable pub artifact :
    Config → Str → Str → Option Str → Option ℕ → Gateway → Gateway × Option (Reply Uploaded)
unfolding begin_upload current_lease
artifact config id lease filename declared g = elim (get id g.db) [
  | none ↦ (g, some no_such_job)
  | some job ↦
      if not (current_lease lease job)
      then (g, some lease_is_stale)
      else begin_upload config (coalesce filename (text "output.mp4")) declared job g
]

-- `typeof expected === 'string' && expected && expected !== stored.sha256`
abbrev pub mismatches : Option Str → Str → Bool
mismatches none sha = false
mismatches (some []) sha = false
mismatches (some (c ∷ cs)) sha = not (str_eq (c ∷ cs) sha)

module _ (sha256 : List ℕ → Str) where
  unfoldable pub stored : Upload → Option Str → List ℕ → Gateway → Gateway × Reply Uploaded
  stored up expected body g =
      if mismatches expected (sha256 body)
      then (
        record g { disk = remove_job up.job.id g.disk },
        rejected 400 (api_error 400 (some checksum_mismatch) none),
      )
      else (
        record g {
          db =
              add_event up.job.id JobEventKind.uploaded up.job.pod_id
                (some (decimal (length body) ++ text " bytes")) g.db;
        },
        sent 200 (record { filename = up.filename; bytes = length body; sha256 = sha256 body }),
      )

  unfoldable pub after_write :
      Upload → Option Str → Gateway → Disk × Option (List ℕ) → Gateway × Reply Uploaded
  unfolding stored
  after_write up expected g (disk, none) = (record g { disk = disk }, too_large)
  after_write up expected g (disk, some body) = stored up expected body (record g { disk = disk })

  -- The rest of the handler, once the chunks have come in. The job is the one that was read before.
  unfoldable pub finish_upload :
      Config → Upload → List (List ℕ) → Option Str → Gateway → Gateway × Reply Uploaded
  unfolding after_write
  finish_upload config up chunks expected g =
      after_write up expected g
        (write_artifact up.job.id up.filename chunks config.max_artifact_bytes g.disk)
