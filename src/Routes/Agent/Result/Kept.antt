-- ===== src/Routes/Agent/Result/Kept.antt =====
-- gateway/src/routes/agent.ts, POST /v1/agent/jobs/:id/result, keeps what the statements of the store keep.
use nidora_ai_inference.Base.{
  ℕ, ◌<◌, ◌≡◌, refl, sym, subst, inl, inr, Bool, true, false, not, ◌&&◌, some, arith, ltb, if-elim,
  Option-cases, take, All, All-map, Str, text, str_eq_sound, find_sound,
}
use nidora_ai_inference.Domain.Types.{VideoStatus, Job}
use nidora_ai_inference.Store.Db.{Db, has_id, get}
use nidora_ai_inference.Routes.State.{Gateway, Reply}
use nidora_ai_inference.Store.Jobs.{in_flight, owns_or}
use nidora_ai_inference.Store.Invariant.{owns_or-has_id}
use nidora_ai_inference.Store.Upkeep.{find_unique}
use nidora_ai_inference.Store.Kept.{
  Kept, complete-kept, fail-kept, requeue-kept, mark_cancelled-kept, clear_input-kept,
}
use nidora_ai_inference.Scheduler.Config.{Config}
use nidora_ai_inference.Scheduler.Reaper.Rounds.{jobs-record_outcome}
use nidora_ai_inference.Store.Pods
use nidora_ai_inference.Store.Pods.{record_outcome}
use nidora_ai_inference.Routes.Agent.Files.{current_lease}
use nidora_ai_inference.Routes.Agent.Result.{
  ResultBody, safe_name, drop_input, finish_completed, report_completed, report_cancelled,
  report_retryable, finish_failed, report_failed, report, result, failure_message, says,
}

module _ {m : ℕ} (I : Kept m) (job : Job) (lease : Str) (now : ℕ) where
  outcome-kept :
      (o : Pods.Outcome) (db : Db) → I.On db.jobs → I.On (record_outcome job.pod_id o db).jobs
  outcome-kept o db s = rw (jobs-record_outcome job.pod_id o db) s

  drop_input-kept : (g : Gateway) → I.On g.db.jobs → I.On (drop_input job lease now g).db.jobs
  unfolding drop_input
  drop_input-kept g s = clear_input-kept I g.db s job.id

  finish_completed-kept :
      (t : Db × Bool) (g : Gateway)
      → I.On t.0.jobs
      → I.On (finish_completed job lease now t g).0.db.jobs
  unfolding finish_completed
  finish_completed-kept (db, false) g s = s
  finish_completed-kept (db, true) g s =
      drop_input-kept (record g { db = record_outcome job.pod_id Pods.completed db })
        (outcome-kept Pods.completed db s)

  finish_failed-kept :
      (t : Db × Bool) (g : Gateway)
      → I.On t.0.jobs
      → I.On (finish_failed job lease now t g).0.db.jobs
  unfolding finish_failed
  finish_failed-kept (db, false) g s = s
  finish_failed-kept (db, true) g s =
      drop_input-kept (record g { db = record_outcome job.pod_id Pods.failed db })
        (outcome-kept Pods.failed db s)

  report_completed-kept :
      (body : ResultBody) (g : Gateway)
      → I.On g.db.jobs
      → I.On (report_completed job lease now body g).0.db.jobs
  unfolding report_completed
  report_completed-kept body g s = elim (Option-cases (safe_name body.filename)) [
    | inl e ↦ rw (e, report_completed) s
    | inr (name, e) ↦
        rw (e, report_completed)
          (finish_completed-kept _ g (complete-kept I g.db s job.id lease _ now))
  ]

  report_retryable-kept :
      (message : Str) (g : Gateway)
      → All (λ r. has_id job.id r ≡ true → r.attempts < m) g.db.jobs
      → I.On g.db.jobs
      → I.On (report_retryable job lease now message g).0.db.jobs
  unfolding report_retryable
  report_retryable-kept message g left s = outcome-kept Pods.failed _ (
      requeue-kept I g.db s job.id (some lease) (take 200 message) (
        All-map (λ r. has_id job.id r ≡ true → r.attempts < m)
          (λ r. owns_or (in_flight job.id) job.id (some lease) r ≡ true → r.attempts < m)
          (λ r f h.
            f (owns_or-has_id (in_flight job.id) job.id (some lease) r (λ e. ground arith) h))
          g.db.jobs left))

  report_failed-kept :
      (message : Str) (g : Gateway)
      → I.On g.db.jobs
      → I.On (report_failed job lease now message g).0.db.jobs
  unfolding report_failed
  report_failed-kept message g s =
      finish_failed-kept _ g (fail-kept I g.db s job.id (some lease) message now)

  report_cancelled-kept :
      (g : Gateway) → I.On g.db.jobs → I.On (report_cancelled job lease now g).0.db.jobs
  unfolding report_cancelled
  report_cancelled-kept g s =
      mark_cancelled-kept I g.db s job.id (some lease) now (text "acknowledged by pod")

  abbrev EndsOn : Gateway × Reply (Str × VideoStatus) → Type 0
  EndsOn t = I.On t.0.db.jobs

  report-kept :
      (config : Config) (body : ResultBody) (g : Gateway)
      → config.max_attempts ≡ m
      → All (λ r. has_id job.id r ≡ true → r ≡ job) g.db.jobs
      → I.On g.db.jobs
      → EndsOn (report job lease now config body g)
  unfolding report
  report-kept config body g cm only s =
      if-elim EndsOn (says body.state (text "completed")) _ _ (λ e. report_completed-kept body g s)
        λ e1.
          if-elim EndsOn (says body.state (text "cancelled")) _ _ (λ e. report_cancelled-kept g s)
            λ e2.
              if-elim EndsOn (body.retryable && ltb job.attempts config.max_attempts) _ _
                (λ e.
                  report_retryable-kept (failure_message body.error) g
                    (All-map (λ r. has_id job.id r ≡ true → r ≡ job)
                      (λ r. has_id job.id r ≡ true → r.attempts < m) (λ r f h. ground (arith, f h))
                      g.db.jobs only)
                    s)
                (λ e. report_failed-kept (failure_message body.error) g s)

-- A reported result keeps it, whatever it says and whoever sends it.
pub result-kept :
    (config : Config) (I : Kept config.max_attempts) (id lease : Str) (body : ResultBody)
    (g : Gateway)
    → I.On g.db.jobs
    → I.On (result config id lease body g).0.db.jobs
unfolding result get
result-kept config I id lease body g s = elim (Option-cases (get id g.db)) [
  | inl e ↦ rw (e, result) s
  | inr (job, e) ↦
      rw (e, result)
        (if-elim (EndsOn I job lease g.db.clock) (not (current_lease lease job)) _ _ (λ stale. s)
          (λ ok.
            report-kept I job lease g.db.clock config body g refl
              (subst (λ k. All (λ r. has_id k r ≡ true → r ≡ job) g.db.jobs)
                (sym (str_eq_sound job.id id (find_sound (has_id id) g.db.jobs job e)))
                (find_unique id g.db.jobs job (I.sound g.db.jobs s).distinct e))
              s))
]
