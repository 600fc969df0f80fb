-- ===== src/Scheduler/Reaper/Rounds.antt =====
-- gateway/src/scheduler/reaper.ts: the rules of a sweep as functions of one row, and the
-- statement behind each round of its loops.
use nidora_ai_inference.Base.{
  ℕ, ◌-◌, ◌≡◌, refl, ap, ◌∙◌, Bool, true, false, ◌&&◌, Option, none, some, List, [], ◌∷◌, arith,
  ltb, leb, if◌then◌else◌, Str, text, update_where,
}
use nidora_ai_inference.Domain.Types.{is_in_progress, is_active, Job, JobEventKind}
use nidora_ai_inference.Store.Db.{Db, has_id, add_event, jobs-swap}
use nidora_ai_inference.Store.Jobs.{
  in_flight, owns_or, failed_row, unfinished, fail, requeued_row, requeue, cancelled_row,
  mark_cancelled, column_lt,
}
use nidora_ai_inference.Store.Pods.{record_outcome}
use nidora_ai_inference.Store.Pods
use nidora_ai_inference.Store.Invariant.{owns_or-has_id}
use nidora_ai_inference.Scheduler.Config.{Config}
use nidora_ai_inference.Scheduler.Reaper.{
  SweepResult, lost_detail, overdue_detail, fail_lease, requeue_lease, reap_lease, reap_overdue,
  reap_cancel, for_each,
}
use nidora_ai_inference.Scheduler.Reaper.Rows.{Write, update_by}

abbrev pub lease_is_over : ℕ → Job → Bool
lease_is_over now r = is_in_progress r.state && column_lt r.lease_expires_at now

abbrev pub is_overdue : ℕ → Job → Bool
is_overdue now r = is_active r.state && ltb r.deadline_at now

abbrev pub cancel_is_stale : ℕ → Job → Bool
cancel_is_stale before r =
    is_in_progress r.state && (r.cancel_requested && column_lt r.cancel_requested_at before)

-- A lease that is over, at the attempt cap and below it.
abbrev pub lease_set : ℕ → Bool → Job → Job → Job
lease_set now at_cap job = if at_cap then failed_row (lost_detail job) now else requeued_row

-- The three rules of a sweep, as functions of one row.
unfoldable pub lease_rule : ℕ → ℕ → Job → Job
lease_rule m now r = if lease_is_over now r then lease_set now (leb m r.attempts) r r else r

unfoldable pub overdue_rule : ℕ → Job → Job
overdue_rule now r = if is_overdue now r then failed_row (overdue_detail now r) now r else r

unfoldable pub cancel_rule : ℕ → ℕ → Job → Job
cancel_rule before now r = if cancel_is_stale before r then cancelled_row now r else r

unfoldable pub sweep_row : Config → ℕ → Job → Job
unfolding lease_rule overdue_rule cancel_rule
sweep_row config now r =
    cancel_rule (now - config.cancel_grace_ms) now
      (overdue_rule now (lease_rule config.max_attempts now r))

-- The statements of a round of the first loop, at the attempt cap and below it.
abbrev pub lease_hit : Bool → Job → Job → Bool
lease_hit at_cap job =
    if at_cap
    then owns_or (unfinished job.id) job.id job.lease_id
    else owns_or (in_flight job.id) job.id job.lease_id

pub lease_hit-has_id :
    (at_cap : Bool) (job row : Job) → lease_hit at_cap job row ≡ true → has_id job.id row ≡ true
lease_hit-has_id true job row =
    owns_or-has_id (unfinished job.id) job.id job.lease_id row (λ e. ground arith)
lease_hit-has_id false job row =
    owns_or-has_id (in_flight job.id) job.id job.lease_id row (λ e. ground arith)

pub lease_set-id :
    (now : ℕ) (at_cap : Bool) (job row : Job) → (lease_set now at_cap job row).id ≡ row.id
lease_set-id now true job row = refl
lease_set-id now false job row = refl

unfoldable pub lease_write : ℕ → ℕ → Write
lease_write m now = record {
  hit = λ job. lease_hit (leb m job.attempts) job;
  set = λ job. lease_set now (leb m job.attempts) job;
  by_id = λ job. lease_hit-has_id (leb m job.attempts) job;
  keep = λ job. lease_set-id now (leb m job.attempts) job;
}

pub unfinished-has_id : (id : Str) (row : Job) → unfinished id row ≡ true → has_id id row ≡ true
unfinished-has_id id row h = ground arith

pub in_flight-has_id : (id : Str) (row : Job) → in_flight id row ≡ true → has_id id row ≡ true
in_flight-has_id id row h = ground arith

unfoldable pub overdue_write : ℕ → Write
overdue_write now = record {
  hit = λ job. unfinished job.id;
  set = λ job. failed_row (overdue_detail now job) now;
  by_id = λ job. unfinished-has_id job.id;
  keep = λ job row. refl;
}

unfoldable pub cancel_write : ℕ → Write
cancel_write now = record {
  hit = λ job. in_flight job.id;
  set = λ job. cancelled_row now;
  by_id = λ job. in_flight-has_id job.id;
  keep = λ job row. refl;
}

pub jobs-record_outcome :
    (pod_id : Option Str) (o : Pods.Outcome) (db : Db) → (record_outcome pod_id o db).jobs ≡ db.jobs
unfolding record_outcome
jobs-record_outcome none o db = refl
jobs-record_outcome (some []) o db = refl
jobs-record_outcome (some (c ∷ cs)) o db = refl

module _ (id : Str) (lease : Option Str) (db : Db) where
  pub jobs-fail :
      (error : Str) (now : ℕ)
      → (fail id lease error now db).0.jobs
        ≡ update_where (owns_or (unfinished id) id lease) (failed_row error now) db.jobs
  unfolding fail
  jobs-fail error now = jobs-swap _ _ id _ _ _ db

  pub jobs-requeue :
      (reason : Str)
      → (requeue id lease reason db).0.jobs
        ≡ update_where (owns_or (in_flight id) id lease) requeued_row db.jobs
  unfolding requeue
  jobs-requeue reason = jobs-swap _ _ id _ _ _ db

  pub jobs-mark_cancelled :
      (now : ℕ) (detail : Str)
      → (mark_cancelled id lease now detail db).0.jobs
        ≡ update_where (owns_or (in_flight id) id lease) (cancelled_row now) db.jobs
  unfolding mark_cancelled
  jobs-mark_cancelled now detail = jobs-swap _ _ id _ _ _ db

jobs-fail_lease :
    (now : ℕ) (job : Job) (s : Db × SweepResult)
    → (fail_lease now job s).0.jobs
      ≡ update_where
          (owns_or (unfinished job.id) job.id job.lease_id)
          (failed_row (lost_detail job) now)
          s.0.jobs
unfolding fail_lease
jobs-fail_lease now job (db, r) = ground (
  arith,
  jobs-fail job.id job.lease_id db (lost_detail job) now,
  jobs-record_outcome job.pod_id Pods.failed (fail job.id job.lease_id (lost_detail job) now db).0,
)

jobs-requeue_lease :
    (job : Job) (s : Db × SweepResult)
    → (requeue_lease job s).0.jobs
      ≡ update_where (owns_or (in_flight job.id) job.id job.lease_id) requeued_row s.0.jobs
unfolding requeue_lease add_event
jobs-requeue_lease job (db, r) =
    ground (arith, jobs-requeue job.id job.lease_id db (text "lease expired"))

pub jobs-reap_lease :
    (m now : ℕ) (job : Job) (s : Db × SweepResult)
    → (reap_lease m now job s).0.jobs ≡ update_by (lease_write m now) job s.0.jobs
unfolding reap_lease lease_write
jobs-reap_lease m now job s = by_cap (leb m job.attempts)
  where
    by_cap :
        (b : Bool)
        → (if b then fail_lease now job s else requeue_lease job s).0.jobs
          ≡ update_where (lease_hit b job) (lease_set now b job) s.0.jobs
    by_cap true = jobs-fail_lease now job s
    by_cap false = jobs-requeue_lease job s

pub jobs-reap_overdue :
    (now : ℕ) (job : Job) (s : Db × SweepResult)
    → (reap_overdue now job s).0.jobs ≡ update_by (overdue_write now) job s.0.jobs
unfolding reap_overdue overdue_write add_event
jobs-reap_overdue now job (db, r) =
    let failed_db : Db = (fail job.id none (overdue_detail now job) now db).0 in
    ground (
      arith,
      jobs-fail job.id none db (overdue_detail now job) now,
      jobs-record_outcome job.pod_id Pods.failed
          (add_event job.id JobEventKind.deadline_exceeded job.pod_id none failed_db),
    )

pub jobs-reap_cancel :
    (now : ℕ) (job : Job) (s : Db × SweepResult)
    → (reap_cancel now job s).0.jobs ≡ update_by (cancel_write now) job s.0.jobs
unfolding reap_cancel cancel_write
jobs-reap_cancel now job (db, r) =
    ground
      (arith, jobs-mark_cancelled job.id none db now (text "pod did not acknowledge the cancel"))

pub jobs-for_each :
    (w : Write) (body : Job → Db × SweepResult → Db × SweepResult)
    → ((job : Job) (s : Db × SweepResult) → (body job s).0.jobs ≡ update_by w job s.0.jobs)
    → (jobs : List Job) (s : Db × SweepResult)
    → (for_each body jobs s).0.jobs ≡ for_each (update_by w) jobs s.0.jobs
unfolding for_each
jobs-for_each w body h [] s = refl
jobs-for_each w body h (job ∷ jobs) s =
    jobs-for_each w body h jobs (body job s) ∙ ap (for_each (update_by w) jobs) (h job s)
