-- ===== src/Scheduler/Reaper.antt =====
-- gateway/src/scheduler/reaper.ts: the sweep for jobs that no agent will ever finish. Logging is left
-- out; differences of times stop at 0.
pub mod Rows
pub mod Rounds
pub mod Effect
pub mod Laws
pub mod Kept
use nidora_ai_inference.Base.{
  ℕ, zero, suc, ◌+◌, ◌-◌, ◌/◌, Bool, not, Option, none, some, List, [], ◌∷◌, ◌++◌, ltb, leb, ◌==◌,
  if◌then◌else◌, coalesce, Str, text, decimal,
}
use nidora_ai_inference.Domain.Types.{queued, failed, cancelled, Job, JobEventKind}
use nidora_ai_inference.Store.Db.{Db, add_event}
use nidora_ai_inference.Store.Jobs.{fail, requeue, mark_cancelled}
use nidora_ai_inference.Store.Queries.{expired_leases, overdue, stale_cancels}
use nidora_ai_inference.Store.Pods.{record_outcome}
use nidora_ai_inference.Store.Pods
use nidora_ai_inference.Scheduler.Config.{Config}

pub record SweepResult : Type 0 where
  pub requeued : ℕ
  pub failed : ℕ
  pub cancelled : ℕ

-- `${Math.round(ms / 1000)}s`
unfoldable pub human_ms : ℕ → Str
human_ms ms = decimal ((ms + 500) / 1000) ++ text "s"

abbrev pub plural : ℕ → Str
plural n = if n == 1 then text "" else text "s"

unfoldable pub lost_detail : Job → Str
lost_detail job =
    text "pod lost during generation ("
    ++ (decimal job.attempts ++ (text " attempt" ++ (plural job.attempts ++ text ")")))

-- `job.started_at ? now - job.started_at : 0`
running_for : Option ℕ → ℕ → ℕ
running_for none now = 0
running_for (some zero) now = 0
running_for (some (suc t)) now = now - suc t

unfoldable pub overdue_detail : ℕ → Job → Str
unfolding running_for human_ms
overdue_detail now job =
    text "job exceeded its "
    ++ (human_ms (job.deadline_at - job.created_at)
        ++ (text " deadline (queued "
            ++ (human_ms (coalesce job.started_at now - job.created_at)
                ++ (text ", running " ++ (human_ms (running_for job.started_at now) ++ text ")")))))

-- A lease that ran out at the attempt cap, and one that ran out below it.
fail_lease : ℕ → Job → Db × SweepResult → Db × SweepResult
fail_lease now job (db, r) =
    let (db', done) = fail job.id job.lease_id (lost_detail job) now db in
    if done
    then (record_outcome job.pod_id Pods.failed db', record r { failed = r.failed + 1 })
    else (db', r)

requeue_lease : Job → Db × SweepResult → Db × SweepResult
requeue_lease job (db, r) =
    let (db', done) = requeue job.id job.lease_id (text "lease expired") db in
    if done
    then (
      add_event job.id JobEventKind.lease_expired job.pod_id
          (some (text "attempt " ++ decimal job.attempts)) db',
      record r { requeued = r.requeued + 1 },
    )
    else (db', r)

-- The body of the first loop: a lease that its pod stopped renewing.
unfoldable pub reap_lease : ℕ → ℕ → Job → Db × SweepResult → Db × SweepResult
unfolding fail_lease requeue_lease
reap_lease max_attempts now job s =
    if leb max_attempts job.attempts then fail_lease now job s else requeue_lease job s

-- The body of the second: a job past its deadline.
unfoldable pub reap_overdue : ℕ → Job → Db × SweepResult → Db × SweepResult
reap_overdue now job (db, r) =
    let (db', done) = fail job.id none (overdue_detail now job) now db in
    if done
    then (
      record_outcome job.pod_id Pods.failed
          (add_event job.id JobEventKind.deadline_exceeded job.pod_id none db'),
      record r { failed = r.failed + 1 },
    )
    else (db', r)

-- The body of the third: a cancel that no pod acknowledged.
unfoldable pub reap_cancel : ℕ → Job → Db × SweepResult → Db × SweepResult
reap_cancel now job (db, r) =
    let (db', done) =
      mark_cancelled job.id none now (text "pod did not acknowledge the cancel") db in
    if done then (db', record r { cancelled = r.cancelled + 1 }) else (db', r)

-- `for (const job of jobs) body(job)`
unfoldable pub for_each {ℓ κ} : {A : Type ℓ} {S : Type κ} → (A → S → S) → List A → S → S
for_each body [] s = s
for_each body (x ∷ xs) s = for_each body xs (body x s)

-- Each loop selects its jobs when it starts. The third cut-off is `now - cancelGraceMs`: a
-- difference that stops at 0 selects the same rows, as no time is below it.
unfoldable pub sweep : Config → ℕ → Db → Db × SweepResult
unfolding for_each reap_lease reap_overdue reap_cancel
sweep config now db =
    let s1 =
      for_each (reap_lease config.max_attempts now) (expired_leases now db)
        (db, record { requeued = 0; failed = 0; cancelled = 0 }) in
    let s2 = for_each (reap_overdue now) (overdue now s1.0) s1 in
    for_each (reap_cancel now) (stale_cancels (now - config.cancel_grace_ms) s2.0) s2

-- `if (result.requeued > 0) waiters.kick();`
abbrev pub sweep_kicks : SweepResult → Bool
sweep_kicks r = ltb 0 r.requeued
