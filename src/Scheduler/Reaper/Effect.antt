-- ===== src/Scheduler/Reaper/Effect.antt =====
-- gateway/src/scheduler/reaper.ts: what a sweep does to the table of jobs, row by row.
use nidora_ai_inference.Base.{
  ℕ, ◌-◌, ◌≡◌, refl, ap, ◌∙◌, Bool, true, false, Option, none, some, List, [], ◌∷◌, map, arith, leb,
  All, All-map, Str, str_eq_refl, truthy_null, select_where,
}
use nidora_ai_inference.Domain.Types.{is_in_progress, Job}
use nidora_ai_inference.Store.Db.{Db}
use nidora_ai_inference.Store.Jobs.{in_flight, owns_or, unfinished}
use nidora_ai_inference.Store.Queries.{expired_leases, overdue, stale_cancels}
use mathlib.Core.List.{map-map}
use nidora_ai_inference.Store.Rows.{IsCoherent}
use nidora_ai_inference.Store.Invariant.{Distinct, IsSound}
use nidora_ai_inference.Scheduler.Config.{Config}
use nidora_ai_inference.Scheduler.Reaper.{
  SweepResult, reap_lease, reap_overdue, reap_cancel, for_each, sweep,
}
use nidora_ai_inference.Scheduler.Reaper.Rows.{
  Write, update_by, for_each-select_where, for_each-Distinct,
}
use nidora_ai_inference.Scheduler.Reaper.Rounds.{
  lease_rule, overdue_rule, cancel_rule, lease_hit, lease_write, overdue_write, cancel_write,
  jobs-reap_lease, jobs-reap_overdue, jobs-reap_cancel, lease_is_over, is_overdue, cancel_is_stale,
  sweep_row, jobs-for_each,
}

All-unit : (rows : List Job) → All (λ r. Unit {0}) rows
All-unit [] = tt
All-unit (r ∷ rows) = (tt, All-unit rows)

All-hits :
    (P : Job → Type 0) (w : Write) (p : Job → Bool)
    → ((r : Job) → P r → p r ≡ true → w.hit r r ≡ true)
    → (rows : List Job) → All P rows
    → All (λ r. p r ≡ true → w.hit r r ≡ true) rows
All-hits P w p h rows k = All-map P (λ r. p r ≡ true → w.hit r r ≡ true) h rows k

owns_or_self :
    (u : Job → Bool) (r : Job) (o : Option Str)
    → r.lease_id ≡ o
    → truthy_null o ≡ true
    → is_in_progress r.state ≡ true
    → owns_or u r.id o r ≡ true
owns_or_self u r none e t h = cc
owns_or_self u r (some []) e t h = cc
owns_or_self u r (some (c ∷ cs)) e t h = ground (arith, str_eq_refl r.id, str_eq_refl (c ∷ cs))

lease_hit_self :
    (m now : ℕ) (b : Bool) (r : Job)
    → IsCoherent m r
    → lease_is_over now r ≡ true
    → lease_hit b r r ≡ true
lease_hit_self m now true r c h =
    owns_or_self (unfinished r.id) r r.lease_id refl (ground arith) (ground arith)
lease_hit_self m now false r c h =
    owns_or_self (in_flight r.id) r r.lease_id refl (ground arith) (ground arith)

-- The first loop as a map.
lease_loop :
    (m now : ℕ) (db : Db) (r : SweepResult)
    → IsSound m db.jobs
    → (for_each (reap_lease m now) (expired_leases now db) (db, r)).0.jobs
      ≡ map (lease_rule m now) db.jobs
unfolding expired_leases lease_rule lease_write
lease_loop m now db r s =
    jobs-for_each (lease_write m now) (reap_lease m now) (jobs-reap_lease m now)
      (select_where (lease_is_over now) db.jobs) (db, r)
    ∙ for_each-select_where (lease_write m now) (lease_is_over now) db.jobs s.distinct (
        All-hits (IsCoherent m) (lease_write m now) (lease_is_over now)
          (λ j c. lease_hit_self m now (leb m j.attempts) j c) db.jobs s.coherent)

overdue_loop :
    (now : ℕ) (s : Db × SweepResult)
    → Distinct s.0.jobs
    → (for_each (reap_overdue now) (overdue now s.0) s).0.jobs ≡ map (overdue_rule now) s.0.jobs
unfolding overdue overdue_rule overdue_write
overdue_loop now s d =
    jobs-for_each (overdue_write now) (reap_overdue now) (jobs-reap_overdue now)
      (select_where (is_overdue now) s.0.jobs) s
    ∙ for_each-select_where (overdue_write now) (is_overdue now) s.0.jobs d (
        All-hits (λ r. Unit {0}) (overdue_write now) (is_overdue now)
          (λ r _ h. ground (arith, str_eq_refl r.id)) s.0.jobs (All-unit s.0.jobs))

cancel_loop :
    (before now : ℕ) (s : Db × SweepResult)
    → Distinct s.0.jobs
    → (for_each (reap_cancel now) (stale_cancels before s.0) s).0.jobs
      ≡ map (cancel_rule before now) s.0.jobs
unfolding stale_cancels cancel_rule cancel_write
cancel_loop before now s d =
    jobs-for_each (cancel_write now) (reap_cancel now) (jobs-reap_cancel now)
      (select_where (cancel_is_stale before) s.0.jobs) s
    ∙ for_each-select_where (cancel_write now) (cancel_is_stale before) s.0.jobs d (
        All-hits (λ r. Unit {0}) (cancel_write now) (cancel_is_stale before)
          (λ r _ h. ground (arith, str_eq_refl r.id)) s.0.jobs (All-unit s.0.jobs))

loop-Distinct :
    (w : Write) (body : Job → Db × SweepResult → Db × SweepResult)
    → ((job : Job) (s : Db × SweepResult) → (body job s).0.jobs ≡ update_by w job s.0.jobs)
    → (jobs : List Job) (s : Db × SweepResult) → Distinct s.0.jobs
    → Distinct (for_each body jobs s).0.jobs
loop-Distinct w body h jobs s d =
    rw (jobs-for_each w body h jobs s) (for_each-Distinct w jobs s.0.jobs d)

-- On a sound table the three loops of compare-and-swaps come to one function of each row: its lease
-- rule, then the deadline, then the cancel.
pub jobs-sweep :
    (config : Config) (now : ℕ) (db : Db)
    → IsSound config.max_attempts db.jobs
    → (sweep config now db).0.jobs ≡ map (sweep_row config now) db.jobs
unfolding sweep sweep_row
jobs-sweep config now db s =
    cancel_loop (now - config.cancel_grace_ms) now s2 d2
    ∙ ap (map (cancel_rule (now - config.cancel_grace_ms) now))
        (overdue_loop now s1 d1 ∙ ap (map (overdue_rule now)) (lease_loop m now db zeros s))
    ∙ ap (map (cancel_rule (now - config.cancel_grace_ms) now))
        (map-map (overdue_rule now) (lease_rule m now) db.jobs)
    ∙ map-map (cancel_rule (now - config.cancel_grace_ms) now)
        (λ r. overdue_rule now (lease_rule m now r)) db.jobs
  where
    m : ℕ
    m = config.max_attempts

    zeros : SweepResult
    zeros = record { requeued = 0; failed = 0; cancelled = 0 }

    s1 : Db × SweepResult
    s1 = for_each (reap_lease m now) (expired_leases now db) (db, zeros)

    d1 : Distinct s1.0.jobs
    d1 =
        loop-Distinct (lease_write m now) (reap_lease m now) (jobs-reap_lease m now)
          (expired_leases now db) (db, zeros) s.distinct

    s2 : Db × SweepResult
    s2 = for_each (reap_overdue now) (overdue now s1.0) s1

    d2 : Distinct s2.0.jobs
    d2 =
        loop-Distinct (overdue_write now) (reap_overdue now) (jobs-reap_overdue now)
          (overdue now s1.0) s1 d1
