-- ===== src/Scheduler/Claim/Laws/First.antt =====
-- gateway/src/scheduler/claim.ts: the job that a claim hands out first.
use nidora_ai_inference.Base.{
  ℕ, ◌+◌, ◌<◌, ◌≡◌, refl, sym, ap, subst, true, Option, none, some, List, [], ◌∷◌, ◌++◌, arith, leb,
  if-elim, is_some, All, All-take, Str, order_by-meets, select_where-meets,
}
use nidora_ai_inference.Domain.Types.{is_queued, Job, Pod}
use nidora_ai_inference.Store.Db.{Db, get}
use nidora_ai_inference.Store.Jobs.{claimed_row, claim}
use nidora_ai_inference.Store.Queries.{list_queued}
use nidora_ai_inference.Store.Invariant.{Distinct}
use nidora_ai_inference.Store.Lookup.{swap-found}
use nidora_ai_inference.Domain.Models.{get_model}
use nidora_ai_inference.Scheduler.Claim.{
  Assignment, Claiming, serves, assignment_for, start_claiming, push_assignment, take_job,
  claim_round, claim_loop, claim_for_pod,
}
use nidora_ai_inference.Scheduler.Claim.Laws.{attempt, assignment_for-some, claim_round_cases}
use nidora_ai_inference.Store.Upkeep.{rows_found}
use nidora_ai_inference.Ids.{new_lease_id}

-- A row of the queue is the one that its id finds.
abbrev Found : Db → Job → Type 0
Found db j = (get j.id db ≡ some j) × (is_queued j.state ≡ true)

list_queued-Found : (n : ℕ) (db : Db) → Distinct db.jobs → All (Found db) (list_queued n db)
unfolding list_queued get
list_queued-Found n db d = All-take (Found db) n _ (
    order_by-meets (λ (j : Job). j.created_at) (Found db) _
      (select_where-meets (λ j. get j.id db ≡ some j) (λ j. is_queued j.state) db.jobs
        (rows_found db.jobs d)))

module _ (uuid : ℕ → Str) (pod : Pod) (slots lease_ttl now : ℕ) where
  -- The list of assignments begins with this one.
  abbrev Starts : Assignment → Claiming → Type 0
  Starts a c = (more : List Assignment) × (c.assigned ≡ a ∷ more)

  push-Starts :
      (a : Assignment) (db : Db) (assigned more : List Assignment) (o : Option Assignment)
      → assigned ≡ a ∷ more
      → Starts a (push_assignment db assigned o)
  unfolding push_assignment
  push-Starts a db assigned more none e = (more, e)
  push-Starts a db assigned more (some b) e = (more ++ b ∷ [], ap (λ xs. xs ++ b ∷ []) e)

  claim_round-Starts :
      (a : Assignment) (job : Job) (c : Claiming)
      → Starts a c
      → Starts a (claim_round uuid pod slots lease_ttl now job c)
  unfolding take_job
  claim_round-Starts a job c (more, e) =
      claim_round_cases uuid pod slots lease_ttl now (Starts a) job c (more, e)
        (λ t l s k.
          if-elim (Starts a) (attempt uuid pod slots lease_ttl now job c).1 _ _
            (λ w.
              push-Starts a (attempt uuid pod slots lease_ttl now job c).0 c.assigned more
                (assignment_for job (new_lease_id uuid c.db.drawn)) e)
            (λ w. (more, e)))

  claim_loop-Starts :
      (a : Assignment) (jobs : List Job) (c : Claiming)
      → Starts a c
      → Starts a (claim_loop uuid pod slots lease_ttl now jobs c)
  unfolding claim_loop
  claim_loop-Starts a [] c h = h
  claim_loop-Starts a (job ∷ jobs) c h =
      claim_loop-Starts a jobs (claim_round uuid pod slots lease_ttl now job c)
        (claim_round-Starts a job c h)

  module _ (db : Db) (job : Job) where
    won :
        Distinct db.jobs
        → get job.id db ≡ some job
        → is_queued job.state ≡ true
        → (attempt uuid pod slots lease_ttl now job (start_claiming db)).1 ≡ true
    unfolding claim get
    won d g q =
        (swap-found job.id (λ j. is_queued j.state)
          (claimed_row pod.pod_id (new_lease_id uuid db.drawn) (now + lease_ttl) now) _ _ _
          (record db { drawn = db.drawn + 1 }) d (λ j. refl) job g q).0

    -- The first round takes the job.
    claim_round-first :
        Distinct db.jobs
        → get job.id db ≡ some job
        → is_queued job.state ≡ true
        → serves pod job ≡ true
        → is_some (get_model (some job.model)) ≡ true
        → 0 < slots
        → (a : Assignment) × Starts a
            (claim_round uuid pod slots lease_ttl now job (start_claiming db))
          × (a.job_id ≡ job.id)
          × (a.lease_id ≡ new_lease_id uuid db.drawn)
    unfolding claim_round take_job push_assignment
    claim_round-first d g q s k pos =
        let (a, e, model_eq, id_eq, lease_eq) =
          assignment_for-some job (new_lease_id uuid db.drawn) k in
        (a, ([], ground (arith, e, won d g q)), id_eq, lease_eq)

  pub claim_for_pod-first :
      (db : Db) (job : Job) (rest : List Job)
      → Distinct db.jobs
      → list_queued 100 db ≡ job ∷ rest
      → serves pod job ≡ true
      → is_some (get_model (some job.model)) ≡ true
      → 0 < slots
      → (a : Assignment) × ((more : List Assignment) × ((claim_for_pod uuid pod slots lease_ttl now
              db).assigned
            ≡ a ∷ more))
        × (a.job_id ≡ job.id)
        × (a.lease_id ≡ new_lease_id uuid db.drawn)
  unfolding claim_for_pod claim_loop
  claim_for_pod-first db job rest d e s k pos =
      let ((g, q), _) = subst (All (Found db)) e (list_queued-Found 100 db d) in
      let (a, h, i, l) = claim_round-first db job d g q s k pos in
      (
        a,
        if-elim (Starts a) (leb slots 0) _ _ (λ z. absurd (ground arith))
            (λ z.
              subst
                (λ jobs.
                  Starts a (claim_loop uuid pod slots lease_ttl now jobs (start_claiming db)))
                (sym e) (claim_loop-Starts a rest _ h)),
        i,
        l,
      )
