-- ===== src/Scheduler/Claim/Kept.antt =====
-- gateway/src/scheduler/claim.ts: a claim keeps what the statements of the store keep.
use nidora_ai_inference.Base.{ℕ, ◌+◌, ◌≡◌, true, List, [], ◌∷◌, arith, leb, if-elim, Str, truthy}
use nidora_ai_inference.Domain.Types.{Job, Pod}
use nidora_ai_inference.Store.Db.{Db}
use nidora_ai_inference.Store.Queries.{list_queued}
use nidora_ai_inference.Store.Kept.{Kept, claim-kept}
use nidora_ai_inference.Scheduler.Claim.{
  Claiming, start_claiming, push_assignment, claim_round, claim_loop, claim_for_pod,
}

module _ (uuid : ℕ → Str) {m : ℕ} (I : Kept m) (named : (n : ℕ) → truthy (uuid n) ≡ true)
    (pod : Pod) (slots lease_ttl now : ℕ) where
  claim_round-kept :
      (job : Job) (c : Claiming)
      → I.On c.db.jobs
      → I.On (claim_round uuid pod slots lease_ttl now job c).db.jobs
  unfolding claim_round push_assignment
  claim_round-kept job c s = ground (
    arith,
    claim-kept I (record c.db { drawn = c.db.drawn + 1 }) s job.id pod.pod_id (uuid c.db.drawn)
        (now + lease_ttl) now (named c.db.drawn),
  )

  claim_loop-kept :
      (jobs : List Job) (c : Claiming)
      → I.On c.db.jobs
      → I.On (claim_loop uuid pod slots lease_ttl now jobs c).db.jobs
  unfolding claim_loop
  claim_loop-kept [] c s = s
  claim_loop-kept (job ∷ jobs) c s =
      claim_loop-kept jobs (claim_round uuid pod slots lease_ttl now job c)
        (claim_round-kept job c s)

  pub claim_for_pod-kept :
      (db : Db) → I.On db.jobs → I.On (claim_for_pod uuid pod slots lease_ttl now db).db.jobs
  unfolding claim_for_pod
  claim_for_pod-kept db s =
      if-elim (λ (c : Claiming). I.On c.db.jobs) (leb slots 0) _ _ (λ e. s)
        (λ e. claim_loop-kept (list_queued 100 db) (start_claiming db) s)
