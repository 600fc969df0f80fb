-- ===== src/Scheduler/Claim/Laws.antt =====
-- gateway/src/scheduler/claim.ts: what a poll can be handed.
pub mod First
use nidora_ai_inference.Base.{
  ℕ, ◌+◌, ◌≤◌, ◌<◌, ◌≡◌, refl, sym, ap, ◌∙◌, inl, inr, Bool, true, false, not, ◌||◌, some, List, [],
  ◌∷◌, ◌++◌, arith, leb, if-elim, Option-cases, is_some, length, take, length-append, All,
  All-append, All-map, Str, truthy, column_is_sound,
}
use nidora_ai_inference.Domain.Types.{in_progress, Job, Pod}
use nidora_ai_inference.Store.Db.{Db, get}
use nidora_ai_inference.Store.Jobs.{claim}
use nidora_ai_inference.Store.Queries.{list_queued}
use nidora_ai_inference.Domain.Models.{get_model}
use nidora_ai_inference.Store.Pods.{pod_model}
use nidora_ai_inference.Store.Invariant.{IsSound}
use nidora_ai_inference.Store.Kept.{soundness, claim-kept}
use nidora_ai_inference.Store.Fencing.{claim-won, claim-in_progress}
use nidora_ai_inference.Scheduler.Claim.{
  Assignment, Claiming, serves, assignment_for, start_claiming, assignment_of, push_assignment,
  take_job, claim_round, claim_loop, claim_for_pod,
}

-- What an assignment says agrees with the pod that asked.
abbrev pub IsFor : Pod → Assignment → Type 0
IsFor pod a = pod_model pod ≡ some a.model

assignment_for-some :
    (job : Job) (lease : Str)
    → is_some (get_model (some job.model)) ≡ true
    → (a : Assignment) × (assignment_for job lease ≡ some a)
      × (a.model ≡ job.model)
      × (a.job_id ≡ job.id)
      × (a.lease_id ≡ lease)
unfolding assignment_for
assignment_for-some job lease h = elim (Option-cases (get_model (some job.model))) [
  | inl e ↦ absurd (cc e)
  | inr (spec, e) ↦ (assignment_of job lease spec, rw e, refl, refl, refl)
]

module _ (uuid : ℕ → Str) (pod : Pod) (slots lease_ttl now : ℕ) where
  -- The state of the loop between two rounds.
  pub record Holds (c : Claiming) : Type 0 where
    pub within : length c.assigned ≤ slots
    pub never_thrown : c.thrown ≡ false
    pub matching : All (IsFor pod) c.assigned

  -- A round does nothing, or takes the job behind its three guards.
  claim_round_cases {ℓ} :
      (P : Claiming → Type ℓ) (job : Job) (c : Claiming)
      → P c
      → (c.thrown ≡ false
          → length c.assigned < slots
          → serves pod job ≡ true
          → is_some (get_model (some job.model)) ≡ true
          → P (take_job uuid pod lease_ttl now job c))
      → P (claim_round uuid pod slots lease_ttl now job c)
  unfolding claim_round
  claim_round_cases P job c stay take =
      if-elim P (c.thrown || leb slots (length c.assigned)) _ _ (λ e. stay)
        λ e1.
          if-elim P (not (serves pod job)) _ _ (λ e. stay)
            λ e2.
              if-elim P (not (is_some (get_model (some job.model)))) _ _ (λ e. stay)
                λ e3. take (ground arith) (ground arith) (ground arith) (ground arith)

  abbrev attempt : Job → Claiming → Db × Bool
  attempt job c =
      claim job.id pod.pod_id (uuid c.db.drawn) (now + lease_ttl) now
        (record c.db { drawn = c.db.drawn + 1 })

  take_job-Holds :
      (job : Job) (c : Claiming)
      → Holds c
      → length c.assigned < slots
      → serves pod job ≡ true
      → is_some (get_model (some job.model)) ≡ true
      → Holds (take_job uuid pod lease_ttl now job c)
  unfolding take_job push_assignment
  take_job-Holds job c h l s k =
      let (a, e, model_eq, id_eq, lease_eq) = assignment_for-some job (uuid c.db.drawn) k in
      rw e (
        if-elim Holds (attempt job c).1
          (record { db = (attempt job c).0; assigned = c.assigned ++ a ∷ []; thrown = false })
          (record c { db = (attempt job c).0 })
          (λ w. record {
            within = omega (arith, length-append c.assigned (a ∷ []));
            never_thrown = refl;
            matching =
                All-append (IsFor pod) c.assigned (a ∷ []) h.matching
                  (column_is_sound (pod_model pod) job.model s ∙ ap some (sym model_eq), tt);
          })
          (λ w. record { within = h.within; never_thrown = h.never_thrown; matching = h.matching }))

  claim_round-Holds :
      (job : Job) (c : Claiming) → Holds c → Holds (claim_round uuid pod slots lease_ttl now job c)
  claim_round-Holds job c h =
      claim_round_cases Holds job c h (λ t l s k. take_job-Holds job c h l s k)

  claim_loop-Holds :
      (jobs : List Job) (c : Claiming)
      → Holds c
      → Holds (claim_loop uuid pod slots lease_ttl now jobs c)
  unfolding claim_loop
  claim_loop-Holds [] c h = h
  claim_loop-Holds (job ∷ jobs) c h =
      claim_loop-Holds jobs (claim_round uuid pod slots lease_ttl now job c)
        (claim_round-Holds job c h)

  -- Every claim hands out no more jobs than the slots, all for the model that the pod
  -- loaded, and no exception leaves the loop.
  pub claim_for_pod-Holds : (db : Db) → Holds (claim_for_pod uuid pod slots lease_ttl now db)
  unfolding claim_for_pod
  claim_for_pod-Holds db =
      if-elim Holds (leb slots 0) _ _ (λ e. empty)
        (λ e. claim_loop-Holds (list_queued 100 db) (start_claiming db) empty)
    where
      empty : Holds (start_claiming db)
      empty = record { within = omega arith; never_thrown = refl; matching = tt }

-- The row of an assigned job is in progress for the pod, under the lease of the assignment.
abbrev pub IsHeld : Pod → Db → Assignment → Type 0
IsHeld pod db a =
    (j : Job) × (get a.job_id db ≡ some j)
    × (j.state ≡ in_progress)
    × (j.pod_id ≡ some pod.pod_id)
    × (j.lease_id ≡ some a.lease_id)

module _ (uuid : ℕ → Str) (m : ℕ) (named : (n : ℕ) → truthy (uuid n) ≡ true) (pod : Pod)
    (slots lease_ttl now : ℕ) where
  record Handed (c : Claiming) : Type 0 where
    sound : IsSound m c.db.jobs
    held : All (IsHeld pod c.db) c.assigned

  take_job-Handed :
      (job : Job) (c : Claiming)
      → Handed c
      → is_some (get_model (some job.model)) ≡ true
      → Handed (take_job uuid pod lease_ttl now job c)
  unfolding take_job push_assignment get
  take_job-Handed job c h k =
      let (a, e, model_eq, id_eq, lease_eq) = assignment_for-some job (uuid c.db.drawn) k in
      rw e (
        if-elim Handed (attempt uuid pod slots lease_ttl now job c).1
          (record {
            db = (attempt uuid pod slots lease_ttl now job c).0;
            assigned = c.assigned ++ a ∷ [];
            thrown = false;
          })
          (record c { db = (attempt uuid pod slots lease_ttl now job c).0 })
          (λ w.
            let (j, g, st, po, le) =
              claim-won job.id pod.pod_id (uuid c.db.drawn) (now + lease_ttl) now db0
                h.sound.distinct w in
            record {
              sound = sound';
              held =
                  All-append (IsHeld pod db') c.assigned (a ∷ []) old
                    ((j, ap (λ k. get k db') id_eq ∙ g, st, po, le ∙ ap some (sym lease_eq)), tt);
            })
          (λ w. record { sound = sound'; held = old }))
    where
      db0 : Db
      db0 = record c.db { drawn = c.db.drawn + 1 }

      db' : Db
      db' = (attempt uuid pod slots lease_ttl now job c).0

      sound' : IsSound m db'.jobs
      sound' =
          claim-kept (soundness m) db0 h.sound job.id pod.pod_id (uuid c.db.drawn) (now + lease_ttl)
            now (named c.db.drawn)

      old : All (IsHeld pod db') c.assigned
      old =
          All-map (IsHeld pod c.db) (IsHeld pod db')
            (λ b (j, g, st, po, le). (
              j,
              claim-in_progress job.id pod.pod_id (uuid c.db.drawn) (now + lease_ttl) now db0
                  h.sound.distinct b.job_id j g st,
              st,
              po,
              le,
            ))
            c.assigned h.held

  claim_loop-Handed :
      (jobs : List Job) (c : Claiming)
      → Handed c
      → Handed (claim_loop uuid pod slots lease_ttl now jobs c)
  unfolding claim_loop
  claim_loop-Handed [] c h = h
  claim_loop-Handed (job ∷ jobs) c h =
      claim_loop-Handed jobs (claim_round uuid pod slots lease_ttl now job c) (
        claim_round_cases uuid pod slots lease_ttl now Handed job c h
          (λ t l s k. take_job-Handed job c h k))

  -- Over a sound table, and with lease ids that are not empty: when the claim ends, every job that it
  -- hands out is in progress for the pod, under the lease that the pod is told.
  pub claim_for_pod-IsHeld :
      (db : Db)
      → IsSound m db.jobs
      → let c = claim_for_pod uuid pod slots lease_ttl now db in All (IsHeld pod c.db) c.assigned
  unfolding claim_for_pod
  claim_for_pod-IsHeld db s =
      if-elim (λ (c : Claiming). All (IsHeld pod c.db) c.assigned) (leb slots 0) _ _ (λ e. tt)
        (λ e.
          (claim_loop-Handed (list_queued 100 db) (start_claiming db)
            (record { sound = s; held = tt })).held)
