-- ===== src/Store/Fencing.antt =====
-- gateway/src/db/jobs.ts: lease fencing, the writes that present a lease.
use nidora_ai_inference.Base.{
  ℕ, ◌≡◌, refl, ap, ◌∙◌, ◌≢◌, inl, inr, Bool, true, false, ◌&&◌, Option, some, List, ◌∷◌, arith,
  ◌==◌, Bool-cases, Option-cases, Str, column_is, apply_if, find, update_where-miss,
  find-update_where, find_sound,
}
use nidora_ai_inference.Domain.Types.{in_progress, is_queued, is_in_progress, Number, Artifact, Job}
use nidora_ai_inference.Store.Db.{Db, has_id, get, get-swap}
use nidora_ai_inference.Store.Jobs.{
  owns, waiting, claimed_row, claim, renewed_row, renew_lease, completed_row, complete, failed_row,
  fail, requeued_row, requeue, cancelled_row, mark_cancelled,
}
use mathlib.Core.Option
use nidora_ai_inference.Store.Invariant.{Distinct}
use nidora_ai_inference.Store.Lookup.{one_if, count_where-find, swap-found, swap-refused}

-- The row of the id is in progress under the lease.
abbrev pub held : Str → Job → Bool
held lease j = is_in_progress j.state && column_is j.lease_id lease

-- The five writes that an agent's lease guards.
pub data LeasedWrite : Type 0 where
  renews : ℕ → Option Number → Option Str → LeasedWrite
  completes : List Artifact → ℕ → LeasedWrite
  fails : Str → ℕ → LeasedWrite
  requeues : Str → LeasedWrite
  cancels : ℕ → Str → LeasedWrite

unfoldable pub write : LeasedWrite → Str → Str → Db → Db × Bool
write (renews expires progress upstream) id lease db =
    renew_lease id lease expires progress upstream db
write (completes files now) id lease db = complete id lease files now db
write (fails error now) id lease db = fail id (some lease) error now db
write (requeues reason) id lease db = requeue id (some lease) reason db
write (cancels now detail) id lease db = mark_cancelled id (some lease) now detail db

unfoldable pub written : LeasedWrite → Job → Job
written (renews expires progress upstream) = renewed_row expires progress upstream
written (completes files now) = completed_row files now
written (fails error now) = failed_row error now
written (requeues reason) = requeued_row
written (cancels now detail) = cancelled_row now

module _ (id : Str) (c : ℕ) (cs : Str) (db : Db) (d : Distinct db.jobs) where
  -- The renewal logs nothing, so it is no swap.
  renew-refused :
      (expires : ℕ) (progress : Option Number) (upstream : Option Str)
      → one_if (held (c ∷ cs)) (get id db) ≡ 0
      → renew_lease id (c ∷ cs) expires progress upstream db ≡ (db, false)
  unfolding renew_lease get
  renew-refused expires progress upstream h = ground (
    arith,
    count_where-find id (held (c ∷ cs)) db.jobs d,
    update_where-miss (owns id (c ∷ cs)) (renewed_row expires progress upstream) db.jobs,
  )

  renew-found :
      (expires : ℕ) (progress : Option Number) (upstream : Option Str) (j : Job)
      → get id db ≡ some j
      → held (c ∷ cs) j ≡ true
      → let (db', done) = renew_lease id (c ∷ cs) expires progress upstream db in
        (done ≡ true) × (get id db' ≡ some (renewed_row expires progress upstream j))
  unfolding renew_lease get
  renew-found expires progress upstream j g h = (
    ap (λ n. n == 1) (count_where-find id (held (c ∷ cs)) db.jobs d ∙ one),
    find-update_where (has_id id) (owns id (c ∷ cs)) (renewed_row expires progress upstream)
          (λ k. refl) db.jobs
        ∙ ap (Option.map (apply_if (owns id (c ∷ cs)) (renewed_row expires progress upstream))) g
        ∙ ap some (ground (arith, find_sound (has_id id) db.jobs j g)),
  )
    where
      one : one_if (held (c ∷ cs)) (find (has_id id) db.jobs) ≡ 1
      one = rw (g, h) refl

  -- Under distinct ids: a renewal, completion, failure, requeue or cancel that presents a lease (not
  -- the empty one) is refused if the lease is not the row's, the row is not in progress, or there is
  -- no row of the id; the database then stays as it was.
  pub write-refused :
      (w : LeasedWrite)
      → one_if (held (c ∷ cs)) (get id db) ≡ 0
      → write w id (c ∷ cs) db ≡ (db, false)
  unfolding write complete fail requeue mark_cancelled
  write-refused (renews expires progress upstream) h = renew-refused expires progress upstream h
  write-refused (completes files now) h =
      swap-refused id (held (c ∷ cs)) (completed_row files now) _ _ _ db d h
  write-refused (fails error now) h =
      swap-refused id (held (c ∷ cs)) (failed_row error now) _ _ _ db d h
  write-refused (requeues reason) h = swap-refused id (held (c ∷ cs)) requeued_row _ _ _ db d h
  write-refused (cancels now detail) h =
      swap-refused id (held (c ∷ cs)) (cancelled_row now) _ _ _ db d h

  -- Under distinct ids: each of the five writes that presents the lease of a row in progress (not the
  -- empty one) succeeds, and a look-up then finds the row that the write sets.
  pub write-accepted :
      (w : LeasedWrite) (j : Job)
      → get id db ≡ some j
      → held (c ∷ cs) j ≡ true
      → let (db', done) = write w id (c ∷ cs) db in
        (done ≡ true) × (get id db' ≡ some (written w j))
  unfolding write written complete fail requeue mark_cancelled
  write-accepted (renews expires progress upstream) j g h =
      renew-found expires progress upstream j g h
  write-accepted (completes files now) j g h =
      swap-found id (held (c ∷ cs)) (completed_row files now) _ _ _ db d (λ k. refl) j g h
  write-accepted (fails error now) j g h =
      swap-found id (held (c ∷ cs)) (failed_row error now) _ _ _ db d (λ k. refl) j g h
  write-accepted (requeues reason) j g h =
      swap-found id (held (c ∷ cs)) requeued_row _ _ _ db d (λ k. refl) j g h
  write-accepted (cancels now detail) j g h =
      swap-found id (held (c ∷ cs)) (cancelled_row now) _ _ _ db d (λ k. refl) j g h

module _ (id pod_id lease : Str) (expires now : ℕ) (db : Db) (d : Distinct db.jobs) where
  abbrev queued_only : Job → Bool
  queued_only j = is_queued j.state

  -- A claim of a row that is not queued, or is not there, is lost and changes nothing.
  pub claim-lost :
      one_if queued_only (get id db) ≡ 0 → claim id pod_id lease expires now db ≡ (db, false)
  unfolding claim
  claim-lost h = swap-refused id queued_only (claimed_row pod_id lease expires now) _ _ _ db d h

  claim-not_lost :
      (claim id pod_id lease expires now db).1 ≡ true → one_if queued_only (get id db) ≢ 0
  claim-not_lost w h = cc (ap (λ (t : Db × Bool). t.1) (claim-lost h))

  -- Under distinct ids: after a claim that won, a look-up of the id finds a row in progress, in the
  -- name of the pod, under the lease.
  pub claim-won :
      (claim id pod_id lease expires now db).1 ≡ true
      → (j : Job) × (get id (claim id pod_id lease expires now db).0 ≡ some j)
        × (j.state ≡ in_progress)
        × (j.pod_id ≡ some pod_id)
        × (j.lease_id ≡ some lease)
  unfolding claim
  claim-won w = elim (Option-cases (get id db)) [
    | inl e ↦ absurd (claim-not_lost w (ap (one_if queued_only) e))
    | inr (j, e) ↦ elim (Bool-cases (is_queued j.state)) [
      | inl q ↦ (
        claimed_row pod_id lease expires now j,
        (swap-found id queued_only (claimed_row pod_id lease expires now) _ _ _ db d (λ k. refl) j e
            q).1,
        refl,
        refl,
        refl,
      )
      | inr q ↦ absurd (claim-not_lost w (ap (one_if queued_only) e ∙ rw q refl))
    ]
  ]

  -- A row that is in progress is not touched by any claim.
  pub claim-in_progress :
      (k : Str) (j : Job)
      → get k db ≡ some j
      → j.state ≡ in_progress
      → get k (claim id pod_id lease expires now db).0 ≡ some j
  unfolding claim
  claim-in_progress k j g h =
      get-swap (waiting id) (claimed_row pod_id lease expires now) id _ _ _ db (λ i. refl) k
      ∙ ap (Option.map (apply_if (waiting id) (claimed_row pod_id lease expires now))) g
      ∙ ap some (ground arith)
