-- ===== src/Store/Kept.antt =====
-- gateway/src/db/jobs.ts: what a property of the table has to satisfy to be kept by every statement
-- but the INSERT, and that it then is.
use nidora_ai_inference.Base.{
  ℕ, ◌+◌, ◌<◌, ◌≡◌, refl, Bool, true, Option, none, some, List, [], ◌∷◌, arith, ltb, if-elim, All,
  All-map, Str, truthy, update_where, delete_where, All-update_where_if, All-delete_where,
}
use nidora_ai_inference.Domain.Types.{
  is_in_progress, is_active, Number, Artifact, Job, JobEventKind,
}
use nidora_ai_inference.Store.Db.{Db, has_id, swap, jobs-swap, changes}
use nidora_ai_inference.Store.Jobs.{
  in_flight, owns_or, unfinished, claim, renew_lease, complete, fail, requeued_row, requeue,
  cancel_queued, request_cancel, mark_cancelled, set_artifacts, clear_input, recover_on_startup,
  finished_lt, purge_before,
}
use nidora_ai_inference.Store.Rows.{IsCoherent}
use nidora_ai_inference.Store.Invariant.{
  IsSound, KeepsId, update_where-Distinct, delete_where-Distinct, owns_or-in_progress,
}
use nidora_ai_inference.Store.Machine.{
  Turn, claims, renews, completes, fails, requeues, cancels_queued, flags, cancels, extends,
  forgets_files, forgets_input, Turns, once, Turns-IsCoherent,
}

-- A property of the table that holds of sound tables only, and that survives transitions of its rows
-- and the loss of rows.
pub record Kept (m : ℕ) : Type 1 where
  pub On : List Job → Type 0
  pub sound : (js : List Job) → On js → IsSound m js
  pub update :
      (hit : Job → Bool) (set : Job → Job) (js : List Job)
      → KeepsId set
      → All (λ j. hit j ≡ true → Turns m j (set j)) js
      → On js
      → On (update_where hit set js)
  pub delete : (hit : Job → Bool) (js : List Job) → On js → On (delete_where hit js)

-- Soundness itself is one.
abbrev pub soundness : (m : ℕ) → Kept m
soundness m = record {
  On = IsSound m;
  sound = λ js s. s;
  update = λ hit set js keep all s. record {
    coherent =
        All-update_where_if (IsCoherent m) (λ j. hit j ≡ true → Turns m j (set j)) hit set
          (λ j h q c. Turns-IsCoherent (q h) c) js all s.coherent;
    distinct = update_where-Distinct hit set keep js s.distinct;
  };
  delete = λ hit js s. record {
    coherent = All-delete_where (IsCoherent m) hit js s.coherent;
    distinct = delete_where-Distinct hit js s.distinct;
  };
}

pub All-any {ℓ κ} : {A : Type ℓ} (P : A → Type κ) → ((x : A) → P x) → (xs : List A) → All P xs
All-any P f [] = tt
All-any P f (x ∷ xs) = (f x, All-any P f xs)

unfinished_active :
    (id : Str) (lease : Option Str) (j : Job)
    → owns_or (unfinished id) id lease j ≡ true
    → is_active j.state ≡ true
unfinished_active id none j h = ground arith
unfinished_active id (some []) j h = ground arith
unfinished_active id (some (c ∷ cs)) j h = ground arith

module _ {m : ℕ} (I : Kept m) where
  pub update_where-kept :
      (hit : Job → Bool) (set : Job → Job)
      → KeepsId set
      → ((j : Job) → hit j ≡ true → Turn m j (set j))
      → (js : List Job) → I.On js
      → I.On (update_where hit set js)
  update_where-kept hit set keep t js s =
      I.update hit set js keep
        (All-any (λ j. hit j ≡ true → Turns m j (set j)) (λ j h. once (t j h)) js) s

  module _ (db : Db) (s : I.On db.jobs) where
    swap-kept :
        (hit : Job → Bool) (set : Job → Job) (id : Str) (kind : JobEventKind)
        (pod_id detail : Option Str)
        → KeepsId set
        → ((j : Job) → hit j ≡ true → Turn m j (set j))
        → I.On (swap hit set id kind pod_id detail db).0.jobs
    swap-kept hit set id kind pod_id detail keep t =
        rw (jobs-swap hit set id kind pod_id detail db) (update_where-kept hit set keep t db.jobs s)

    pub claim-kept :
        (id pod_id lease : Str) (expires now : ℕ)
        → truthy lease ≡ true
        → I.On (claim id pod_id lease expires now db).0.jobs
    unfolding claim
    claim-kept id pod_id lease expires now l =
        swap-kept _ _ _ _ _ _ (λ j. refl) (λ j h. claims pod_id lease expires now l (ground arith))

    pub renew_lease-kept :
        (id lease : Str) (expires : ℕ) (progress : Option Number) (upstream : Option Str)
        → I.On (renew_lease id lease expires progress upstream db).0.jobs
    unfolding renew_lease
    renew_lease-kept id lease expires progress upstream =
        update_where-kept _ _ (λ j. refl) (λ j h. renews expires progress upstream (ground arith))
          db.jobs s

    pub complete-kept :
        (id lease : Str) (files : List Artifact) (now : ℕ)
        → I.On (complete id lease files now db).0.jobs
    unfolding complete
    complete-kept id lease files now =
        swap-kept _ _ _ _ _ _ (λ j. refl) (λ j h. completes files now (ground arith))

    pub fail-kept :
        (id : Str) (lease : Option Str) (error : Str) (now : ℕ)
        → I.On (fail id lease error now db).0.jobs
    unfolding fail
    fail-kept id lease error now =
        swap-kept _ _ _ _ _ _ (λ j. refl) (λ j h. fails error now (unfinished_active id lease j h))

    -- A requeue is a transition of a job that has attempts left.
    pub requeue-kept :
        (id : Str) (lease : Option Str) (reason : Str)
        → All (λ j. owns_or (in_flight id) id lease j ≡ true → j.attempts < m) db.jobs
        → I.On (requeue id lease reason db).0.jobs
    unfolding requeue
    requeue-kept id lease reason left =
        rw
          (jobs-swap (owns_or (in_flight id) id lease) requeued_row id JobEventKind.requeued none
            (some reason) db)
          (I.update (owns_or (in_flight id) id lease) requeued_row db.jobs (λ j. refl)
            (All-map (λ j. owns_or (in_flight id) id lease j ≡ true → j.attempts < m)
              (λ j. owns_or (in_flight id) id lease j ≡ true → Turns m j (requeued_row j))
              (λ j a h. once (requeues (owns_or-in_progress id lease j h) (a h))) db.jobs left)
            s)

    pub cancel_queued-kept : (id : Str) (now : ℕ) → I.On (cancel_queued id now db).0.jobs
    unfolding cancel_queued
    cancel_queued-kept id now =
        swap-kept _ _ _ _ _ _ (λ j. refl) (λ j h. cancels_queued now (ground arith))

    pub request_cancel-kept : (id : Str) (now : ℕ) → I.On (request_cancel id now db).0.jobs
    unfolding request_cancel
    request_cancel-kept id now = swap-kept _ _ _ _ _ _ (λ j. refl) (λ j h. flags now (ground arith))

    pub mark_cancelled-kept :
        (id : Str) (lease : Option Str) (now : ℕ) (detail : Str)
        → I.On (mark_cancelled id lease now detail db).0.jobs
    unfolding mark_cancelled
    mark_cancelled-kept id lease now detail =
        swap-kept _ _ _ _ _ _ (λ j. refl) (λ j h. cancels now (owns_or-in_progress id lease j h))

    pub set_artifacts-kept :
        (id : Str) (files : List Artifact) → I.On (set_artifacts id files db).jobs
    unfolding set_artifacts
    set_artifacts-kept id files =
        update_where-kept (has_id id) _ (λ j. refl) (λ j h. forgets_files files) db.jobs s

    pub clear_input-kept : (id : Str) → I.On (clear_input id db).jobs
    unfolding clear_input
    clear_input-kept id =
        update_where-kept (has_id id) _ (λ j. refl) (λ j h. forgets_input) db.jobs s

    pub recover_on_startup-kept : (now grace : ℕ) → I.On (recover_on_startup now grace db).0.jobs
    unfolding recover_on_startup
    recover_on_startup-kept now grace =
        if-elim (λ (d : Db). I.On d.jobs) (ltb 0 (changes (λ j. is_in_progress j.state) db)) _ _
          (λ _. extended) (λ _. extended)
      where
        extended : I.On (
            update_where
              (λ j. is_in_progress j.state)
              (λ j. record j { lease_expires_at = some (now + grace) })
              db.jobs)
        extended =
            update_where-kept (λ j. is_in_progress j.state)
              (λ j. record j { lease_expires_at = some (now + grace) }) (λ j. refl)
              (λ j h. extends (now + grace) h) db.jobs s

    pub purge_before-kept : (before : ℕ) → I.On (purge_before before db).0.jobs
    unfolding purge_before
    purge_before-kept before = I.delete (finished_lt before) db.jobs s
