-- ===== src/Gateway/Machine.antt =====
-- The gateway as a whole: every event moves each job along the transitions of the store.
use nidora_ai_inference.Base.{
  ℕ, ◌<◌, ◌≡◌, sym, subst, ◌⊎◌, inl, inr, Option-cases, true, false, some, none, List, [], ◌∷◌,
  ◌++◌, any, All, All-map, All-append, All-update_where_if, All-delete_where, All-find, arith, Str,
  str_eq_sound, find, find_sound,
}
use nidora_ai_inference.Domain.Types.{is_terminal, Job}
use nidora_ai_inference.Store.Db.{Db, has_id, get}
use nidora_ai_inference.Store.Jobs.{NewJob, new_row, create}
use nidora_ai_inference.Store.Invariant.{IsSound}
use nidora_ai_inference.Store.Machine.{Turns, rest, Turns-trans, IsFrozen, Turns-IsFrozen}
use nidora_ai_inference.Store.Kept.{Kept, soundness}
use nidora_ai_inference.Store.Upkeep.{find_unique, create-appended, create-IsSound}
use nidora_ai_inference.Routes.State.{Gateway}
use nidora_ai_inference.Routes.Videos.Create.{Body}
use nidora_ai_inference.Routes.Videos.Create.Kept.{create_video-kept}
use nidora_ai_inference.Scheduler.Config.{Config}
use nidora_ai_inference.Gateway.{Event, Runtime, step}
use nidora_ai_inference.Gateway.Kept.{step-kept}
use nidora_ai_inference.Gateway.Soundness.{Sound, IsUsable}

-- Every row of an id has been reached from a job of that id.
abbrev Follows : ℕ → Str → Job → Job → Type 0
Follows m id j r = has_id id r ≡ true → Turns m j r

Follows-step :
    (m : ℕ) (id : Str) (j : Job) (set : Job → Job) (r : Job)
    → (set r).id ≡ r.id
    → Turns m r (set r)
    → Follows m id j r
    → Follows m id j (set r)
Follows-step m id j set r keep t f h = Turns-trans (f (ground (arith, keep))) t

abbrev followed : (m : ℕ) (id : Str) (j : Job) → Kept m
followed m id j = record {
  On = λ rows. IsSound m rows × All (Follows m id j) rows;
  sound = λ rows h. h.0;
  update = λ hit set rows keep t h. (
    (soundness m).update hit set rows keep t h.0,
    All-update_where_if (Follows m id j) (λ r. hit r ≡ true → Turns m r (set r)) hit set
        (λ r e q. Follows-step m id j set r (keep r) (q e)) rows t h.1,
  );
  delete = λ hit rows h.
      ((soundness m).delete hit rows h.0, All-delete_where (Follows m id j) hit rows h.1);
}

any-find :
    (id : Str) (rows : List Job) (j : Job)
    → find (has_id id) rows ≡ some j
    → any (has_id id) rows ≡ true
unfolding find
any-find id [] j e = cc
any-find id (r ∷ rows) j e = ground (arith, any-find id rows j)

any-append_left :
    (id : Str) (rows more : List Job)
    → any (has_id id) rows ≡ true
    → any (has_id id) (rows ++ more) ≡ true
any-append_left id [] more e = absurd (ground arith)
any-append_left id (r ∷ rows) more e = ground (arith, any-append_left id rows more)

module _ (m : ℕ) (id : Str) (j : Job) where
  -- With a row of the id, so that no INSERT can make another.
  abbrev Has : List Job → Type 0
  Has rows = (followed m id j).On rows × (any (has_id id) rows ≡ true)

  create-Has :
      (n : NewJob) (db db' : Db) → 0 < m → create n db ≡ some db' → Has db.jobs → Has db'.jobs
  unfolding new_row
  create-Has n db db' pos e ((s, all), here) =
      let (fresh, rows) = create-appended n db db' e in
      let other : has_id id (new_row n) ≡ true → Turns m j (new_row n) = λ h.
        absurd
          (taken (subst (λ k. any (has_id k) db.jobs ≡ false) (str_eq_sound n.id id h) fresh)) in
      (
        (
          create-IsSound m db n db' pos e s,
          rw rows (All-append (Follows m id j) db.jobs (new_row n ∷ []) all (other, tt)),
        ),
        rw rows (any-append_left id db.jobs (new_row n ∷ []) here),
      )
    where
      taken : any (has_id id) db.jobs ≡ false → ⊥
      taken a = cc

module _ (rt : Runtime) (config : Config) (u : IsUsable rt config) where
  -- In a sound gateway, with random ids that are not empty and a cap of one attempt at least: where a
  -- job and an event leave a row of the job's id, that row has been reached from the job's by
  -- transitions of the store, each under its guard: a claim or a cancel of a queued job; a renewal, a
  -- completion, a requeue below the cap, a cancel request, a cancel or a new lease expiry of a job in
  -- progress; a failure of a queued job or one in progress; and, in any state, another list of
  -- artifacts or the loss of the input.
  pub step-Turns :
      (e : Event) (g : Gateway) (id : Str) (j k : Job)
      → Sound config g
      → get id g.db ≡ some j
      → get id (step rt config e g).db ≡ some k
      → Turns config.max_attempts j k
  unfolding get
  step-Turns e g id j k s before after =
      let m : ℕ = config.max_attempts in
      let start : (followed m id j).On g.db.jobs = (
        s,
        All-map (λ r. has_id id r ≡ true → r ≡ j) (Follows m id j)
            (λ r f h. subst (Turns m j) (sym (f h)) rest) g.db.jobs
            (find_unique id g.db.jobs j s.distinct before),
      ) in
      let made = λ (body : Body) (h : e ≡ Event.submits body).
        (create_video-kept rt.floats rt.sha256 rt.to_number config (Has m id j)
          (λ n db db' h'. create-Has m id j n db db' u.some_attempt h') rt.random_bytes body g
          (start, any-find id g.db.jobs j before)).0 in
      let end = step-kept rt config u.named (followed m id j) e g made start in
      All-find (Follows m id j) (has_id id) (step rt config e g).db.jobs k end.1 after
        (find_sound (has_id id) (step rt config e g).db.jobs k after)

  -- In a sound gateway, with random ids that are not empty and a cap of one attempt at least: after any
  -- event a job that has ended either is gone or shows the state, the progress, the error, the finishing
  -- time, the pod, the attempts and the cancel flag that it had.
  pub step-IsFrozen :
      (e : Event) (g : Gateway) (id : Str) (j : Job)
      → Sound config g
      → get id g.db ≡ some j
      → is_terminal j.state ≡ true
      → let after = get id (step rt config e g).db in
        (after ≡ none) ⊎ ((k : Job) × (after ≡ some k) × IsFrozen j k)
  step-IsFrozen e g id j s before ended = elim (Option-cases (get id (step rt config e g).db)) [
    | inl h ↦ inl h
    | inr (k, h) ↦ inr (k, h, Turns-IsFrozen (step-Turns e g id j k s before h) ended)
  ]
