-- ===== src/Gateway/Restart.antt =====
-- gateway/src/index.ts, `main`: what the recovery at start gives to the jobs that were in flight.
use mathlib.Core.Option
use nidora_ai_inference.Base.{
  ℕ, ◌+◌, ◌-◌, ◌*◌, ◌≤◌, ◌≡◌, refl, sym, subst, ap, ◌∙◌, true, false, some, [], ◌∷◌, arith, if-elim,
  apply_if, update_where, find, find-update_where, Str,
}
use nidora_ai_inference.Domain.Types.{is_in_progress, Job}
use nidora_ai_inference.Store.Db.{Db, has_id, get}
use nidora_ai_inference.Store.Jobs.{recover_on_startup}
use nidora_ai_inference.Scheduler.Config.{Config}
use nidora_ai_inference.Scheduler.Reaper.{sweep, sweep_kicks}
use nidora_ai_inference.Scheduler.Reaper.Rounds.{is_overdue, cancel_is_stale, sweep_row}
use nidora_ai_inference.Scheduler.Reaper.Laws.{get-sweep, sweep_row-undisturbed}
use nidora_ai_inference.Routes.State.{Gateway, kick}
use nidora_ai_inference.Gateway.{Runtime, sweeps, restarts, passes, step, sweep_now, restart, run}
use nidora_ai_inference.Gateway.Soundness.{Sound, IsUsable, step-Sound}

-- The row with its lease pushed out.
abbrev pub extended : ℕ → Job → Job
extended until j = record j { lease_expires_at = some until }

jobs-recover_on_startup :
    (now grace : ℕ) (db : Db)
    → (recover_on_startup now grace db).0.jobs
      ≡ update_where (λ j. is_in_progress j.state) (extended (now + grace)) db.jobs
unfolding recover_on_startup
jobs-recover_on_startup now grace db = ground arith

clock-recover_on_startup :
    (now grace : ℕ) (db : Db) → (recover_on_startup now grace db).0.clock ≡ db.clock
unfolding recover_on_startup
clock-recover_on_startup now grace db = ground arith

module _ (rt : Runtime) (config : Config) where
  pub step-restarts :
      (g : Gateway)
      → step rt config restarts g ≡ record g {
        db = (recover_on_startup g.db.clock (config.max_poll_wait_ms * 2) g.db).0;
        waiting = [];
        woken = [];
        uploads = [];
      }
  unfolding step restart
  step-restarts g = refl

  abbrev until : Gateway → ℕ
  until g = g.db.clock + config.max_poll_wait_ms * 2

  get-restart :
      (g : Gateway) (id : Str) (j : Job)
      → get id g.db ≡ some j
      → is_in_progress j.state ≡ true
      → get id (step rt config restarts g).db ≡ some (extended (until g) j)
  unfolding step restart get
  get-restart g id j e q =
      ap (find (has_id id)) (jobs-recover_on_startup g.db.clock (config.max_poll_wait_ms * 2) g.db)
      ∙ find-update_where (has_id id) (λ k. is_in_progress k.state) (extended (until g)) (λ k. refl)
          g.db.jobs
      ∙ ap (Option.map (apply_if (λ k. is_in_progress k.state) (extended (until g)))) e
      ∙ ground (arith, q)

  get-sweeps :
      (g : Gateway) (id : Str) (j : Job)
      → Sound config g
      → get id g.db ≡ some j
      → sweep_row config g.db.clock j ≡ j
      → get id (step rt config sweeps g).db ≡ some j
  unfolding step sweep_now get kick
  get-sweeps g id j s e keep =
      if-elim (λ (h : Gateway). get id h.db ≡ some j) (sweep_kicks (sweep config g.db.clock g.db).1)
        _ _ (λ _. found) (λ _. found)
    where
      found : get id (sweep config g.db.clock g.db).0 ≡ some j
      found = get-sweep config g.db.clock g.db id j s e ∙ ap some keep

  -- In a sound gateway, with random ids that are not empty and a cap of one attempt at least: a job in
  -- progress outlives a restart and a sweep that follows it within two poll windows, unless it is past
  -- its deadline by then or its cancel is too old. It is still in progress with its pod, its lease, its
  -- attempts and all else as they were, and the lease runs until two poll windows behind the restart.
  pub restart-spares :
      (u : IsUsable rt config) (g : Gateway) (id : Str) (j : Job) (ms : ℕ)
      → Sound config g
      → get id g.db ≡ some j
      → is_in_progress j.state ≡ true
      → ms ≤ config.max_poll_wait_ms * 2
      → is_overdue (g.db.clock + ms) j ≡ false
      → cancel_is_stale (g.db.clock + ms - config.cancel_grace_ms) j ≡ false
      → get id (run rt config (restarts ∷ passes ms ∷ sweeps ∷ []) g).db
        ≡ some (extended (g.db.clock + config.max_poll_wait_ms * 2) j)
  unfolding run step restart get
  restart-spares u g id j ms s e q within due stale =
      let grace : ℕ = config.max_poll_wait_ms * 2 in
      let same = clock-recover_on_startup g.db.clock grace g.db in
      get-sweeps (step rt config (passes ms) (step rt config restarts g)) id (extended (until g) j)
        (step-Sound rt config u (passes ms) (step rt config restarts g)
          (step-Sound rt config u restarts g s))
        (get-restart g id j e q)
        (subst (λ now. sweep_row config (now + ms) (extended (until g) j) ≡ extended (until g) j)
          (sym same)
          (sweep_row-undisturbed config (g.db.clock + ms) (extended (until g) j) (ground arith) due
            stale))
