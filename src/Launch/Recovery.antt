-- ===== src/Launch/Recovery.antt =====
-- gateway/src/index.ts, `main`: what is known of a process that listens.
use nidora_ai_inference.Base.{
  ◌≡◌, refl, sym, subst, Bool, true, if-elim, Option, List, All, Str, count_where,
}
use nidora_ai_inference.Domain.Types.{is_in_progress, Number}
use nidora_ai_inference.Store.Jobs.{recover_on_startup}
use nidora_ai_inference.Store.Migrate.{Migration, Migrated, Run, ended, failed, on_record, migrate}
use nidora_ai_inference.Store.Migrate.Idempotence.{migrate-idempotent}
use nidora_ai_inference.Settings.{Env, Settings, Loaded, loaded, refused, load_config}
use nidora_ai_inference.Settings.Boot.{IsGuarded, load_config-IsGuarded}
use nidora_ai_inference.Routes.State.{Gateway}
use nidora_ai_inference.Store.Db.{changes}
use nidora_ai_inference.Gateway.{Runtime, restarts, step}
use nidora_ai_inference.Gateway.Restart.{step-restarts}
use nidora_ai_inference.Shutdown.{started}
use nidora_ai_inference.Launch.{
  Volume, Server, Launched, exits, listening, build_app, config_of, launch, launch_with, main,
}

module _ {ℓ κ} {Sql : Type ℓ} {Schema : Type κ} (rt : Runtime) (exec : Sql → Schema → Option Schema)
    (binds : Str → Number → Bool) (migrations : List (Migration Sql)) where
  -- The gateway that the process before left, and what is on the volume of it.
  abbrev pub volume_of : Gateway → Migrated Schema → Volume Schema
  volume_of g m = record { db = g.db; disk = g.disk; migrated = m }

  pub record Continues (env : Env) (g : Gateway) (s : Server Schema) : Type κ where
    pub read : load_config rt.to_number env ≡ loaded s.settings
    pub guarded : IsGuarded env s.settings
    pub bound : binds s.settings.host s.settings.port ≡ true
    pub up_to_date : All (λ m. on_record m.id s.migrated.applied ≡ true) migrations
    pub gateway : s.gateway ≡ step rt (config_of s.settings) restarts g
    pub process : s.process ≡ started
    pub recovered : s.recovered ≡ count_where (λ j. is_in_progress j.state) g.db.jobs

  abbrev Of : Env → Gateway → Launched Schema → Type κ
  Of env g exits = Unit
  Of env g (listening s) = Continues env g s

  launch-Of :
      (env : Env) (g : Gateway) (m : Migrated Schema) (s : Settings) (r : Run Schema)
      → load_config rt.to_number env ≡ loaded s
      → IsGuarded env s
      → migrate exec g.db.clock migrations m ≡ r
      → Of env g (launch rt.to_number exec binds migrations s (volume_of g m) r)
  unfolding launch build_app config_of recover_on_startup changes
  launch-Of env g m s (failed m') l guard e = tt
  launch-Of env g m s (ended m') l guard e =
      if-elim (Of env g) (binds s.host s.port) _ _
        (λ b. record {
          read = l;
          guarded = guard;
          bound = b;
          up_to_date = (migrate-idempotent exec g.db.clock g.db.clock migrations m m' e).1;
          gateway = sym (step-restarts rt (config_of s) g);
          process = refl;
          recovered = refl;
        })
        (λ b. tt)

  main-Of :
      (env : Env) (g : Gateway) (m : Migrated Schema)
      → Of env g (main rt.to_number exec binds migrations env (volume_of g m))
  unfolding main launch_with
  main-Of env g m = by_config (load_config rt.to_number env) refl
    where
      by_config :
          (l : Loaded Settings)
          → load_config rt.to_number env ≡ l
          → Of env g (launch_with rt.to_number exec binds migrations l (volume_of g m))
      by_config (refused r) e = tt
      by_config (loaded s) e =
          launch-Of env g m s (migrate exec g.db.clock migrations m) e
            ((load_config-IsGuarded rt.to_number env).0 s e) refl

  -- A process that listens, on the volume that an earlier one left: its settings are read from the
  -- environment, with a client key and an agent secret, both not empty; its host and port are bound; every migration is on record; its
  -- gateway is the one that the restart of a history makes under those settings, with the leases of the
  -- jobs in progress pushed out by two of its poll windows and no poll parked; both timers are set and no signal has come; and the number that it
  -- logs is that of the jobs in progress.
  pub main-Continues :
      (env : Env) (g : Gateway) (m : Migrated Schema) (s : Server Schema)
      → main rt.to_number exec binds migrations env (volume_of g m) ≡ listening s
      → Continues env g s
  main-Continues env g m s e = subst (Of env g) e (main-Of env g m)
