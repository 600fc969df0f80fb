-- ===== src/Launch.antt =====
-- gateway/src/index.ts, `main`, and the part of gateway/src/app.ts, `buildApp`, that makes what the routes
-- share: from the environment and the volume to a process that listens. The parameters are `Number(raw)`,
-- what SQLite makes of a script, and whether Fastify can bind the host and the port.
pub mod Recovery
use nidora_ai_inference.Base.{ℕ, ◌*◌, ◌/◌, ◌^◌, Bool, if◌then◌else◌, Option, List, [], Str}
use nidora_ai_inference.Domain.Types.{Number}
use nidora_ai_inference.Store.Db.{Db}
use nidora_ai_inference.Store.Jobs.{recover_on_startup}
use nidora_ai_inference.Store.Migrate.{Migration, Migrated, Run, ended, failed, migrate}
use nidora_ai_inference.Artifacts.{Disk}
use nidora_ai_inference.Scheduler.Config.{Config}
use nidora_ai_inference.Settings.{Env, Settings, Loaded, loaded, refused, load_config}
use nidora_ai_inference.Shutdown.{Process, started}
use nidora_ai_inference.Routes.State.{Gateway}

-- What a process finds: the database, the files, and the migrations on record.
pub record Volume {ℓ} (Schema : Type ℓ) : Type ℓ where
  pub db : Db
  pub disk : Disk
  pub migrated : Migrated Schema

-- A process that listens. `recovered` is the number that the log line has; the two intervals are those
-- of the timers.
pub record Server {ℓ} (Schema : Type ℓ) : Type ℓ where
  pub settings : Settings
  pub migrated : Migrated Schema
  pub gateway : Gateway
  pub recovered : ℕ
  pub process : Process
  pub reaper_interval_ms : Number
  pub cleanup_interval_ms : Number

-- `exits` is the exit with status 1 of the rejected `main()`.
pub data Launched {ℓ} (Schema : Type ℓ) : Type ℓ where
  exits : Launched Schema
  listening : Server Schema → Launched Schema

-- `buildApp`: no poll is parked, and no upload is open.
unfoldable pub build_app : Db → Disk → Gateway
build_app db disk = record { db = db; disk = disk; waiting = []; woken = []; uploads = [] }

-- A setting as the handlers take it: a fraction is dropped, and below 0 it is 0.
abbrev pub whole : Number → ℕ
whole n = if n.negative then 0 else n.num / 2 ^ n.scale

-- The settings that reach the handlers and the timers.
unfoldable pub config_of : Settings → Config
config_of s = record {
  lease_ttl_ms = whole s.lease_ttl_ms;
  max_poll_wait_ms = whole s.max_poll_wait_ms;
  job_ttl_ms = whole s.job_ttl_ms;
  max_attempts = whole s.max_attempts;
  cancel_grace_ms = whole s.cancel_grace_ms;
  pod_stale_ms = whole s.pod_stale_ms;
  artifact_ttl_ms = whole s.artifact_ttl_ms;
  job_retention_ms = whole s.job_retention_ms;
  max_input_bytes = whole s.max_input_bytes;
  max_artifact_bytes = whole s.max_artifact_bytes;
  max_queue_depth = whole s.max_queue_depth;
}

module _ {ℓ κ} {Sql : Type ℓ} {Schema : Type κ} (to_number : Str → Option Number)
    (exec : Sql → Schema → Option Schema) (binds : Str → Number → Bool)
    (migrations : List (Migration Sql)) where
  -- Behind the migrations: the recovery, the timers, and the socket.
  launch : Settings → Volume Schema → Run Schema → Launched Schema
  unfolding build_app config_of
  launch s v (failed m) = exits
  launch s v (ended m) =
      let config = config_of s in
      let (db, recovered) = recover_on_startup v.db.clock (config.max_poll_wait_ms * 2) v.db in
      if binds s.host s.port
      then listening (record {
        settings = s;
        migrated = m;
        gateway = build_app db v.disk;
        recovered = recovered;
        process = started;
        reaper_interval_ms = s.reaper_interval_ms;
        cleanup_interval_ms = s.cleanup_interval_ms;
      })
      else exits

  launch_with : Loaded Settings → Volume Schema → Launched Schema
  unfolding launch
  launch_with (refused r) v = exits
  launch_with (loaded s) v = launch s v (migrate exec v.db.clock migrations v.migrated)

  unfoldable pub main : Env → Volume Schema → Launched Schema
  unfolding launch_with
  main env v = launch_with (load_config to_number env) v
