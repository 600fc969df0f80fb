-- ===== src/Tests/Starts.antt =====
-- A start of the process, and what a restart leaves to a job that runs.
use nidora_ai_inference.Base.{
  ℕ, ◌+◌, ◌≡◌, refl, true, Option, none, some, List, [], ◌∷◌, arith, text, str_eq, find,
  if◌then◌else◌, select_where, count_where,
}
use nidora_ai_inference.Domain.Types.{of_nat}
use nidora_ai_inference.Domain.Sizing.{trim}
use nidora_ai_inference.Store.Db.{get}
use nidora_ai_inference.Store.Jobs.{recover_on_startup}
use nidora_ai_inference.Store.Migrate.{Migration, Migrated, migrate}
use nidora_ai_inference.Settings.{Env, Settings, list, split_commas, read_numbers, num, load_config}
use nidora_ai_inference.Gateway.{restarts, passes, sweeps, step, run}
use nidora_ai_inference.Gateway.Restart.{extended, restart-spares}
use nidora_ai_inference.Launch.{config_of, Server, listening, main}
use nidora_ai_inference.Shutdown.{started}
use nidora_ai_inference.Launch.Recovery.{volume_of, Continues, main-Continues}
use nidora_ai_inference.Tests.{
  settings, runtime, runtime-IsUsable, video, site, running_job, running-IsSound,
}

-- Five seconds behind the restart.
restart-spares_example :
    get video (run runtime settings (restarts ∷ passes 5000 ∷ sweeps ∷ []) site).db
    ≡ some (extended 145000 running_job)
unfolding get find str_eq
restart-spares_example =
    restart-spares runtime settings runtime-IsUsable site video running_job 5000 running-IsSound
      refl refl (omega arith) refl refl

abbrev bare : Env
bare name =
    if str_eq name (text "GATEWAY_API_KEYS")
    then some (text "k1")
    else if str_eq name (text "AGENT_SHARED_SECRET")
    then some (text "s1")
    else none

-- A script adds its number to the schema.
abbrev add : ℕ → ℕ → Option ℕ
add sql schema = some (schema + sql)

abbrev init : List (Migration ℕ)
init = record { id = 1; name = text "init"; sql = 7 } ∷ []

abbrev unmigrated : Migrated ℕ
unmigrated = record { schema = 0; applied = [] }

abbrev defaults : Settings
defaults = record {
  port = of_nat 8080;
  host = text "0.0.0.0";
  data_dir = text "/data";
  log_level = text "info";
  api_keys = text "k1" ∷ [];
  agent_secret = text "s1";
  admin_keys = [];
  lease_ttl_ms = of_nat 120000;
  max_poll_wait_ms = of_nat 25000;
  job_ttl_ms = of_nat 1080000;
  max_attempts = of_nat 2;
  reaper_interval_ms = of_nat 10000;
  cancel_grace_ms = of_nat 60000;
  pod_stale_ms = of_nat 90000;
  artifact_ttl_ms = of_nat 86400000;
  job_retention_ms = of_nat 604800000;
  cleanup_interval_ms = of_nat 900000;
  max_input_bytes = of_nat 20971520;
  max_artifact_bytes = of_nat 209715200;
  body_limit_bytes = of_nat 33554432;
  max_queue_depth = of_nat 200;
}

abbrev server : Server ℕ
server = record {
  settings = defaults;
  migrated = record {
    schema = 7;
    applied = record { id = 1; name = text "init"; applied_at = 95000 } ∷ [];
  };
  gateway = step runtime (config_of defaults) restarts site;
  recovered = 1;
  process = started;
  reaper_interval_ms = of_nat 10000;
  cleanup_interval_ms = of_nat 900000;
}

bare-listens :
    main runtime.to_number add
      (λ host port. true)
      init
      bare
      (volume_of runtime add (λ host port. true) init site unmigrated)
    ≡ listening server
unfolding main load_config list split_commas read_numbers num text str_eq trim select_where migrate
    step recover_on_startup count_where
bare-listens = refl

main-Continues_example : Continues runtime add (λ host port. true) init bare site server
main-Continues_example =
    main-Continues runtime add (λ host port. true) init bare site unmigrated server bare-listens
