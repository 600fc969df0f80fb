-- ===== src/Tests/Process.antt =====
-- The views, the settings and the parking lot at concrete inputs.
use nidora_ai_inference.Base.{
  false, ℕ, ◌+◌, ◌-◌, ◌≡◌, refl, true, if◌then◌else◌, none, some, List, [], ◌∷◌, All, any, Str,
  text, str_eq,
}
use nidora_ai_inference.Store.Pods.{list_connected}
use nidora_ai_inference.Routes.State.{sent}
use nidora_ai_inference.Routes.Models.{ModelEntry, list_models}
use nidora_ai_inference.Routes.Models.Listing.{loads, usable_for, list_models-serves}
use nidora_ai_inference.Settings.{Env, Settings, refused}
use nidora_ai_inference.Shutdown.{
  Process, stop, finish_stop, started, signals, parks, closes, Runs, begin, next,
}
use nidora_ai_inference.Shutdown.Release.{stop-releases}
use nidora_ai_inference.Base.{Bool}
use nidora_ai_inference.Shutdown.Ending.{shutdown-ends}
use nidora_ai_inference.Scheduler.Waiters.{at_once}
use nidora_ai_inference.Base.{inr, ◌≢◌}
use nidora_ai_inference.Scheduler.Waiters.{
  pending, resolved, Reach, wait, kick, fire, empty, waits, kicks, fires, here, next_step,
}
use nidora_ai_inference.Scheduler.Waiters.Once.{SettlesOnce, Reach-SettlesOnce}
use nidora_ai_inference.Gateway.Parking.{Couples, mirrored, mirrored-Couples}
use nidora_ai_inference.Domain.Types.{of_nat}
use nidora_ai_inference.Auth.{Headers}
use nidora_ai_inference.App.{refused, cancel}
use nidora_ai_inference.Routes.State.{Parked}
use nidora_ai_inference.Gateway.{fresh}
use nidora_ai_inference.Tests.{pod, settings, db_running, runtime}

list_models-serves_example :
    let ps = list_connected (95000 - 120000) db_running in
    (es : List ModelEntry) × (list_models settings db_running ≡ sent 200 es)
    × ((c : ℕ) (cs : Str) → any (λ e. str_eq e.id (c ∷ cs)) es ≡ any (loads (c ∷ cs)) ps)
    × ((c : ℕ) (cs : Str) → All (λ e. e.id ≡ c ∷ cs → e.pods_ready ≡ usable_for (c ∷ cs) ps) es)
list_models-serves_example = list_models-serves settings db_running

abbrev no_secret : Env
no_secret name = if str_eq name (text "GATEWAY_API_KEYS") then some (text "k0, k1") else none

-- Two polls are parked, and a kick wakes both.
Reach-SettlesOnce_example : SettlesOnce (kick (wait 25000 (wait 25000 empty).0).0)
Reach-SettlesOnce_example =
    Reach-SettlesOnce (kick (wait 25000 (wait 25000 empty).0).0)
      (next_step (next_step (next_step here (waits 25000)) (waits 25000)) kicks)

abbrev parked_process : Process
parked_process = record {
  closing = false;
  lot = (wait 25000 empty).0;
  reaping = true;
  cleaning = true;
  db_open = true;
}

stop-releases_example :
    let p' = stop parked_process in
    ((i : ℕ) → parked_process.lot.promise i ≡ pending → p'.lot.promise i ≡ resolved false)
    × ((i : ℕ) (b : Bool)
        → parked_process.lot.promise i ≡ resolved b
        → p'.lot.promise i ≡ resolved b)
    × (p'.lot.waiting ≡ [])
    × (p'.reaping ≡ false)
    × (p'.cleaning ≡ false)
    × (stop p' ≡ p')
stop-releases_example = stop-releases parked_process (next_step here (waits 25000)) refl

-- The poll of each call of `wait`, told apart by its free slots.
abbrev numbered_poll : ℕ → Parked
numbered_poll i = record { pod = pod; slots = i + 1; cancel = []; orphan = [] }

abbrev two_parked : Reach empty (kick (fire 0 (wait 25000 (wait 25000 empty).0).0))
two_parked =
    next_step (next_step (next_step (next_step here (waits 25000)) (waits 25000)) (fires 0)) kicks

-- Two polls are parked, the first runs out of its time, and a kick wakes the other.
mirrored-Couples_example :
    Couples runtime settings numbered_poll fresh
      (kick (fire 0 (wait 25000 (wait 25000 empty).0).0))
      (mirrored runtime settings numbered_poll two_parked fresh)
mirrored-Couples_example =
    mirrored-Couples runtime settings numbered_poll fresh
      (kick (fire 0 (wait 25000 (wait 25000 empty).0).0)) two_parked refl

-- A poll parks, a signal comes, a request kicks the lot, and the shutdown ends.
abbrev ended : Process
ended =
    let closing = stop (record started { lot = (wait 25000 empty).0 }) in
    finish_stop (record closing { lot = kick closing.lot })

ended-Runs : Runs ended
unfolding stop
ended-Runs =
    next (next (next (next begin (parks refl (waits 25000))) (signals refl)) (parks refl kicks))
      (closes refl refl)

shutdown-ends_example :
    (ended.reaping ≡ false)
    × (ended.cleaning ≡ false)
    × ((i : ℕ) → ended.lot.promise i ≢ pending)
    × ((timeout : ℕ) → wait timeout ended.lot ≡ (ended.lot, at_once))
unfolding finish_stop
shutdown-ends_example = shutdown-ends ended ended-Runs (inr refl)

-- What a deployment with one key and the defaults starts with.
abbrev one_key : Env
one_key name =
    if str_eq name (text "GATEWAY_API_KEYS")
    then some (text "k1")
    else if str_eq name (text "AGENT_SHARED_SECRET")
    then some (text "pods")
    else none

abbrev launched : Settings
launched = record {
  port = of_nat 8080;
  host = text "0.0.0.0";
  data_dir = text "/data";
  log_level = text "info";
  api_keys = text "k1" ∷ [];
  agent_secret = text "pods";
  admin_keys = [];
  lease_ttl_ms = of_nat 120000;
  max_poll_wait_ms = of_nat 25000;
  job_ttl_ms = of_nat 1080000;
  max_attempts = of_nat 2;
  reaper_interval_ms = of_nat 10000;
  cancel_grace_ms = of_nat 60000;
  pod_stale_ms = of_nat 90000;
  artifact_ttl_ms = of_nat 86400000;
  job_retention_ms = of_nat 604800000;
  cleanup_interval_ms = of_nat 900000;
  max_input_bytes = of_nat 20971520;
  max_artifact_bytes = of_nat 209715200;
  body_limit_bytes = of_nat 33554432;
  max_queue_depth = of_nat 200;
}

-- A poll with an empty secret.
abbrev no_credentials : Headers
no_credentials = record {
  x_api_key = none;
  authorization = none;
  x_agent_secret = some [];
  x_admin_key = none;
}
