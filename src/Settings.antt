-- ===== src/Settings.antt =====
-- gateway/src/config.ts: the settings, read from the environment. A number is a double of the source;
-- its product with a constant is exact here, which it is in the source up to 2 ^ 53.
pub mod Boot
use nidora_ai_inference.Base.{
  ℕ, ◌+◌, ◌*◌, ◌==◌, Bool, true, false, if◌then◌else◌, Option, none, some, coalesce, List, [], ◌∷◌,
  ◌++◌, map, select_where, Str, text, truthy,
}
use nidora_ai_inference.Domain.Types.{Number, of_nat}
use nidora_ai_inference.Domain.Sizing.{trim}

-- An environment: the value of a variable, if it is set.
abbrev pub Env : Type 0
Env = Str → Option Str

-- What the process refuses to start for.
pub data Refusal : Type 0 where
  not_a_number : Str → Str → Refusal
  no_api_keys no_agent_secret : Refusal

pub data Loaded {ℓ} (A : Type ℓ) : Type ℓ where
  loaded : A → Loaded A
  refused : Refusal → Loaded A

infixl 5 ◌>>=◌ ◌>>◌
abbrev pub ◌>>=◌ {ℓ κ} : {A : Type ℓ} {B : Type κ} → Loaded A → (A → Loaded B) → Loaded B
loaded a >>= f = f a
refused e >>= f = refused e

abbrev pub ◌>>◌ {ℓ} : {B : Type ℓ} → Loaded (Unit {0}) → Loaded B → Loaded B
m >> k = m >>= λ _. k

abbrev pub require : Bool → Refusal → Loaded (Unit {0})
require true e = loaded tt
require false e = refused e

-- `s.split(',')`: `here` is the part that is being read.
unfoldable pub split_commas : Str → Str → List Str
split_commas here [] = here ∷ []
split_commas here (c ∷ cs) =
    let next = split_commas [] cs in
    let more = split_commas (here ++ c ∷ []) cs in if c == b',' then here ∷ next else more

-- `list(env, name)`
unfoldable pub list : Env → Str → List Str
unfolding split_commas
list env name = select_where truthy (map trim (split_commas [] (coalesce (env name) [])))

-- `parsed` of a raw value: `none` is a value that is not finite.
abbrev finite_or : Option Number → Str → Str → Loaded Number
finite_or none name raw = refused (not_a_number name raw)
finite_or (some n) name raw = loaded n

-- `list.length !== 0`
abbrev pub not_empty : List Str → Bool
not_empty [] = false
not_empty (x ∷ xs) = true

abbrev pub scaled : ℕ → Number → Number
scaled k n = record n { num = n.num * k }

pub record Settings : Type 0 where
  pub port : Number
  pub host : Str
  pub data_dir : Str
  pub log_level : Str
  pub api_keys : List Str
  pub agent_secret : Str
  pub admin_keys : List Str
  pub lease_ttl_ms : Number
  pub max_poll_wait_ms : Number
  pub job_ttl_ms : Number
  pub max_attempts : Number
  pub reaper_interval_ms : Number
  pub cancel_grace_ms : Number
  pub pod_stale_ms : Number
  pub artifact_ttl_ms : Number
  pub job_retention_ms : Number
  pub cleanup_interval_ms : Number
  pub max_input_bytes : Number
  pub max_artifact_bytes : Number
  pub body_limit_bytes : Number
  pub max_queue_depth : Number

-- The numbers as they are read, before they are scaled.
pub record Numbers : Type 0 where
  pub port : Number
  pub lease_ttl : Number
  pub max_poll_wait : Number
  pub job_ttl : Number
  pub max_attempts : Number
  pub reaper_interval : Number
  pub cancel_grace : Number
  pub pod_stale : Number
  pub artifact_ttl : Number
  pub job_retention : Number
  pub cleanup_interval : Number
  pub max_input : Number
  pub max_artifact : Number
  pub body_limit : Number
  pub max_queue_depth : Number

-- The section's parameter is `Number(raw)`, where it is finite.
module _ (to_number : Str → Option Number) where
  num_of : Option Str → Str → ℕ → Loaded Number
  num_of none name fallback = loaded (of_nat fallback)
  num_of (some []) name fallback = loaded (of_nat fallback)
  num_of (some (c ∷ cs)) name fallback = finite_or (to_number (c ∷ cs)) name (c ∷ cs)

  unfoldable pub num : Env → Str → ℕ → Loaded Number
  unfolding num_of
  num env name fallback = num_of (env name) name fallback

  -- The reads of the numbers, in the order of the source's object; the fields between them have no
  -- effect.
  unfoldable pub read_numbers : Env → Loaded Numbers
  unfolding num
  read_numbers env = do
    port ← num env (text "PORT") 8080
    lease_ttl ← num env (text "LEASE_TTL_S") 120
    max_poll_wait ← num env (text "MAX_POLL_WAIT_S") 25
    job_ttl ← num env (text "JOB_TTL_S") (18 * 60)
    max_attempts ← num env (text "MAX_ATTEMPTS") 2
    reaper_interval ← num env (text "REAPER_INTERVAL_S") 10
    cancel_grace ← num env (text "CANCEL_GRACE_S") 60
    pod_stale ← num env (text "POD_STALE_S") 90
    artifact_ttl ← num env (text "ARTIFACT_TTL_HOURS") 24
    job_retention ← num env (text "JOB_RETENTION_DAYS") 7
    cleanup_interval ← num env (text "CLEANUP_INTERVAL_S") 900
    max_input ← num env (text "MAX_INPUT_BYTES") (20 * 1024 * 1024)
    max_artifact ← num env (text "MAX_ARTIFACT_BYTES") (200 * 1024 * 1024)
    body_limit ← num env (text "BODY_LIMIT_BYTES") (32 * 1024 * 1024)
    max_queue_depth ← num env (text "MAX_QUEUE_DEPTH") 200
    loaded (record {
      port = port;
      lease_ttl = lease_ttl;
      max_poll_wait = max_poll_wait;
      job_ttl = job_ttl;
      max_attempts = max_attempts;
      reaper_interval = reaper_interval;
      cancel_grace = cancel_grace;
      pod_stale = pod_stale;
      artifact_ttl = artifact_ttl;
      job_retention = job_retention;
      cleanup_interval = cleanup_interval;
      max_input = max_input;
      max_artifact = max_artifact;
      body_limit = body_limit;
      max_queue_depth = max_queue_depth;
    })

  unfoldable pub load_config : Env → Loaded Settings
  load_config env = do
    let keys = list env (text "GATEWAY_API_KEYS")
    require (not_empty keys) no_api_keys
    let secret = coalesce (env (text "AGENT_SHARED_SECRET")) []
    require (truthy secret) no_agent_secret
    n ← read_numbers env
    loaded (record {
      port = n.port;
      host = coalesce (env (text "HOST")) (text "0.0.0.0");
      data_dir = coalesce (env (text "DATA_DIR")) (text "/data");
      log_level = coalesce (env (text "LOG_LEVEL")) (text "info");
      api_keys = keys;
      agent_secret = secret;
      admin_keys = list env (text "ADMIN_KEYS");
      lease_ttl_ms = scaled 1000 n.lease_ttl;
      max_poll_wait_ms = scaled 1000 n.max_poll_wait;
      job_ttl_ms = scaled 1000 n.job_ttl;
      max_attempts = n.max_attempts;
      reaper_interval_ms = scaled 1000 n.reaper_interval;
      cancel_grace_ms = scaled 1000 n.cancel_grace;
      pod_stale_ms = scaled 1000 n.pod_stale;
      artifact_ttl_ms = scaled (3600 * 1000) n.artifact_ttl;
      job_retention_ms = scaled (86400 * 1000) n.job_retention;
      cleanup_interval_ms = scaled 1000 n.cleanup_interval;
      max_input_bytes = n.max_input;
      max_artifact_bytes = n.max_artifact;
      body_limit_bytes = n.body_limit;
      max_queue_depth = n.max_queue_depth;
    })
