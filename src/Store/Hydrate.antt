-- ===== src/Store/Hydrate.antt =====
-- gateway/src/db/jobs.ts and pods.ts: `hydrate`, which makes a job or a pod of a row, and the values
-- that the INSERT statements name.
pub mod Defaults
pub mod Stored
pub mod Trail
use nidora_ai_inference.Base.{
  ℕ, ◌==◌, ◌≡◌, Bool, if◌then◌else◌, Option, none, some, List, [], ◌∷◌, Str, text,
}
use nidora_ai_inference.Domain.Types.{
  queued, read_status, Number, JobParams, Artifact, FilePath, Job, Pod,
}
use nidora_ai_inference.Store.Schema.{SqlValue, null, integer, real, characters, Row, value_of}
use nidora_ai_inference.Store.Jobs.{NewJob}
use nidora_ai_inference.Store.Pods.{PodHeartbeat}

-- What the platform gives: JSON.stringify and JSON.parse at the two types that are stored, and the text
-- of a path under the data directory. `none` is an exception.
pub record Codec : Type 0 where
  pub write_params : JobParams → Str
  pub read_params : Str → Option JobParams
  pub write_files : List Artifact → Str
  pub read_files : Str → Option (List Artifact)
  pub write_path : FilePath → Str
  pub read_path : Str → Option FilePath

-- Parsing undoes printing, for the three values of a job.
pub record Reads (k : Codec) (params : JobParams) (path : Option FilePath) (files : List Artifact)
    : Type 0 where
  pub params_back : k.read_params (k.write_params params) ≡ some params
  pub path_back : (p : FilePath) → path ≡ some p → k.read_path (k.write_path p) ≡ some p
  pub files_back : k.read_files (k.write_files files) ≡ some files

pub record JobRow : Type 0 where
  pub id : Str
  pub model : Str
  pub params : Str
  pub input_path : Option Str
  pub input_sha256 : Option Str
  pub input_bytes : Option ℕ
  pub state : Str
  pub progress : Number
  pub error : Option Str
  pub artifacts : Str
  pub pod_id : Option Str
  pub lease_id : Option Str
  pub lease_expires_at : Option ℕ
  pub upstream_id : Option Str
  pub attempts : ℕ
  pub cancel_requested : ℕ
  pub cancel_requested_at : Option ℕ
  pub created_at : ℕ
  pub started_at : Option ℕ
  pub finished_at : Option ℕ
  pub deadline_at : ℕ

infixl 5 ◌>>=◌
abbrev pub ◌>>=◌ {ℓ κ} : {A : Type ℓ} {B : Type κ} → Option A → (A → Option B) → Option B
none >>= f = none
some a >>= f = f a

-- A path that may be NULL.
abbrev path_or_null : Codec → Option Str → Option (Option FilePath)
path_or_null k none = some none
path_or_null k (some s) = do p ← k.read_path s; some (some p)

-- `none` is the exception at a state that is none of the five, or at text that is no JSON.
unfoldable pub hydrate : Codec → JobRow → Option Job
hydrate k row = do
  state ← read_status row.state
  params ← k.read_params row.params
  path ← path_or_null k row.input_path
  files ← k.read_files row.artifacts
  some (record {
    id = row.id;
    model = row.model;
    params = params;
    input_path = path;
    input_sha256 = row.input_sha256;
    input_bytes = row.input_bytes;
    state = state;
    progress = row.progress;
    error = row.error;
    artifacts = files;
    pod_id = row.pod_id;
    lease_id = row.lease_id;
    lease_expires_at = row.lease_expires_at;
    upstream_id = row.upstream_id;
    attempts = row.attempts;
    cancel_requested = row.cancel_requested == 1;
    cancel_requested_at = row.cancel_requested_at;
    created_at = row.created_at;
    started_at = row.started_at;
    finished_at = row.finished_at;
    deadline_at = row.deadline_at;
  })

pub record PodRow : Type 0 where
  pub pod_id : Str
  pub session_id : Str
  pub first_seen_at : ℕ
  pub last_seen_at : ℕ
  pub agent_version : Option Str
  pub model_path : Option Str
  pub lora_path : Option Str
  pub gpu : Option Str
  pub max_in_flight : ℕ
  pub sglang_ready : ℕ
  pub draining : ℕ
  pub jobs_completed : ℕ
  pub jobs_failed : ℕ

-- The derived field `model` is `pod_model` of the result.
unfoldable pub hydrate_pod : PodRow → Pod
hydrate_pod row = record {
  pod_id = row.pod_id;
  session_id = row.session_id;
  first_seen_at = row.first_seen_at;
  last_seen_at = row.last_seen_at;
  agent_version = row.agent_version;
  model_path = row.model_path;
  lora_path = row.lora_path;
  gpu = row.gpu;
  max_in_flight = row.max_in_flight;
  sglang_ready = row.sglang_ready == 1;
  draining = row.draining == 1;
  jobs_completed = row.jobs_completed;
  jobs_failed = row.jobs_failed;
}

-- The readers of one column; a value of another type than the column's reads as absent.
abbrev pub characters_of : SqlValue → Option Str
characters_of (characters s) = some s
characters_of _ = none

abbrev integer_of : SqlValue → Option ℕ
integer_of (integer n) = some n
integer_of _ = none

abbrev real_of : SqlValue → Option Number
real_of (real x) = some x
real_of _ = none

-- `SELECT *` of a row of `jobs`; `none` where a column that the interface has no null for is NULL.
unfoldable pub job_row : Row → Option JobRow
job_row r = do
  id ← characters_of (value_of (text "id") r)
  model ← characters_of (value_of (text "model") r)
  params ← characters_of (value_of (text "params") r)
  state ← characters_of (value_of (text "state") r)
  progress ← real_of (value_of (text "progress") r)
  artifacts ← characters_of (value_of (text "artifacts") r)
  attempts ← integer_of (value_of (text "attempts") r)
  cancel_requested ← integer_of (value_of (text "cancel_requested") r)
  created_at ← integer_of (value_of (text "created_at") r)
  deadline_at ← integer_of (value_of (text "deadline_at") r)
  some (record {
    id = id;
    model = model;
    params = params;
    input_path = characters_of (value_of (text "input_path") r);
    input_sha256 = characters_of (value_of (text "input_sha256") r);
    input_bytes = integer_of (value_of (text "input_bytes") r);
    state = state;
    progress = progress;
    error = characters_of (value_of (text "error") r);
    artifacts = artifacts;
    pod_id = characters_of (value_of (text "pod_id") r);
    lease_id = characters_of (value_of (text "lease_id") r);
    lease_expires_at = integer_of (value_of (text "lease_expires_at") r);
    upstream_id = characters_of (value_of (text "upstream_id") r);
    attempts = attempts;
    cancel_requested = cancel_requested;
    cancel_requested_at = integer_of (value_of (text "cancel_requested_at") r);
    created_at = created_at;
    started_at = integer_of (value_of (text "started_at") r);
    finished_at = integer_of (value_of (text "finished_at") r);
    deadline_at = deadline_at;
  })

-- The values of the INSERT of `create`.
unfoldable pub create_values : Codec → NewJob → Row
create_values k n =
    (text "id", characters n.id)
    ∷ (text "model", characters n.model)
    ∷ (text "params", characters (k.write_params n.params))
    ∷ (text "input_path", characters (k.write_path n.input_path))
    ∷ (text "input_sha256", characters n.input_sha256)
    ∷ (text "input_bytes", integer n.input_bytes)
    ∷ (text "state", characters (text "queued"))
    ∷ (text "created_at", integer n.created_at)
    ∷ (text "deadline_at", integer n.deadline_at)
    ∷ []

-- `SELECT *` of a row of `pods`.
unfoldable pub pod_row : Row → Option PodRow
pod_row r = do
  pod_id ← characters_of (value_of (text "pod_id") r)
  session_id ← characters_of (value_of (text "session_id") r)
  first_seen_at ← integer_of (value_of (text "first_seen_at") r)
  last_seen_at ← integer_of (value_of (text "last_seen_at") r)
  max_in_flight ← integer_of (value_of (text "max_in_flight") r)
  sglang_ready ← integer_of (value_of (text "sglang_ready") r)
  draining ← integer_of (value_of (text "draining") r)
  jobs_completed ← integer_of (value_of (text "jobs_completed") r)
  jobs_failed ← integer_of (value_of (text "jobs_failed") r)
  some (record {
    pod_id = pod_id;
    session_id = session_id;
    first_seen_at = first_seen_at;
    last_seen_at = last_seen_at;
    agent_version = characters_of (value_of (text "agent_version") r);
    model_path = characters_of (value_of (text "model_path") r);
    lora_path = characters_of (value_of (text "lora_path") r);
    gpu = characters_of (value_of (text "gpu") r);
    max_in_flight = max_in_flight;
    sglang_ready = sglang_ready;
    draining = draining;
    jobs_completed = jobs_completed;
    jobs_failed = jobs_failed;
  })

abbrev pub or_null : Option Str → SqlValue
or_null none = null
or_null (some s) = characters s

abbrev pub one_if_set : Bool → ℕ
one_if_set b = if b then 1 else 0

-- The values of the INSERT of `touch`.
unfoldable pub touch_values : PodHeartbeat → ℕ → Row
touch_values hb now =
    (text "pod_id", characters hb.pod_id)
    ∷ (text "session_id", characters hb.session_id)
    ∷ (text "first_seen_at", integer now)
    ∷ (text "last_seen_at", integer now)
    ∷ (text "agent_version", or_null hb.agent_version)
    ∷ (text "model_path", or_null hb.model_path)
    ∷ (text "lora_path", or_null hb.lora_path)
    ∷ (text "gpu", or_null hb.gpu)
    ∷ (text "max_in_flight", integer hb.max_in_flight)
    ∷ (text "sglang_ready", integer (one_if_set hb.sglang_ready))
    ∷ []
