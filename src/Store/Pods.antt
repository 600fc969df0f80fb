-- ===== src/Store/Pods.antt =====
-- gateway/src/db/pods.ts, class PodStore.
pub mod Registration
use nidora_ai_inference.Base.{
  ℕ, ◌+◌, Bool, false, Option, none, some, List, [], ◌∷◌, ltb, leb, ◌==◌, if◌then◌else◌, Str,
  str_eq, update_where, count_where, select_where, delete_where, find, order_by_desc,
}
use nidora_ai_inference.Domain.Types.{Pod}
use nidora_ai_inference.Store.Db.{Db}
use nidora_ai_inference.Domain.Models.{resolve_model_id}

pub record PodHeartbeat : Type 0 where
  pub pod_id : Str
  pub session_id : Str
  pub agent_version : Option Str
  pub model_path : Option Str
  pub lora_path : Option Str
  pub gpu : Option Str
  pub max_in_flight : ℕ
  pub sglang_ready : Bool

-- The derived field `model` of a hydrated row.
unfoldable pub pod_model : Pod → Option Str
pod_model pod = resolve_model_id pod.model_path

abbrev pub is_pod : Str → Pod → Bool
is_pod pod_id p = str_eq p.pod_id pod_id

-- SELECT * FROM pods WHERE pod_id = ?
unfoldable pub get : Str → Db → Option Pod
get pod_id db = find (is_pod pod_id) db.pods

abbrev new_pod : PodHeartbeat → ℕ → Pod
new_pod hb now = record {
  pod_id = hb.pod_id;
  session_id = hb.session_id;
  first_seen_at = now;
  last_seen_at = now;
  agent_version = hb.agent_version;
  model_path = hb.model_path;
  lora_path = hb.lora_path;
  gpu = hb.gpu;
  max_in_flight = hb.max_in_flight;
  sglang_ready = hb.sglang_ready;
  draining = false;
  jobs_completed = 0;
  jobs_failed = 0;
}

-- DO UPDATE SET of the upsert.
abbrev seen_again : PodHeartbeat → ℕ → Pod → Pod
seen_again hb now p = record p {
  last_seen_at = now;
  agent_version = hb.agent_version;
  model_path = hb.model_path;
  lora_path = hb.lora_path;
  gpu = hb.gpu;
  max_in_flight = hb.max_in_flight;
  sglang_ready = hb.sglang_ready;
}

-- INSERT … ON CONFLICT(pod_id) DO UPDATE.
unfoldable pub upsert : PodHeartbeat → ℕ → List Pod → List Pod
upsert hb now [] = new_pod hb now ∷ []
upsert hb now (p ∷ ps) =
    let rest = upsert hb now ps in if is_pod hb.pod_id p then seen_again hb now p ∷ ps else p ∷ rest

-- The row that the upsert leaves for the pod, which `touch` returns.
unfoldable pub touched : PodHeartbeat → ℕ → List Pod → Pod
touched hb now [] = new_pod hb now
touched hb now (p ∷ ps) =
    let rest = touched hb now ps in if is_pod hb.pod_id p then seen_again hb now p else rest

unfoldable pub touch : PodHeartbeat → ℕ → Db → Db × Pod
unfolding upsert touched
touch hb now db = (record db { pods = upsert hb now db.pods }, touched hb now db.pods)

unfoldable pub list : Db → List Pod
list db = order_by_desc (λ p. p.last_seen_at) db.pods

unfoldable pub list_connected : ℕ → Db → List Pod
list_connected since db =
    order_by_desc (λ p. p.last_seen_at) (select_where (λ p. leb since p.last_seen_at) db.pods)

unfoldable pub set_draining : Str → Bool → Db → Db × Bool
set_draining pod_id draining db = (
  record db { pods = update_where (is_pod pod_id) (λ p. record p { draining = draining }) db.pods },
  count_where (is_pod pod_id) db.pods == 1,
)

pub data Outcome : Type 0 where
  completed failed : Outcome

abbrev counted : Outcome → Pod → Pod
counted completed p = record p { jobs_completed = p.jobs_completed + 1 }
counted failed p = record p { jobs_failed = p.jobs_failed + 1 }

-- `if (!podId) return;` first: neither null nor the empty string names a pod.
unfoldable pub record_outcome : Option Str → Outcome → Db → Db
record_outcome none outcome db = db
record_outcome (some []) outcome db = db
record_outcome (some (c ∷ cs)) outcome db = record db {
  pods = update_where (is_pod (c ∷ cs)) (counted outcome) db.pods;
}

unfoldable pub purge_before : ℕ → Db → Db × ℕ
purge_before before db = (
  record db { pods = delete_where (λ p. ltb p.last_seen_at before) db.pods },
  count_where (λ p. ltb p.last_seen_at before) db.pods,
)
