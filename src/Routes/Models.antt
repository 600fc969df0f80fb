-- ===== src/Routes/Models.antt =====
-- gateway/src/routes/models.ts: the models that the fleet can run.
pub mod Listing
use mathlib.Core.Option
use nidora_ai_inference.Base.{
  ℕ, ◌+◌, ◌-◌, Bool, true, false, not, ◌&&◌, ◌||◌, if◌then◌else◌, Option, none, some, List, [], ◌∷◌,
  map, ltb, ◌==◌, Str, str_eq,
}
use nidora_ai_inference.Domain.Types.{Resolution, Pod, Number}
use nidora_ai_inference.Domain.Models.{ModelSpec, get_model}
use nidora_ai_inference.Store.Db.{Db}
use nidora_ai_inference.Store.Pods.{pod_model, list_connected}
use nidora_ai_inference.Scheduler.Config.{Config}
use nidora_ai_inference.Scheduler.Reaper.{for_each}
use nidora_ai_inference.Routes.State.{Reply, sent, raised}

pub record ModelEntry : Type 0 where
  pub id : Str
  pub task : Str
  pub resolutions : List Resolution
  pub default_seconds : Number
  pub default_steps : Number
  pub default_guidance : Number
  pub max_seconds : ℕ
  pub max_steps : ℕ
  pub pods_ready : ℕ

-- A `Map<string, number>`, in the order of insertion.
abbrev pub Ready : Type 0
Ready = List (Str × ℕ)

unfoldable pub ready_of : Str → Ready → ℕ
ready_of id [] = 0
ready_of id ((k, n) ∷ rest) = let others = ready_of id rest in if str_eq k id then n else others

-- `ready.set(id, (ready.get(id) ?? 0) + n)`
unfoldable pub add_ready : Str → ℕ → Ready → Ready
add_ready id n [] = (id, n) ∷ []
add_ready id n ((k, m) ∷ rest) =
    let others = add_ready id n rest in if str_eq k id then (k, m + n) ∷ rest else (k, m) ∷ others

-- `pod.sglang_ready && !pod.draining`, as a number.
abbrev pub usable : Pod → ℕ
usable pod = if pod.sglang_ready && not pod.draining then 1 else 0

-- `!pod.model` first: neither null nor the empty string is tallied.
unfoldable pub tally_as : Option Str → Pod → Ready → Ready
unfolding add_ready
tally_as none pod ready = ready
tally_as (some []) pod ready = ready
tally_as (some (c ∷ cs)) pod ready = add_ready (c ∷ cs) (usable pod) ready

unfoldable pub tally : Pod → Ready → Ready
unfolding tally_as
tally pod ready = tally_as (pod_model pod) pod ready

-- The order of JavaScript on strings.
unfoldable pub str_le : Str → Str → Bool
str_le [] t = true
str_le (c ∷ cs) [] = false
str_le (c ∷ cs) (d ∷ ds) = ltb c d || (c == d && str_le cs ds)

-- `keys.sort()`
unfoldable pub insert_key : Str → List Str → List Str
unfolding str_le
insert_key k [] = k ∷ []
insert_key k (x ∷ xs) = let rest = insert_key k xs in if str_le k x then k ∷ x ∷ xs else x ∷ rest

unfoldable pub sort : List Str → List Str
unfolding insert_key
sort [] = []
sort (x ∷ xs) = insert_key x (sort xs)

entry_of : Ready → Str → ModelSpec → ModelEntry
entry_of ready id spec = record {
  id = id;
  task = spec.task;
  resolutions = spec.resolutions;
  default_seconds = spec.default_seconds;
  default_steps = spec.default_steps;
  default_guidance = spec.default_guidance;
  max_seconds = spec.max_seconds;
  max_steps = spec.max_steps;
  pods_ready = ready_of id ready;
}

abbrev cons_entry : Option ModelEntry → Option (List ModelEntry) → Option (List ModelEntry)
cons_entry none es = none
cons_entry (some e) none = none
cons_entry (some e) (some es) = some (e ∷ es)

-- `none` is the exception of `getModel(id)!` at a name that the registry does not know.
unfoldable pub entries : Ready → List Str → Option (List ModelEntry)
unfolding entry_of
entries ready [] = some []
entries ready (id ∷ ids) =
    cons_entry (Option.map (entry_of ready id) (get_model (some id))) (entries ready ids)

unfoldable pub ready_models : Config → Db → Ready
unfolding tally for_each
ready_models config db = for_each tally (list_connected (db.clock - config.pod_stale_ms) db) []

abbrev pub reply_entries : Option (List ModelEntry) → Reply (List ModelEntry)
reply_entries none = raised
reply_entries (some es) = sent 200 es

-- GET /v1/models
unfoldable pub list_models : Config → Db → Reply (List ModelEntry)
unfolding ready_models entries sort
list_models config db =
    let ready = ready_models config db in
    reply_entries (entries ready (sort (map (λ e. e.0) ready)))
