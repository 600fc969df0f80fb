-- ===== src/Domain/Models/Closed.antt =====
-- gateway/src/domain/models.ts: the names that come out of the registry.
use nidora_ai_inference.Base.{
  ◌≡◌, true, Option, none, some, List, [], ◌∷◌, arith, is_some, Str, str_eq_refl,
}
use nidora_ai_inference.Domain.Models.{
  ModelSpec, models, lookup_model, find_key, model_key, resolve_model_id, get_model,
}

find_key-known :
    (key id : Str) (ms : List (Str × ModelSpec))
    → find_key key ms ≡ some id
    → is_some (lookup_model id ms) ≡ true
unfolding find_key lookup_model
find_key-known key id [] h = cc
find_key-known key id ((k, spec) ∷ rest) h =
    ground (arith, str_eq_refl k, find_key-known key id rest)

-- A resolved name is a key of the registry, so that its specification exists.
pub resolve_model_id-known :
    (name : Option Str) (id : Str)
    → resolve_model_id name ≡ some id
    → (is_some (lookup_model id models) ≡ true) × (is_some (get_model name) ≡ true)
unfolding resolve_model_id get_model
resolve_model_id-known none id h = cc
resolve_model_id-known (some []) id h = cc
resolve_model_id-known (some (c ∷ cs)) id h =
    ground (arith, find_key-known (model_key (c ∷ cs)) id models)
