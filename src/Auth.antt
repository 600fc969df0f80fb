-- ===== src/Auth.antt =====
-- gateway/src/auth.ts: the keys of clients, pods and operators.
pub mod Keys
use nidora_ai_inference.Base.{
  ℕ, Bool, true, false, not, ◌||◌, if◌then◌else◌, Option, none, some, List, [], ◌∷◌, take, drop,
  text, Str, str_eq, truthy,
}
use nidora_ai_inference.Domain.Errors.{ApiError, invalid_api_key, invalid_agent_secret, api_error}
use nidora_ai_inference.Domain.Models.{to_lower_case}
use nidora_ai_inference.Domain.Sizing.{trim}

-- The headers that are read; one that is missing or no string is `none`.
pub record Headers : Type 0 where
  pub x_api_key : Option Str
  pub authorization : Option Str
  pub x_agent_secret : Option Str
  pub x_admin_key : Option Str

-- `done()`, or a reply with 401.
pub data Access : Type 0 where
  allowed : Access
  denied : ApiError → Access

abbrev pub unauthorized : Access
unauthorized = denied (api_error 401 (some invalid_api_key) none)

abbrev pub or_null : Str → Option Str
or_null [] = none
or_null (c ∷ cs) = some (c ∷ cs)

-- The key of an `Authorization: Bearer <key>` header.
unfoldable pub bearer_key : Option Str → Option Str
unfolding trim to_lower_case
bearer_key none = none
bearer_key (some auth) =
    if str_eq (take 7 (to_lower_case auth)) (text "bearer ")
    then or_null (trim (drop 7 auth))
    else none

abbrev pub key_or : Option Str → Option Str → Option Str
key_or none other = other
key_or (some []) other = other
key_or (some (c ∷ cs)) other = some (c ∷ cs)

unfoldable pub request_key : Headers → Option Str
unfolding bearer_key
request_key h = key_or h.x_api_key (bearer_key h.authorization)

-- The admin keys, or the clients' where there are none.
unfoldable pub accepted_keys : List Str → List Str → List Str
accepted_keys [] api_keys = api_keys
accepted_keys (k ∷ ks) api_keys = k ∷ ks

-- A string in X-Admin-Key counts even if it is empty.
unfoldable pub admin_key : Headers → Option Str
unfolding request_key
admin_key h = elim h.x_admin_key [ none ↦ request_key h | some key ↦ some key ]

-- The section's parameter is the SHA-256 digest of a string in UTF-8.
module _ (digest : Str → List ℕ) where
  unfoldable pub safe_equal : Str → Str → Bool
  safe_equal a b = str_eq (digest a) (digest b)

  -- The loop with its flag.
  unfoldable pub match_from : Bool → Str → List Str → Bool
  unfolding safe_equal
  match_from hit candidate [] = hit
  match_from hit candidate (secret ∷ accepted) =
      match_from (if safe_equal candidate secret then true else hit) candidate accepted

  unfoldable pub matches_any : Str → List Str → Bool
  unfolding match_from
  matches_any candidate accepted = match_from false candidate accepted

  -- `!key || !matchesAny(key, accepted)`
  unfoldable pub check_key : Option Str → List Str → Access
  unfolding matches_any
  check_key none accepted = unauthorized
  check_key (some key) accepted =
      if not (truthy key) || not (matches_any key accepted) then unauthorized else allowed

  unfoldable pub require_api_key : List Str → Headers → Access
  unfolding check_key
  require_api_key api_keys h = check_key (request_key h) api_keys

  unfoldable pub require_agent_secret : Str → Headers → Access
  unfolding safe_equal
  require_agent_secret secret h = elim h.x_agent_secret [
    | none ↦ denied (api_error 401 (some invalid_agent_secret) none)
    | some provided ↦
        if safe_equal provided secret
        then allowed
        else denied (api_error 401 (some invalid_agent_secret) none)
  ]

  unfoldable pub require_admin_key : List Str → List Str → Headers → Access
  unfolding check_key accepted_keys admin_key
  require_admin_key admin_keys api_keys h =
      check_key (admin_key h) (accepted_keys admin_keys api_keys)
