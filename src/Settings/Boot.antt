-- ===== src/Settings/Boot.antt =====
-- gateway/src/config.ts: what the process starts with, and what it refuses to start for.
use nidora_ai_inference.Base.{
  ◌≡◌, refl, Bool, true, Option, none, some, coalesce, List, [], ◌∷◌, all, arith, select_where, Str,
  text, truthy,
}
use nidora_ai_inference.Domain.Types.{Number}
use nidora_ai_inference.Settings.{
  Env, no_api_keys, no_agent_secret, loaded, refused, list, not_empty, Settings, load_config,
}

all-select_where : {A : Type 0} (p : A → Bool) (xs : List A) → all p (select_where p xs) ≡ true
unfolding select_where
all-select_where p [] = refl
all-select_where p (x ∷ xs) = ground (arith, all-select_where p xs)

list-truthy : (env : Env) (name : Str) → all truthy (list env name) ≡ true
unfolding list
list-truthy env name = all-select_where truthy _

-- The settings that the gates and the process stand on.
pub record IsGuarded (env : Env) (s : Settings) : Type 0 where
  pub some_key : not_empty s.api_keys ≡ true
  pub keys_named : all truthy s.api_keys ≡ true
  pub admin_named : all truthy s.admin_keys ≡ true
  pub secret_named : truthy s.agent_secret ≡ true
  pub keys_given : s.api_keys ≡ list env (text "GATEWAY_API_KEYS")
  pub secret_given : env (text "AGENT_SHARED_SECRET") ≡ some s.agent_secret

given : (o : Option Str) → truthy (coalesce o []) ≡ true → o ≡ some (coalesce o [])
given none h = cc
given (some s) h = refl

-- A process that starts has a client key at least, no client or operator key that is empty, and an
-- agent secret that is not empty; the client keys and the secret are the environment's. Where there is
-- no key or no secret in the environment, it refuses to start.
pub load_config-IsGuarded :
    (to_number : Str → Option Number) (env : Env)
    → ((s : Settings) → load_config to_number env ≡ loaded s → IsGuarded env s)
      × (list env (text "GATEWAY_API_KEYS") ≡ [] → load_config to_number env ≡ refused no_api_keys)
      × (not_empty (list env (text "GATEWAY_API_KEYS")) ≡ true
          → env (text "AGENT_SHARED_SECRET") ≡ none
          → load_config to_number env ≡ refused no_agent_secret)
unfolding load_config
load_config-IsGuarded to_number env = (
  λ s e. ground (
    arith,
    list-truthy env (text "GATEWAY_API_KEYS"),
    list-truthy env (text "ADMIN_KEYS"),
    given (env (text "AGENT_SHARED_SECRET")),
  ),
  λ e. ground arith,
  λ k e. ground arith,
)
