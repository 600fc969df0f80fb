-- ===== src/App/Parts.antt =====
-- gateway/src/app.ts and gateway/src/auth.ts: the parts of the API by their paths, and the headers.
use nidora_ai_inference.Base.{
  ◌≡◌, ◌≢◌, refl, ap, ◌∙◌, Bool, true, false, if◌then◌else◌, Option, none, some, coalesce, List, [],
  ◌∷◌, arith, Str, str_eq, truthy, ◌&&◌, any, take, drop, text,
}
use nidora_ai_inference.Domain.Models.{to_lower_case}
use nidora_ai_inference.Domain.Sizing.{trim}
use nidora_ai_inference.Domain.Errors.{ErrorCode, invalid_api_key, invalid_agent_secret}
use nidora_ai_inference.Auth.{Headers, key_or, bearer_key, request_key, admin_key, accepted_keys}
use nidora_ai_inference.Auth.Keys.{is_accepted}
use nidora_ai_inference.Settings.{Settings}
use nidora_ai_inference.App.{
  Call, agent_poll, agent_input, agent_artifact, agent_result, submit, read, list, cancel, download,
  history, model_list, pod_list, drain, resume, healthcheck, Gate, client, agent, operator, nobody,
  gate,
}

abbrev pub same_secret : Option Str → Str → Bool
same_secret none secret = false
same_secret (some s) secret = str_eq s secret

-- Whether the headers carry what a gate asks for.
abbrev pub passes : Settings → Gate → Headers → Bool
passes s client h = is_accepted (request_key h) s.api_keys
passes s agent h = same_secret h.x_agent_secret s.agent_secret
passes s operator h = is_accepted (admin_key h) (accepted_keys s.admin_keys s.api_keys)
passes s nobody h = true

abbrev pub code_of : Gate → ErrorCode
code_of agent = invalid_agent_secret
code_of client = invalid_api_key
code_of operator = invalid_api_key
code_of nobody = invalid_api_key

same_secret-empty :
    (o : Option Str) (secret : Str)
    → truthy secret ≡ true
    → truthy (coalesce o []) ≡ false
    → same_secret o secret ≡ false
unfolding str_eq
same_secret-empty none secret n e = refl
same_secret-empty (some []) [] n e = absurd (ground arith)
same_secret-empty (some []) (x ∷ xs) n e = refl
same_secret-empty (some (c ∷ cs)) secret n e = absurd (ground arith)

-- The parts of the API, by the beginning of the path.
pub data ApiPart : Type 0 where
  agent_api video_api model_api pod_api health_api : ApiPart

abbrev pub api_part : Call → ApiPart
api_part (agent_poll body) = agent_api
api_part (agent_input id lease) = agent_api
api_part (agent_artifact id lease filename declared) = agent_api
api_part (agent_result id lease body) = agent_api
api_part (submit body) = video_api
api_part (read id) = video_api
api_part (list status limit) = video_api
api_part (cancel id) = video_api
api_part (download id) = video_api
api_part (history id) = video_api
api_part model_list = model_api
api_part pod_list = pod_api
api_part (drain id wanted) = pod_api
api_part (resume id) = pod_api
api_part healthcheck = health_api

-- The token of `Bearer <token>`, in any case, or the empty string.
abbrev pub bearer : Option Str → Str
bearer none = []
bearer (some a) = if str_eq (take 7 (to_lower_case a)) (text "bearer ") then trim (drop 7 a) else []

-- The client's key: X-Api-Key unless it is missing or empty, else the token.
abbrev pub offered : Option Str → Option Str → Str
offered none a = bearer a
offered (some []) a = bearer a
offered (some (c ∷ cs)) a = c ∷ cs

-- The operator's key: X-Admin-Key unless it is missing, else the client's.
abbrev pub offered_admin : Option Str → Str → Str
offered_admin none k = k
offered_admin (some a) k = a

abbrev pub operators : List Str → List Str → List Str
operators [] clients = clients
operators (k ∷ ks) clients = k ∷ ks

abbrev pub one_of : List Str → Str → Bool
one_of keys k = truthy k && any (str_eq k) keys

-- Whether the headers carry what a part of the API asks for.
abbrev pub permitted : Settings → ApiPart → Headers → Bool
permitted s agent_api h = same_secret h.x_agent_secret s.agent_secret
permitted s video_api h = one_of s.api_keys (offered h.x_api_key h.authorization)
permitted s model_api h = one_of s.api_keys (offered h.x_api_key h.authorization)
permitted s pod_api h =
    one_of (operators s.admin_keys s.api_keys)
      (offered_admin h.x_admin_key (offered h.x_api_key h.authorization))
permitted s health_api h = true

abbrev pub error_of : ApiPart → ErrorCode
error_of agent_api = invalid_agent_secret
error_of video_api = invalid_api_key
error_of model_api = invalid_api_key
error_of pod_api = invalid_api_key
error_of health_api = invalid_api_key

-- A key of the code and a string of the description that stand for each other.
abbrev IsSame : Option Str → Str → Type 0
IsSame o k = (keys : List Str) → is_accepted o keys ≡ one_of keys k

bearer-IsSame : (a : Option Str) → IsSame (bearer_key a) (bearer a)
unfolding bearer_key
bearer-IsSame none keys = refl
bearer-IsSame (some a) keys = ground arith

request_key-IsSame : (h : Headers) → IsSame (request_key h) (offered h.x_api_key h.authorization)
unfolding request_key
request_key-IsSame h keys = by_header h.x_api_key
  where
    by_header :
        (o : Option Str)
        → is_accepted (key_or o (bearer_key h.authorization)) keys
          ≡ one_of keys (offered o h.authorization)
    by_header none = bearer-IsSame h.authorization keys
    by_header (some []) = bearer-IsSame h.authorization keys
    by_header (some (c ∷ cs)) = refl

admin_key-IsSame :
    (h : Headers)
    → IsSame (admin_key h) (offered_admin h.x_admin_key (offered h.x_api_key h.authorization))
unfolding admin_key
admin_key-IsSame h keys = by_header h.x_admin_key
  where
    by_header :
        (o : Option Str)
        → is_accepted (elim o [ none ↦ request_key h | some key ↦ some key ]) keys
          ≡ one_of keys (offered_admin o (offered h.x_api_key h.authorization))
    by_header none = request_key-IsSame h keys
    by_header (some k) = refl

operators-accepted_keys :
    (admins clients : List Str) → accepted_keys admins clients ≡ operators admins clients
unfolding accepted_keys
operators-accepted_keys [] clients = refl
operators-accepted_keys (k ∷ ks) clients = refl

passes-operator : (s : Settings) (h : Headers) → passes s operator h ≡ permitted s pod_api h
passes-operator s h =
    admin_key-IsSame h (accepted_keys s.admin_keys s.api_keys)
    ∙ ap (λ keys. one_of keys (offered_admin h.x_admin_key (offered h.x_api_key h.authorization)))
        (operators-accepted_keys s.admin_keys s.api_keys)

pub passes-permitted :
    (s : Settings) (h : Headers) (c : Call) → passes s (gate c) h ≡ permitted s (api_part c) h
unfolding gate
passes-permitted s h (agent_poll body) = refl
passes-permitted s h (agent_input id lease) = refl
passes-permitted s h (agent_artifact id lease filename declared) = refl
passes-permitted s h (agent_result id lease body) = refl
passes-permitted s h (submit body) = request_key-IsSame h s.api_keys
passes-permitted s h (read id) = request_key-IsSame h s.api_keys
passes-permitted s h (list status limit) = request_key-IsSame h s.api_keys
passes-permitted s h (cancel id) = request_key-IsSame h s.api_keys
passes-permitted s h (download id) = request_key-IsSame h s.api_keys
passes-permitted s h (history id) = request_key-IsSame h s.api_keys
passes-permitted s h model_list = request_key-IsSame h s.api_keys
passes-permitted s h pod_list = passes-operator s h
passes-permitted s h (drain id wanted) = passes-operator s h
passes-permitted s h (resume id) = passes-operator s h
passes-permitted s h healthcheck = refl

pub gate-code : (c : Call) → code_of (gate c) ≡ error_of (api_part c)
unfolding gate
gate-code (agent_poll body) = refl
gate-code (agent_input id lease) = refl
gate-code (agent_artifact id lease filename declared) = refl
gate-code (agent_result id lease body) = refl
gate-code (submit body) = refl
gate-code (read id) = refl
gate-code (list status limit) = refl
gate-code (cancel id) = refl
gate-code (download id) = refl
gate-code (history id) = refl
gate-code model_list = refl
gate-code pod_list = refl
gate-code (drain id wanted) = refl
gate-code (resume id) = refl
gate-code healthcheck = refl

health_api-only : (c : Call) → c ≢ healthcheck → api_part c ≢ health_api
health_api-only healthcheck n e = n refl
health_api-only (agent_poll body) n e = ground arith
health_api-only (agent_input id lease) n e = ground arith
health_api-only (agent_artifact id lease filename declared) n e = ground arith
health_api-only (agent_result id lease body) n e = ground arith
health_api-only (submit body) n e = ground arith
health_api-only (read id) n e = ground arith
health_api-only (list status limit) n e = ground arith
health_api-only (cancel id) n e = ground arith
health_api-only (download id) n e = ground arith
health_api-only (history id) n e = ground arith
health_api-only model_list n e = ground arith
health_api-only pod_list n e = ground arith
health_api-only (drain id wanted) n e = ground arith
health_api-only (resume id) n e = ground arith

offered-empty :
    (o a : Option Str) → truthy (coalesce o []) ≡ false → bearer a ≡ [] → offered o a ≡ []
offered-empty none a e b = b
offered-empty (some []) a e b = b
offered-empty (some (c ∷ cs)) a e b = absurd (ground arith)

offered_admin-empty :
    (o : Option Str) (k : Str) → truthy (coalesce o []) ≡ false → k ≡ [] → offered_admin o k ≡ []
offered_admin-empty none k e b = b
offered_admin-empty (some []) k e b = refl
offered_admin-empty (some (c ∷ cs)) k e b = absurd (ground arith)

part-empty :
    (s : Settings) (h : Headers) (p : ApiPart)
    → truthy s.agent_secret ≡ true
    → offered h.x_api_key h.authorization ≡ []
    → truthy (coalesce h.x_admin_key []) ≡ false
    → truthy (coalesce h.x_agent_secret []) ≡ false
    → p ≢ health_api
    → permitted s p h ≡ false
part-empty s h agent_api named k a e n = same_secret-empty h.x_agent_secret s.agent_secret named e
part-empty s h video_api named k a e n = ap (one_of s.api_keys) k
part-empty s h model_api named k a e n = ap (one_of s.api_keys) k
part-empty s h pod_api named k a e n =
    ap (one_of (operators s.admin_keys s.api_keys))
      (offered_admin-empty h.x_admin_key (offered h.x_api_key h.authorization) a k)
part-empty s h health_api named k a e n = absurd (n refl)

pub permitted-empty :
    (s : Settings) (h : Headers) (c : Call)
    → truthy s.agent_secret ≡ true
    → truthy (coalesce h.x_api_key []) ≡ false
    → bearer h.authorization ≡ []
    → truthy (coalesce h.x_admin_key []) ≡ false
    → truthy (coalesce h.x_agent_secret []) ≡ false
    → c ≢ healthcheck
    → permitted s (api_part c) h ≡ false
permitted-empty s h c named k b a e n =
    part-empty s h (api_part c) named (offered-empty h.x_api_key h.authorization k b) a e
      (health_api-only c n)
