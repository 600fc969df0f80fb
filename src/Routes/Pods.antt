-- ===== src/Routes/Pods.antt =====
-- gateway/src/routes/pods.ts: the operator's view of the pods, draining one and bringing it back.
pub mod Listing
pub mod Bodies
use nidora_ai_inference.Base.{
  ℕ, ◌+◌, ◌-◌, ◌/◌, leb, length, List, map, Bool, true, false, not, ◌||◌, Option, none, some, List,
  [], ◌∷◌, if◌then◌else◌, Str, text, str_eq, truthy,
}
use mathlib.Core.Option
use nidora_ai_inference.Routes.State.{Gateway, Reply, sent, rejected}
use nidora_ai_inference.Domain.Errors.{api_error}
use nidora_ai_inference.Domain.Errors.{pod_not_found}
use nidora_ai_inference.Domain.Models.{to_lower_case}
use nidora_ai_inference.Domain.Sizing.{trim}
use nidora_ai_inference.Domain.Types.{in_progress, Pod}
use nidora_ai_inference.Store.Db.{Db}
use nidora_ai_inference.Store.Queries.{list_by_pod}
use nidora_ai_inference.Store.Pods.{list, set_draining}
use nidora_ai_inference.Scheduler.Config.{Config}

-- The field `draining` of a body: absent or null, a boolean, or what `String(value)` reads.
pub data Wanted : Type 0 where
  unset : Wanted
  boolean : Bool → Wanted
  shown : Str → Wanted

unfoldable pub wants_draining : Wanted → Bool
wants_draining unset = true
wants_draining (boolean b) = b
wants_draining (shown s) =
    let word = to_lower_case (trim s) in
    not (
      str_eq word (text "false")
      || (str_eq word (text "0") || (str_eq word (text "no") || not (truthy word))))

set_drain : Str → Bool → Gateway → Gateway × Reply (Str × Bool)
set_drain id draining g =
    let (db, done) = set_draining id draining g.db in
    let g' = record g { db = db } in
    if done
    then (g', sent 200 (id, draining))
    else (g', rejected 404 (api_error 404 (some pod_not_found) (some (text "id"))))

-- POST /v1/pods/:id/drain
unfoldable pub post_drain : Str → Wanted → Gateway → Gateway × Reply (Str × Bool)
unfolding set_drain
post_drain id wanted g = set_drain id (wants_draining wanted) g

-- DELETE /v1/pods/:id/drain
unfoldable pub delete_drain : Str → Gateway → Gateway × Reply (Str × Bool)
unfolding set_drain
delete_drain id g = set_drain id false g

-- The body of a POST: none, or one of the two content types that the plugin parses.
pub data Sent : Type 0 where
  nothing : Sent
  form_body json_body : Str → Sent

-- `Object.fromEntries`: of the values of a key the last one.
unfoldable pub last_value : Str → List (Str × Str) → Option Str
last_value key [] = none
last_value key ((k, v) ∷ rest) =
    let later = last_value key rest in
    elim later [ none ↦ if str_eq k key then some v else none | some w ↦ some w ]

abbrev shown_or_unset : Option Str → Wanted
shown_or_unset none = unset
shown_or_unset (some s) = shown s

-- The handler behind the parser; `badBody` has given its exception the status 400.
abbrev pub received : Str → Option Wanted → Gateway → Gateway × Reply (Str × Bool)
received id none g = (g, rejected 400 (api_error 400 none none))
received id (some wanted) g = post_drain id wanted g

-- The section's parameters: the pairs that URLSearchParams reads, and the field `draining` of what
-- JSON.parse reads. `none` is an exception.
module _ (pairs : Str → Option (List (Str × Str))) (json : Str → Option Wanted) where
  unfoldable pub parse_form : Str → Option Wanted
  unfolding last_value
  parse_form body = Option.map (λ ps. shown_or_unset (last_value (text "draining") ps)) (pairs body)

  unfoldable pub parse_json : Str → Option Wanted
  parse_json body = let t = trim body in if str_eq t [] then some unset else json t

  unfoldable pub parse_body : Sent → Option Wanted
  unfolding parse_form parse_json
  parse_body nothing = some unset
  parse_body (form_body s) = parse_form s
  parse_body (json_body s) = parse_json s

  -- POST /v1/pods/:id/drain from its body on.
  unfoldable pub receive_drain : Str → Sent → Gateway → Gateway × Reply (Str × Bool)
  unfolding parse_body
  receive_drain id body g = received id (parse_body body) g

-- A pod with what the listing adds to its row.
pub record PodEntry : Type 0 where
  pub pod : Pod
  pub connected : Bool
  pub last_seen_ago_s : ℕ
  pub in_flight : ℕ

-- The clock does not go back, so that no age is negative.
unfoldable pub pod_entry : Config → Db → Pod → PodEntry
pod_entry config db pod = record {
  pod = pod;
  connected = leb (db.clock - pod.last_seen_at) config.pod_stale_ms;
  last_seen_ago_s = (db.clock - pod.last_seen_at + 500) / 1000;
  in_flight = length (list_by_pod pod.pod_id in_progress db);
}

-- GET /v1/pods
unfoldable pub list_pods : Config → Db → List PodEntry
unfolding pod_entry
list_pods config db = map (pod_entry config db) (list db)
