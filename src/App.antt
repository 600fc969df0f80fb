-- ===== src/App.antt =====
-- gateway/src/app.ts: the routes behind their gates, and the error handler. The routing of Fastify, its
-- body parsers and the log are outside: a call is a request that has been routed and parsed.
pub mod Gates
pub mod Parts
use nidora_ai_inference.Base.{ℕ, Bool, if◌then◌else◌, Option, none, some, coalesce, List, leb, Str}
use nidora_ai_inference.Domain.Types.{VideoStatus, JobEvent}
use nidora_ai_inference.Domain.Errors.{ApiError, internal_error, api_error}
use nidora_ai_inference.Domain.Serialize.{VideoResponse}
use nidora_ai_inference.Auth.{
  Headers, Access, allowed, denied, require_api_key, require_agent_secret, require_admin_key,
}
use nidora_ai_inference.Scheduler.Config.{Config}
use nidora_ai_inference.Settings.{Settings}
use nidora_ai_inference.Routes.State.{Gateway, Reply, sent, rejected, raised}
use nidora_ai_inference.Routes.Agent.Poll.{PollBody, PollResponse, Polled, replied, parked, poll}
use nidora_ai_inference.Routes.Agent.Files.{Uploaded, input, artifact}
use nidora_ai_inference.Routes.Agent.Result.{ResultBody, result}
use nidora_ai_inference.Routes.Videos.Create.{Body, create_video}
use nidora_ai_inference.Routes.Videos.Read.{
  Content, get_video, list_videos, delete_video, content, video_events,
}
use nidora_ai_inference.Routes.Pods.{Wanted, PodEntry, post_drain, delete_drain, list_pods}
use nidora_ai_inference.Routes.Models.{ModelEntry, list_models}
use nidora_ai_inference.Routes.Health.{Health, health}
use nidora_ai_inference.Gateway.{Runtime}

-- The requests, by their routes.
pub data Call : Type 0 where
  agent_poll : PollBody → Call
  agent_input : Str → Str → Call
  agent_artifact : Str → Str → Option Str → Option ℕ → Call
  agent_result : Str → Str → ResultBody → Call
  submit : Body → Call
  read : Str → Call
  list : Option Str → Option ℕ → Call
  cancel : Str → Call
  download : Str → Call
  history : Str → Call
  model_list : Call
  pod_list : Call
  drain : Str → Wanted → Call
  resume : Str → Call
  healthcheck : Call

-- The hook of the plugin that a route is in.
pub data Gate : Type 0 where
  client agent operator nobody : Gate

unfoldable pub gate : Call → Gate
gate (agent_poll body) = agent
gate (agent_input id lease) = agent
gate (agent_artifact id lease filename declared) = agent
gate (agent_result id lease body) = agent
gate (submit body) = client
gate (read id) = client
gate (list status limit) = client
gate (cancel id) = client
gate (download id) = client
gate (history id) = client
gate model_list = client
gate pod_list = operator
gate (drain id wanted) = operator
gate (resume id) = operator
gate healthcheck = nobody

-- What is sent back with a success.
pub data Payload : Type 0 where
  of_poll : PollResponse → Payload
  of_bytes : List ℕ → Payload
  of_upload : Uploaded → Payload
  of_result : Str × VideoStatus → Payload
  of_video : VideoResponse → Payload
  of_videos : List VideoResponse → Payload
  of_content : Content → Payload
  of_events : List JobEvent → Payload
  of_models : List ModelEntry → Payload
  of_pods : List PodEntry → Payload
  of_drain : Str × Bool → Payload
  of_health : Health → Payload

-- `held` is no answer yet: the poll is parked, or the body of the upload is still to come.
pub data Response : Type 0 where
  answered : ℕ → Payload → Response
  refused : ℕ → ApiError → Response
  held : Response

-- The error handler, for an error with its `statusCode`, if it has one.
unfoldable pub error_handler : Option ℕ → Response
error_handler code =
    let status = coalesce code 500 in
    if leb 500 status
    then refused status (api_error status (some internal_error) none)
    else refused status (api_error status none none)

-- What a handler's reply becomes; its exception has no status.
abbrev pub respond {ℓ} : {A : Type ℓ} → (A → Payload) → Reply A → Response
respond pack (sent status a) = answered status (pack a)
respond pack (rejected status e) = refused status e
respond pack raised = error_handler none

abbrev poll_response : Polled → Response
poll_response parked = held
poll_response (replied r) = respond of_poll r

abbrev upload_response : Option (Reply Uploaded) → Response
upload_response none = held
upload_response (some r) = respond of_upload r

-- The section's parameters: the runtime, the digest of the gates, the version, and the settings.
module _ (rt : Runtime) (digest : Str → List ℕ) (version : Str) (settings : Settings)
    (config : Config) where
  unfoldable pub handle : Call → Gateway → Gateway × Response
  unfolding error_handler
  handle (agent_poll body) g = let (g', r) = poll rt.uuid config body g in (g', poll_response r)
  handle (agent_input id lease) g = (g, respond of_bytes (input id lease g))
  handle (agent_artifact id lease filename declared) g =
      let (g', r) = artifact config id lease filename declared g in (g', upload_response r)
  handle (agent_result id lease body) g =
      let (g', r) = result config id lease body g in (g', respond of_result r)
  handle (submit body) g =
      let (g', r) = create_video rt.floats rt.sha256 rt.to_number rt.random_bytes config body g in
      (g', respond of_video r)
  handle (read id) g = (g, respond of_video (get_video config id g))
  handle (list status limit) g = (g, respond of_videos (list_videos config status limit g))
  handle (cancel id) g = let (g', r) = delete_video config id g in (g', respond of_video r)
  handle (download id) g = (g, respond of_content (content id g))
  handle (history id) g = (g, respond of_events (video_events id g))
  handle model_list g = (g, respond of_models (list_models config g.db))
  handle pod_list g = (g, answered 200 (of_pods (list_pods config g.db)))
  handle (drain id wanted) g = let (g', r) = post_drain id wanted g in (g', respond of_drain r)
  handle (resume id) g = let (g', r) = delete_drain id g in (g', respond of_drain r)
  handle healthcheck g = (g, answered 200 (of_health (health version config g.db)))

  unfoldable pub access : Gate → Headers → Access
  access client = require_api_key digest settings.api_keys
  access agent = require_agent_secret digest settings.agent_secret
  access operator = require_admin_key digest settings.admin_keys settings.api_keys
  access nobody = λ h. allowed

  -- `onRequest`: the handler does not run where the gate has answered.
  abbrev admitted : Access → Call → Gateway → Gateway × Response
  admitted allowed c g = handle c g
  admitted (denied e) c g = (g, refused 401 e)

  unfoldable pub serve : Headers → Call → Gateway → Gateway × Response
  unfolding gate access
  serve h c g = admitted (access (gate c) h) c g
