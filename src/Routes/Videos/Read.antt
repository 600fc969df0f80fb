-- ===== src/Routes/Videos/Read.antt =====
-- gateway/src/routes/videos.ts: status, list, cancel, content and events.
pub mod Kept
pub mod Download
pub mod Cancel
use nidora_ai_inference.Base.{
  ℕ, ◌+◌, ◌/◌, Bool, false, Option, none, some, List, [], ◌∷◌, ◌++◌, map, ◌==◌, if◌then◌else◌,
  coalesce, length, Str, text, str_eq,
}
use nidora_ai_inference.Domain.Types.{
  VideoStatus, is_queued, is_in_progress, is_completed, read_status, Artifact, artifacts, FilePath,
  Job, JobEvent,
}
use nidora_ai_inference.Store.Db.{Db, get}
use nidora_ai_inference.Store.Jobs.{cancel_queued, request_cancel}
use nidora_ai_inference.Store.Queries.{list, queue_position, events}
use nidora_ai_inference.Routes.State.{Gateway, Reply, sent, rejected, raised}
use nidora_ai_inference.Domain.Errors.{video_not_found, api_error}
use nidora_ai_inference.Domain.Errors.{
  invalid_status, already_finished, content_expired, content_not_ready, content_not_found,
}
use nidora_ai_inference.Domain.Models.{to_lower_case}
use nidora_ai_inference.Domain.Serialize.{VideoResponse, to_video_response}
use nidora_ai_inference.Scheduler.Config.{Config}
use nidora_ai_inference.Artifacts.{read_file, resolve_artifact}

unfoldable pub respond : Config → Job → Db → VideoResponse
respond config job db = to_video_response job (queue_position job db) config.artifact_ttl_ms

abbrev pub no_such_video {ℓ} : {A : Type ℓ} → Reply A
no_such_video = rejected 404 (api_error 404 (some video_not_found) (some (text "id")))

-- GET /v1/videos/:id
unfoldable pub get_video : Config → Str → Gateway → Reply VideoResponse
unfolding respond
get_video config id g = elim (get id g.db) [
  | none ↦ no_such_video
  | some job ↦ sent 200 (respond config job g.db)
]

list_by : Config → Option VideoStatus → Option ℕ → Gateway → Reply (List VideoResponse)
unfolding respond
list_by config state limit g =
    sent 200 (map (λ job. respond config job g.db) (list state limit g.db))

-- GET /v1/videos; an empty status is unknown like any other.
unfoldable pub list_videos : Config → Option Str → Option ℕ → Gateway → Reply (List VideoResponse)
unfolding list_by
list_videos config none limit g = list_by config none limit g
list_videos config (some s) limit g = elim (read_status s) [
  | none ↦ rejected 400 (api_error 400 (some invalid_status) (some (text "status")))
  | some state ↦ list_by config (some state) limit g
]

-- A reply with the video as the database has it now.
with_video : Config → ℕ → Str → Db → Reply VideoResponse
unfolding respond
with_video config status id db = elim (get id db) [
  | none ↦ raised
  | some job ↦ sent status (respond config job db)
]

abbrev pub finished_already : Reply VideoResponse
finished_already = rejected 409 (api_error 409 (some already_finished) none)

abbrev runs : Option Job → Bool
runs none = false
runs (some j) = is_in_progress j.state

-- The job is in flight, or else finished.
cancel_running : Config → Str → Gateway → Gateway × Reply VideoResponse
unfolding with_video
cancel_running config id g =
    let db = (request_cancel id g.db.clock g.db).0 in
    if runs (get id g.db)
    then (record g { db = db }, with_video config 202 id db)
    else (g, finished_already)

-- The swap of a queued job, and what follows if it was lost.
cancel_waiting : Config → Str → Gateway → Gateway × Reply VideoResponse
unfolding cancel_running with_video
cancel_waiting config id g =
    let (db, done) = cancel_queued id g.db.clock g.db in
    let g' = record g { db = db } in
    if done then (g', with_video config 200 id db) else cancel_running config id g'

-- DELETE /v1/videos/:id
unfoldable pub delete_video : Config → Str → Gateway → Gateway × Reply VideoResponse
unfolding cancel_waiting cancel_running
delete_video config id g = elim (get id g.db) [
  | none ↦ (g, no_such_video)
  | some job ↦
      if is_queued job.state then cancel_waiting config id g else cancel_running config id g
]

-- The body of a download with its headers.
pub record Content : Type 0 where
  pub media_type : Str
  pub length : ℕ
  pub filename : Str
  pub sha256 : Option Str
  pub body : List ℕ

-- `filename.split('.').pop().toLowerCase()`
after_last_dot : Str → Str → Str
after_last_dot here [] = here
after_last_dot here (c ∷ cs) = after_last_dot (if c == 46 then [] else here ++ c ∷ []) cs

-- MEDIA_TYPES.
media_types : List (Str × Str)
media_types =
    (text "mp4", text "video/mp4")
    ∷ (text "webm", text "video/webm")
    ∷ (text "png", text "image/png")
    ∷ (text "jpg", text "image/jpeg")
    ∷ (text "jpeg", text "image/jpeg")
    ∷ (text "webp", text "image/webp")
    ∷ []

lookup_type : Str → List (Str × Str) → Option Str
lookup_type key [] = none
lookup_type key ((k, v) ∷ rest) = if str_eq k key then some v else lookup_type key rest

unfoldable pub content_type : Artifact → Str
unfolding after_last_dot media_types lookup_type
content_type a =
    coalesce (lookup_type (to_lower_case (after_last_dot [] a.filename)) media_types) a.media_type

abbrev expired_content : Reply Content
expired_content = rejected 410 (api_error 410 (some content_expired) none)

send_file : Artifact → Option FilePath → Gateway → Reply Content
unfolding content_type
send_file a none g = rejected 404 (api_error 404 (some content_not_found) none)
send_file a (some path) g = elim (read_file path g.disk) [
  | none ↦ expired_content
  | some body ↦ sent 200 (record {
    media_type = content_type a;
    length = length body;
    filename = a.filename;
    sha256 = a.sha256;
    body = body;
  })
]

send_first : Job → List Artifact → Gateway → Reply Content
unfolding send_file
send_first job [] g =
    if is_completed job.state
    then expired_content
    else rejected 409 (api_error 409 (some content_not_ready) none)
send_first job (a ∷ more) g = send_file a (resolve_artifact job.id a.filename) g

-- GET /v1/videos/:id/content
unfoldable pub content : Str → Gateway → Reply Content
unfolding send_first
content id g = elim (get id g.db) [
  | none ↦ no_such_video
  | some job ↦ send_first job job.artifacts g
]

-- GET /v1/videos/:id/events
unfoldable pub video_events : Str → Gateway → Reply (List JobEvent)
video_events id g = elim (get id g.db) [
  | none ↦ no_such_video
  | some job ↦ sent 200 (events job.id g.db)
]
