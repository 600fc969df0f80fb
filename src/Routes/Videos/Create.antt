-- ===== src/Routes/Videos/Create.antt =====
-- gateway/src/routes/videos.ts, POST /v1/videos. Bodies of refusals are cut down to their error. The
-- awaited write of the input is one step with the insertion of the row.
pub mod Kept
pub mod Checks
pub mod Frame
pub mod Clamps
pub mod Admission
pub mod Submission
use mathlib.Core.Option
use nidora_ai_inference.Base.{
  ℕ, ◌+◌, ◌-◌, Bool, true, false, not, ◌&&◌, Option, none, some, List, [], ◌∷◌, map, ltb, leb,
  length, any, Str, text, truthy, column_is,
}
use nidora_ai_inference.Domain.Types.{
  queued, Number, Resolution, p480, p720, JobParams, FilePath, Pod,
}
use nidora_ai_inference.Store.Db.{Db, get}
use nidora_ai_inference.Store.Jobs.{create, NewJob}
use nidora_ai_inference.Store.Queries.{counts}
use nidora_ai_inference.Routes.State.{Gateway, kick, Reply, sent, rejected, raised}
use nidora_ai_inference.Domain.Errors.{ErrorCode, missing_parameter, api_error}
use nidora_ai_inference.Domain.Errors.{
  unsupported_media_type, input_too_large, model_not_found, prompt_too_long, no_capacity,
  queue_full, invalid_image, invalid_size,
}
use nidora_ai_inference.Domain.Models.{ModelSpec, get_model, resolve_model_id}
use nidora_ai_inference.Domain.Sizing.{Floats, Sized, check_size, fit_size, read_resolution}
use nidora_ai_inference.Domain.Inputs.{DecodedImage, Read, decoded, refused, read_image}
use nidora_ai_inference.Domain.Probe.{Dimensions, Probed, thrown, absent, found, probe_dimensions}
use nidora_ai_inference.Domain.Serialize.{VideoResponse}
use nidora_ai_inference.Store.Pods.{list_connected, pod_model}
use nidora_ai_inference.Scheduler.Config.{Config}
use nidora_ai_inference.Artifacts.{write_input}
use nidora_ai_inference.Ids.{new_video_id}
use nidora_ai_inference.Routes.Videos.Read.{respond}
use nidora_ai_inference.Routes.Videos.Params.{
  Part, Form, read_upload, lookup_field, trimmed, job_params,
}

-- A check of the handler: it passes a value on, or ends the request.
pub data Check {ℓ} (A : Type ℓ) : Type ℓ where
  pass : A → Check A
  stop : Reply VideoResponse → Check A

infixl 5 ◌>>=◌ ◌>>◌
abbrev pub ◌>>=◌ {ℓ κ} : {A : Type ℓ} {B : Type κ} → Check A → (A → Check B) → Check B
pass a >>= f = f a
stop r >>= f = stop r

abbrev pub ◌>>◌ {ℓ} : {B : Type ℓ} → Check (Unit {0}) → Check B → Check B
m >> k = m >>= λ _. k

abbrev pub require : Bool → Reply VideoResponse → Check (Unit {0})
require true r = pass tt
require false r = stop r

abbrev pub or_stop {ℓ} : {A : Type ℓ} → Option A → Reply VideoResponse → Check A
or_stop none r = stop r
or_stop (some a) r = pass a

abbrev pub refuse : ℕ → ErrorCode → Option Str → Reply VideoResponse
refuse status code param = rejected status (api_error status (some code) param)

-- What arrives: no multipart body, one whose file passes the limit of the multipart plugin, or parts.
pub data Body : Type 0 where
  not_multipart file_too_large : Body
  parts : List Part → Body

receive : Body → Check Form
receive not_multipart = stop (refuse 415 unsupported_media_type none)
receive file_too_large = stop (refuse 413 input_too_large (some (text "input_reference")))
receive (parts ps) = pass (read_upload ps)

abbrev pub model_is : Str → Pod → Bool
model_is model pod = column_is (pod_model pod) model && not pod.draining

-- `servingPods.length > 0`
unfoldable pub has_capacity : Config → Str → Db → Bool
has_capacity config model db =
    any (model_is model) (list_connected (db.clock - config.pod_stale_ms) db)

-- Admission control.
unfoldable pub has_room : Config → Db → Bool
has_room config db = ltb (counts db).queued config.max_queue_depth

check_image : Read → Check DecodedImage
check_image (decoded image) = pass image
check_image (refused e) = stop (refuse 400 invalid_image (some (text "input_reference")))

-- The fuel of the walk never runs out; `none` would leave the request without an answer.
check_header : Option Probed → Check Dimensions
check_header none = stop raised
check_header (some thrown) = stop raised
check_header (some absent) = stop (refuse 400 invalid_image (some (text "input_reference")))
check_header (some (found d)) = pass d

abbrev pub allows : List Resolution → Resolution → Bool
allows [] r = false
allows (p480 ∷ rs) p480 = true
allows (p480 ∷ rs) p720 = allows rs p720
allows (p720 ∷ rs) p480 = allows rs p480
allows (p720 ∷ rs) p720 = true

abbrev pub no_such_size : Reply VideoResponse
no_such_size = refuse 400 invalid_size (some (text "size"))

-- What an admitted request is made of.
pub record Admitted : Type 0 where
  pub model : Str
  pub params : JobParams
  pub image : DecodedImage

module _ (fl : Floats) where
  fitted : Dimensions → Resolution → Check Sized
  fitted d r =
      or_stop
        (Option.map (λ s. record { size = s; resolution = r }) (fit_size fl d.width d.height r))
        raised

  named_size : ModelSpec → Dimensions → Str → Option Resolution → Check Sized
  unfolding fitted
  named_size spec d requested none = or_stop (check_size requested spec.resolutions) no_such_size
  named_size spec d requested (some r) = do
    require (allows spec.resolutions r) no_such_size
    fitted d r

  -- A size that is named is validated; one that is left out comes from the image.
  unfoldable pub choose_size : ModelSpec → Dimensions → Str → Check Sized
  unfolding fitted named_size
  choose_size spec d [] = fitted d p480
  choose_size spec d (c ∷ cs) = named_size spec d (c ∷ cs) (read_resolution (c ∷ cs))

module _ (fl : Floats) (sha256 : List ℕ → Str) (to_number : Str → Option Number) where
  -- The checks in the order of the source.
  unfoldable pub admit : Config → Body → Db → Check Admitted
  unfolding receive check_image check_header
  admit config body db = do
    form ← receive body
    let name = lookup_field (text "model") form.fields
    spec ← or_stop (get_model name) (refuse 404 model_not_found (some (text "model")))
    model ← or_stop (resolve_model_id name) raised
    let prompt = trimmed (text "prompt") form.fields
    require (truthy prompt) (refuse 400 missing_parameter (some (text "prompt")))
    require (leb (length prompt) spec.max_prompt_chars)
        (refuse 400 prompt_too_long (some (text "prompt")))
    require (has_capacity config model db) (refuse 503 no_capacity (some (text "model")))
    require (has_room config db) (refuse 503 queue_full none)
    upload ← or_stop form.image (refuse 400 missing_parameter (some (text "input_reference")))
    image ← check_image (read_image sha256 upload config.max_input_bytes)
    dims ← check_header (probe_dimensions image.bytes)
    sized ← choose_size fl spec dims (trimmed (text "size") form.fields)
    pass (record {
      model = model;
      params = job_params to_number spec form.fields prompt sized.size sized.resolution;
      image = image;
    })

  abbrev new_job : Config → Str → Admitted → FilePath → ℕ → NewJob
  new_job config id a path now = record {
    id = id;
    model = a.model;
    params = a.params;
    input_path = path;
    input_sha256 = a.image.sha256;
    input_bytes = length a.image.bytes;
    created_at = now;
    deadline_at = now + config.job_ttl_ms;
  }

  -- A duplicate id raises, with the input already written over.
  created : Config → Str → Gateway → Option Db → Gateway × Reply VideoResponse
  unfolding respond kick
  created config id g none = (g, raised)
  created config id g (some db) =
      let g' = kick (record g { db = db }) in
      elim (get id db) [ none ↦ (g', raised) | some job ↦ (g', sent 200 (respond config job db)) ]

  insert : Config → Str → Admitted → Gateway → Gateway × Reply VideoResponse
  unfolding created
  insert config id a g =
      let (disk, path) = write_input id a.image.extension a.image.bytes g.disk in
      created config id (record g { disk = disk })
        (create (new_job config id a path g.db.clock) (record g.db { drawn = g.db.drawn + 1 }))

  after_checks : Config → Str → Gateway → Check Admitted → Gateway × Reply VideoResponse
  unfolding insert
  after_checks config id g (stop r) = (g, r)
  after_checks config id g (pass a) = insert config id a g

  -- `random_bytes` gives the six bytes of the n-th draw.
  unfoldable pub create_video :
      (ℕ → List ℕ) → Config → Body → Gateway → Gateway × Reply VideoResponse
  unfolding after_checks admit
  create_video random_bytes config body g =
      after_checks config (new_video_id (random_bytes g.db.drawn)) g (admit config body g.db)
