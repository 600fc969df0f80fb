-- ===== src/Routes/Videos/Create/Admission.antt =====
-- gateway/src/routes/videos.ts, POST /v1/videos: what a request that passes the checks is made of.
use nidora_ai_inference.Routes.State.{raised}
use nidora_ai_inference.Base.{
  ℕ, ◌≤◌, ◌<◌, ◌≡◌, refl, sym, subst, true, Option, none, some, List, [], ◌∷◌, arith, leb, length,
  any, coalesce, ◌-◌, ◌∙◌, Bool, not, ◌&&◌, column_is, count_where, select_where, any-order_by_desc,
  any-select_where, str_eq, Str, text, truthy,
}
use nidora_ai_inference.Domain.Types.{Number, p480, Pod, is_queued}
use nidora_ai_inference.Store.Pods.{pod_model, list_connected}
use nidora_ai_inference.Store.Queries.{counts}
use nidora_ai_inference.Domain.Models.{
  ModelSpec, wan22_id, wan22_spec, models, lookup_model, resolve_model_id, get_model, spec_of,
}
use nidora_ai_inference.Domain.Sizing.{Floats, Sized}
use nidora_ai_inference.Domain.Sizing.Bounds.{same}
use nidora_ai_inference.Domain.Inputs.{DecodedImage, Read, decoded, refused, read_image}
use nidora_ai_inference.Domain.Inputs.Limits.{read_image-sized}
use nidora_ai_inference.Domain.Probe.{probe_dimensions}
use nidora_ai_inference.Domain.Errors.{
  missing_parameter, model_not_found, prompt_too_long, no_capacity, queue_full,
}
use nidora_ai_inference.Store.Db.{Db}
use nidora_ai_inference.Scheduler.Config.{Config}
use nidora_ai_inference.Routes.Videos.Params.{lookup_field, trimmed, num, job_params}
use nidora_ai_inference.Routes.Videos.Create.{
  pass, receive, check_header, check_image, require, or_stop, refuse, Body, Admitted, has_capacity,
  has_room, model_is, choose_size, admit,
}
use nidora_ai_inference.Routes.Videos.Create.Checks.{
  Passes, bind-Passes, passed, require-true, or_stop-some,
}
use nidora_ai_inference.Routes.Videos.Create.Frame.{IsFramed, Framed, choose_size-IsFramed}
use nidora_ai_inference.Routes.Videos.Create.Clamps.{
  Within, clamp_steps-bounded, clamp_seconds-Within,
}

lookup_model-unnamed : lookup_model [] models ≡ none
unfolding lookup_model models wan22_id text str_eq
lookup_model-unnamed = refl

-- The registry has one model.
lookup_model-only :
    (id : Str) (spec : ModelSpec)
    → lookup_model id models ≡ some spec
    → (spec ≡ wan22_spec) × (truthy id ≡ true)
unfolding lookup_model models
lookup_model-only [] spec h = absurd (ground (arith, lookup_model-unnamed))
lookup_model-only (c ∷ cs) spec h = ground arith

check_image-decoded :
    (r : Read) (image : DecodedImage) → check_image r ≡ pass image → r ≡ decoded image
unfolding check_image
check_image-decoded (decoded i) image h = ground arith
check_image-decoded (refused e) image h = cc

get_model-known :
    (name : Option Str) (model : Str) (spec : ModelSpec)
    → get_model name ≡ some spec
    → resolve_model_id name ≡ some model
    → (get_model (some model) ≡ some spec) × (spec ≡ wan22_spec)
unfolding get_model resolve_model_id
get_model-known name [] spec g r =
    absurd (ground (arith, (lookup_model-only [] spec (subst (λ o. spec_of o ≡ some spec) r g)).1))
get_model-known name (c ∷ cs) spec g r =
    let here : lookup_model (c ∷ cs) models ≡ some spec = subst (λ o. spec_of o ≡ some spec) r g in
    (ground (arith, here), (lookup_model-only (c ∷ cs) spec here).0)

-- A pod that has loaded the model, is not draining, and has polled within the window.
abbrev pub serves_now : Config → Db → Str → Pod → Bool
serves_now config db model p =
    (column_is (pod_model p) model && not p.draining)
    && leb (db.clock - config.pod_stale_ms) p.last_seen_at

has_capacity-any :
    (config : Config) (model : Str) (db : Db)
    → has_capacity config model db ≡ any (serves_now config db model) db.pods
unfolding has_capacity list_connected
has_capacity-any config model db =
    let since : ℕ = db.clock - config.pod_stale_ms in
    any-order_by_desc (model_is model) (λ p. p.last_seen_at)
      (select_where (λ p. leb since p.last_seen_at) db.pods)
    ∙ any-select_where (model_is model) (λ p. leb since p.last_seen_at) db.pods

has_room-bound :
    (config : Config) (db : Db)
    → has_room config db ≡ true
    → count_where (λ j. is_queued j.state) db.jobs < config.max_queue_depth
unfolding has_room counts
has_room-bound config db h = ground arith

-- What an admitted request is known to be, and what the database has for it.
pub record Meets (config : Config) (db : Db) (a : Admitted) : Type 0 where
  pub spec : ModelSpec
  pub known : get_model (some a.model) ≡ some spec
  pub prompt_named : truthy a.params.prompt ≡ true
  pub prompt_short : length a.params.prompt ≤ spec.max_prompt_chars
  pub steps_from : 1 ≤ a.params.num_inference_steps
  pub steps_to : a.params.num_inference_steps ≤ spec.max_steps
  pub seconds : Within spec.max_seconds a.params.seconds
  pub guidance : a.params.guidance_scale ≡ spec.default_guidance
  pub frame : IsFramed spec a.params.size a.params.resolution
  pub image_some : 0 < length a.image.bytes
  pub image_small : length a.image.bytes ≤ config.max_input_bytes
  pub served : any (serves_now config db a.model) db.pods ≡ true
  pub room : count_where (λ j. is_queued j.state) db.jobs < config.max_queue_depth

module _ (fl : Floats) (sha256 : List ℕ → Str) (to_number : Str → Option Number) (config : Config)
    (body : Body) (db : Db) where
  job_params-Meets :
      (name : Option Str) (model prompt : Str) (fields : List (Str × Str)) (spec : ModelSpec)
      (image : DecodedImage) (sized : Sized)
      → get_model name ≡ some spec
      → resolve_model_id name ≡ some model
      → truthy prompt ≡ true
      → leb (length prompt) spec.max_prompt_chars ≡ true
      → has_capacity config model db ≡ true
      → has_room config db ≡ true
      → (0 < length image.bytes) × (length image.bytes ≤ config.max_input_bytes)
      → (any (same p480) spec.resolutions ≡ true → IsFramed spec sized.size sized.resolution)
      → Meets config db (record {
        model = model;
        params = job_params to_number spec fields prompt sized.size sized.resolution;
        image = image;
      })
  unfolding job_params
  job_params-Meets name model prompt fields spec image sized e1 e2 e3 e4 e5 e6 (e7, e8) e9 =
      let (known, only) = get_model-known name model spec e1 e2 in
      let some_steps : 0 < spec.max_steps =
        subst (λ (p : ModelSpec). 0 < p.max_steps) (sym only) (omega arith) in
      let some_seconds : 0 < spec.max_seconds =
        subst (λ (p : ModelSpec). 0 < p.max_seconds) (sym only) (omega arith) in
      let (low, high) =
        clamp_steps-bounded
          (coalesce (num to_number (text "num_inference_steps") fields) spec.default_steps)
          spec.max_steps some_steps in
      record {
        spec = spec;
        known = known;
        prompt_named = e3;
        prompt_short = ground arith;
        steps_from = low;
        steps_to = high;
        seconds =
            clamp_seconds-Within
              (coalesce (num to_number (text "seconds") fields) spec.default_seconds)
              spec.max_seconds some_seconds;
        guidance = refl;
        frame =
            e9 (subst (λ (p : ModelSpec). any (same p480) p.resolutions ≡ true) (sym only) refl);
        image_some = e7;
        image_small = e8;
        served = sym (has_capacity-any config model db) ∙ e5;
        room = has_room-bound config db e6;
      }

  admit-Passes : Passes (Meets config db) (admit fl sha256 to_number config body db)
  unfolding admit
  admit-Passes = bind-Passes _ (receive body) _ λ form _.
      let name = lookup_field (text "model") form.fields in
      let prompt = trimmed (text "prompt") form.fields in
      bind-Passes _ (or_stop (get_model name) (refuse 404 model_not_found (some (text "model")))) _
        λ spec e1. bind-Passes _ (or_stop (resolve_model_id name) raised) _ λ model e2.
          bind-Passes _
            (require (truthy prompt) (refuse 400 missing_parameter (some (text "prompt")))) _
            λ u1 e3.
              bind-Passes _
                (require (leb (length prompt) spec.max_prompt_chars)
                  (refuse 400 prompt_too_long (some (text "prompt"))))
                _
                λ u2 e4.
                  bind-Passes _
                    (require (has_capacity config model db)
                      (refuse 503 no_capacity (some (text "model"))))
                    _
                    λ u3 e5.
                      bind-Passes _ (require (has_room config db) (refuse 503 queue_full none)) _
                        λ u4 e6.
                          bind-Passes _
                            (or_stop form.image
                              (refuse 400 missing_parameter (some (text "input_reference"))))
                            _
                            λ upload _.
                              bind-Passes _
                                (check_image (read_image sha256 upload config.max_input_bytes)) _
                                λ image e7.
                                  bind-Passes _ (check_header (probe_dimensions image.bytes)) _
                                    λ dims _.
                                      bind-Passes _
                                        (choose_size fl spec dims
                                          (trimmed (text "size") form.fields))
                                        _
                                        λ sized e8.
                                          job_params-Meets name model prompt form.fields spec image
                                            sized (or_stop-some _ _ spec e1)
                                            (or_stop-some _ _ model e2) (require-true _ _ u1 e3)
                                            (require-true _ _ u2 e4) (require-true _ _ u3 e5)
                                            (require-true _ _ u4 e6)
                                            (read_image-sized sha256 upload config.max_input_bytes
                                              image (check_image-decoded _ image e7))
                                            (λ h.
                                              passed (Framed fl spec) _ sized
                                                (choose_size-IsFramed fl spec dims
                                                  (trimmed (text "size") form.fields) h)
                                                e8)

  -- A request that passes the checks: its model is a key of the registry; the prompt is not empty and
  -- not longer than the model allows; the steps, and the seconds, are from 1 to the model's limit; the
  -- guidance is the model's; the frame has 16-aligned sides and is filed under a resolution of the
  -- model; the image is neither empty nor larger than the limit; a connected pod that is not draining
  -- has loaded the model; and fewer jobs are queued than the queue may hold.
  pub admit-Meets :
      (a : Admitted) → admit fl sha256 to_number config body db ≡ pass a → Meets config db a
  admit-Meets a e = passed (Meets config db) _ a admit-Passes e
