-- ===== src/Tests/Submissions.antt =====
-- Submissions at a gateway with one pod that is ready and parked.
use nidora_ai_inference.Base.{
  ℕ, ◌≡◌, refl, true, false, none, some, List, [], ◌∷◌, Str, text, str_eq, decimal, count_where,
  order_by_desc, select_where, ◌⊎◌, drop, length,
}
use nidora_ai_inference.Domain.Types.{of_nat, p480, Pod}
use nidora_ai_inference.Domain.Models.{
  wan22_id, wan22_negative_prompt, get_model, resolve_model_id, lookup_model, find_key, models,
  model_key,
}
use nidora_ai_inference.Domain.Sizing.{
  trim, check_size, read_resolution, pixel_budget, max_dimension,
}
use nidora_ai_inference.Domain.Probe.{probe_dimensions}
use nidora_ai_inference.Store.Pods.{list_connected, pod_model}
use nidora_ai_inference.Store.Queries.{counts}
use nidora_ai_inference.Domain.Inputs.{png, read_image, extension_of, media_type_of}
use nidora_ai_inference.Routes.State.{Parked, Gateway}
use nidora_ai_inference.Routes.Videos.Params.{
  file, field, read_upload, lookup_field, trimmed, job_params,
}
use nidora_ai_inference.Routes.Videos.Create.{
  pass, Body, parts, Admitted, has_capacity, has_room, choose_size, admit,
}
use nidora_ai_inference.Domain.Filenames.{is_safe_filename}
use nidora_ai_inference.Artifacts.{artifact_path, resolve_artifact}
use nidora_ai_inference.Routes.Agent.Poll.{poll_woken}
use nidora_ai_inference.Routes.Videos.Create.Admission.{Meets, admit-Meets}
use nidora_ai_inference.Routes.Videos.Create.Submission.{
  Refused, Queued, Taken, create_video-outcome,
}
use nidora_ai_inference.Gateway.{submits, resumes, step}
use nidora_ai_inference.Gateway.{run, uploads, arrives, reports}
use nidora_ai_inference.Gateway.Journey.{Delivered, video-Delivered}
use nidora_ai_inference.Artifacts.{stream_body}
use nidora_ai_inference.Routes.Agent.Result.{safe_name}
use nidora_ai_inference.Tests.{stream, done_body}
use nidora_ai_inference.Gateway.Dispatch.{Dispatched, submit-Dispatched}
use nidora_ai_inference.Ids.{new_video_id, new_lease_id}
use nidora_ai_inference.Ids.Shape.{unhex, new_video_id-Names}
use nidora_ai_inference.Base.{arith}
use nidora_ai_inference.Tests.{settings, pod, runtime, runtime-IsUsable}

-- The header of a PNG of 832 by 480.
abbrev header : List ℕ
header =
    0x89 ∷ 0x50 ∷ 0x4e ∷ 0x47 ∷ 0x0d ∷ 0x0a ∷ 0x1a ∷ 0x0a ∷ 0 ∷ 0 ∷ 0 ∷ 13 ∷ 73 ∷ 72 ∷ 68 ∷ 82 ∷ 0
    ∷ 0 ∷ 3 ∷ 64 ∷ 0 ∷ 0 ∷ 1 ∷ 224 ∷ []

abbrev form : Body
form = parts (
    field (text "model") (text "wan2.2-i2v-a14b-diffusers")
    ∷ field (text "prompt") (text " a cat ")
    ∷ field (text "size") (text "832x480")
    ∷ file (text "input_reference") header
    ∷ [])

abbrev ready_pod : Pod
ready_pod = record pod { draining = false }

abbrev parked_poll : Parked
parked_poll = record { pod = ready_pod; slots = 1; cancel = []; orphan = [] }

abbrev open_site : Gateway
open_site = record {
  db = record { jobs = []; events = []; pods = ready_pod ∷ []; clock = 2000; drawn = 0 };
  disk = [];
  waiting = parked_poll ∷ [];
  woken = [];
  uploads = [];
}

abbrev admitted : Admitted
admitted = record {
  model = wan22_id;
  params = record {
    prompt = text "a cat";
    negative_prompt = wan22_negative_prompt;
    resolution = p480;
    size = text "832x480";
    seconds = of_nat 5;
    num_inference_steps = 4;
    guidance_scale = of_nat 1;
    seed = none;
  };
  image = record {
    bytes = header;
    format = png;
    extension = text "png";
    media_type = text "image/png";
    sha256 = 24 ∷ [];
  };
}

form-admitted :
    admit runtime.floats runtime.sha256 runtime.to_number settings form open_site.db ≡ pass admitted
unfolding admit read_upload lookup_field trimmed trim text str_eq get_model resolve_model_id
    lookup_model find_key models model_key wan22_id has_capacity has_room list_connected counts
    count_where read_image probe_dimensions choose_size check_size read_resolution job_params
    decimal order_by_desc select_where pod_model pixel_budget max_dimension extension_of
    media_type_of
form-admitted = refl

create_video-outcome_example :
    Refused runtime.floats runtime.sha256 runtime.to_number runtime.random_bytes settings form
      open_site
    ⊎ (Queued runtime.floats runtime.sha256 runtime.to_number runtime.random_bytes settings form
          open_site
        ⊎ Taken runtime.floats runtime.sha256 runtime.to_number runtime.random_bytes settings form
            open_site)
create_video-outcome_example =
    create_video-outcome runtime.floats runtime.sha256 runtime.to_number runtime.random_bytes
      settings form open_site

admit-Meets_example : Meets settings open_site.db admitted
admit-Meets_example =
    admit-Meets runtime.floats runtime.sha256 runtime.to_number settings form open_site.db admitted
      form-admitted

submit-Dispatched_example :
    let woken : Gateway = record (step runtime settings (submits form) open_site) { woken = [] } in
    let (g', answer) = poll_woken runtime.uuid settings parked_poll woken in
    (step runtime settings resumes (step runtime settings (submits form) open_site) ≡ g')
    × (g'.uploads ≡ [])
    × Dispatched runtime settings parked_poll
        (new_video_id (runtime.random_bytes 0))
        (new_lease_id runtime.uuid 1)
        g'
        answer
unfolding counts count_where pod_model wan22_id text resolve_model_id lookup_model models str_eq
submit-Dispatched_example =
    submit-Dispatched runtime settings runtime-IsUsable form open_site admitted parked_poll []
      (record { coherent = tt; distinct = tt }) form-admitted refl refl refl refl refl (omega arith)

-- Six bytes of a draw.
abbrev draw : List ℕ
draw = 0 ∷ 1 ∷ 2 ∷ 171 ∷ 254 ∷ 9 ∷ []

new_video_id-Names_example :
    let id = new_video_id draw in
    (length id ≡ 18)
    × (unhex (drop 6 id) ≡ draw)
    × (is_safe_filename id ≡ true)
    × ((filename : Str)
        → is_safe_filename filename ≡ true
        → resolve_artifact id filename ≡ some (artifact_path id filename))
new_video_id-Names_example =
    new_video_id-Names draw refl
      (omega arith, (omega arith, (omega arith, (omega arith, (omega arith, (omega arith, tt))))))

-- The pod sends three bytes in two chunks, and no hash.
video-Delivered_example :
    Delivered runtime settings runtime-IsUsable
      (new_video_id (runtime.random_bytes 0))
      (text "output.mp4")
      (1 ∷ 2 ∷ 3 ∷ [])
      (run runtime settings
        (submits form
          ∷ resumes
          ∷ uploads
              (new_video_id (runtime.random_bytes 0))
              (new_lease_id runtime.uuid 1)
              (some (text "output.mp4"))
              none
          ∷ arrives 0 stream none
          ∷ reports (new_video_id (runtime.random_bytes 0)) (new_lease_id runtime.uuid 1) done_body
          ∷ [])
        open_site)
unfolding counts count_where pod_model wan22_id text resolve_model_id lookup_model models str_eq
    is_safe_filename stream_body safe_name
video-Delivered_example =
    video-Delivered runtime settings runtime-IsUsable form open_site admitted parked_poll []
      (text "output.mp4") none stream none (1 ∷ 2 ∷ 3 ∷ []) done_body
      (record { coherent = tt; distinct = tt }) form-admitted refl
      (omega arith, (omega arith, (omega arith, (omega arith, (omega arith, (omega arith, tt))))))
      refl refl refl refl refl (omega arith) refl refl refl refl refl refl
