-- ===== src/Tests.antt =====
-- The data of the tests: one job, one pod, one runtime, and what is sent to them.
mod Jobs
mod Requests
mod Domain
mod Process
mod Tables
mod Submissions
mod Starts
use nidora_ai_inference.Base.{
  ℕ, suc, ◌-◌, ◌*◌, ◌≡◌, refl, ◌≢◌, true, false, none, some, List, [], ◌∷◌, arith, ltb, length, Str,
  text, truthy,
}
use nidora_ai_inference.Domain.Types.{
  queued, completed, of_nat, p480, JobParams, Artifact, FilePath, inputs, Job, Pod,
}
use nidora_ai_inference.Domain.Models.{wan22_id}
use nidora_ai_inference.Domain.Sizing.{Floats, Sized}
use nidora_ai_inference.Store.Db.{Db}
use nidora_ai_inference.Store.Jobs.{claimed_row}
use nidora_ai_inference.Store.Pods
use nidora_ai_inference.Store.Pods.{PodHeartbeat}
use nidora_ai_inference.Store.Invariant.{IsSound}
use nidora_ai_inference.Scheduler.Config.{Config}
use nidora_ai_inference.Routes.State.{Gateway}
use nidora_ai_inference.Routes.Agent.Poll.{PollBody}
use nidora_ai_inference.Routes.Agent.Files.{input}
use nidora_ai_inference.Routes.Agent.Result.{ResultBody, missing}
use nidora_ai_inference.Routes.Videos.Create.{not_multipart}
use nidora_ai_inference.Store.Jobs.{completed_row}
use nidora_ai_inference.Routes.State.{Upload}
use nidora_ai_inference.Auth.{Headers}
use nidora_ai_inference.Gateway.{Event, Runtime, polls, submits, sweeps, passes, restarts}
use nidora_ai_inference.Gateway.Soundness.{IsUsable}

abbrev video : Str
video = b'v' ∷ b'1' ∷ []

abbrev lease_a : Str
lease_a = b'a' ∷ []

abbrev lease_b : Str
lease_b = b'b' ∷ []

abbrev pod_name : Str
pod_name = b'p' ∷ []

abbrev settings : Config
settings = record {
  lease_ttl_ms = 90000;
  max_poll_wait_ms = 25000;
  job_ttl_ms = 3600000;
  max_attempts = 3;
  cancel_grace_ms = 60000;
  pod_stale_ms = 120000;
  artifact_ttl_ms = 86400000;
  job_retention_ms = 604800000;
  max_input_bytes = 20000000;
  max_artifact_bytes = 500000000;
  max_queue_depth = 200;
}

abbrev params : JobParams
params = record {
  prompt = b'c' ∷ [];
  negative_prompt = [];
  resolution = p480;
  size = text "480x832";
  seconds = of_nat 5;
  num_inference_steps = 4;
  guidance_scale = of_nat 1;
  seed = none;
}

abbrev waiting_job : Job
waiting_job = record {
  id = video;
  model = wan22_id;
  params = params;
  input_path = some (record { area = inputs; job_id = video; name = text "input.png" });
  input_sha256 = some lease_a;
  input_bytes = some 9;
  state = queued;
  progress = of_nat 0;
  error = none;
  artifacts = [];
  pod_id = none;
  lease_id = none;
  lease_expires_at = none;
  upstream_id = none;
  attempts = 0;
  cancel_requested = false;
  cancel_requested_at = none;
  created_at = 1000;
  started_at = none;
  finished_at = none;
  deadline_at = 3601000;
}

-- The same job in the hands of the pod, until 92000.
abbrev running_job : Job
running_job = claimed_row pod_name lease_a 92000 2000 waiting_job

abbrev pod : Pod
pod = record {
  pod_id = pod_name;
  session_id = lease_a;
  first_seen_at = 500;
  last_seen_at = 900;
  agent_version = none;
  model_path = some wan22_id;
  lora_path = none;
  gpu = none;
  max_in_flight = 1;
  sglang_ready = true;
  draining = true;
  jobs_completed = 7;
  jobs_failed = 2;
}

abbrev db_waiting : Db
db_waiting = record {
  jobs = waiting_job ∷ [];
  events = [];
  pods = pod ∷ [];
  clock = 2000;
  drawn = 0;
}

abbrev db_running : Db
db_running = record {
  jobs = running_job ∷ [];
  events = [];
  pods = pod ∷ [];
  clock = 95000;
  drawn = 1;
}

abbrev site : Gateway
site = record { db = db_running; disk = []; waiting = []; woken = []; uploads = [] }

abbrev done_body : ResultBody
done_body = record {
  state = some (text "completed");
  error = none;
  retryable = false;
  filename = missing;
  bytes = some (of_nat 9);
  sha256 = none;
}

abbrev uuid : ℕ → Str
uuid n = suc n ∷ []

uuid-truthy : (n : ℕ) → truthy (uuid n) ≡ true
uuid-truthy n = refl

abbrev naturals : Floats
naturals = record {
  Float = ℕ;
  from_nat = λ n. n;
  times = λ a b. a * b;
  over = λ a b. a;
  sqrt = λ a. a;
  above = λ a b. ltb b a;
  round = λ a. a;
}

abbrev runtime : Runtime
runtime = record {
  uuid = uuid;
  random_bytes = λ n. 0 ∷ 1 ∷ 2 ∷ 171 ∷ 254 ∷ n ∷ [];
  sha256 = λ bytes. length bytes ∷ [];
  to_number = λ s. none;
  floats = naturals;
}

runtime-IsUsable : IsUsable runtime settings
runtime-IsUsable = record { named = uuid-truthy; some_attempt = ground arith }

waiting-IsSound : IsSound 3 db_waiting.jobs
waiting-IsSound = record { coherent = (ground arith, tt); distinct = (refl, tt) }

running-IsSound : IsSound 3 db_running.jobs
running-IsSound = record { coherent = (ground arith, tt); distinct = (refl, tt) }

other_lease : running_job.lease_id ≢ some lease_b
other_lease e = ground arith

-- A submission that is no form, a poll, a pause, a sweep, and a restart.
abbrev idle_poll : PollBody
idle_poll = record {
  pod_id = some pod_name;
  agent_version = none;
  max_in_flight = some (of_nat 1);
  model_path = some wan22_id;
  lora_path = none;
  gpu = none;
  sglang_ready = true;
  in_flight = [];
  wait_s = none;
}

abbrev history : List Event
history = submits not_multipart ∷ polls idle_poll ∷ passes 5000 ∷ sweeps ∷ restarts ∷ []

-- The client has asked for the cancel; the pod is gone.
abbrev abandoned_job : Job
abandoned_job = record running_job { cancel_requested = true; cancel_requested_at = some 90000 }

abbrev frame_480 : Sized
frame_480 = record { size = text "480x832"; resolution = p480 }

abbrev beat : PodHeartbeat
beat = record {
  pod_id = pod_name;
  session_id = lease_b;
  agent_version = none;
  model_path = none;
  lora_path = none;
  gpu = none;
  max_in_flight = 1;
  sglang_ready = false;
}

abbrev stream : List (List ℕ)
stream = (1 ∷ 2 ∷ []) ∷ (3 ∷ []) ∷ []

abbrev upload : Upload
upload = record { job = running_job; filename = text "output.mp4" }

abbrev input_file : FilePath
input_file = record { area = inputs; job_id = video; name = text "input.png" }

abbrev media : Artifact
media = record {
  media_type = text "video/mp4";
  filename = text "output.mp4";
  bytes = none;
  sha256 = none;
}

-- The job that another pod has finished while the upload was open.
abbrev finished_job : Job
finished_job = completed_row (media ∷ []) 93000 running_job

abbrev finished_site : Gateway
finished_site = record site { db = record db_running { jobs = finished_job ∷ [] } }

-- A client key in the bearer token, and an operator who has to have a key of his own.
abbrev credentials : Headers
credentials = record {
  x_api_key = none;
  authorization = some (text "Bearer k1");
  x_agent_secret = none;
  x_admin_key = none;
}

abbrev client_keys : List Str
client_keys = text "k0" ∷ text "k1" ∷ []

abbrev operator_keys : List Str
operator_keys = text "root" ∷ []
