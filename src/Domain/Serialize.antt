-- ===== src/Domain/Serialize.antt =====
-- gateway/src/domain/serialize.ts and the VideoResponse of gateway/src/domain/types.ts.
use nidora_ai_inference.Base.{ℕ, ◌+◌, ◌*◌, ◌/◌, ◌^◌, Option, none, some, [], ◌∷◌, Str}
use nidora_ai_inference.Domain.Types.{VideoStatus, completed, Number, Job}

-- The object of an error is its message; the code is always `generation_failed`, and `object` is
-- always `video`.
pub record VideoResponse : Type 0 where
  pub id : Str
  pub model : Str
  pub status : VideoStatus
  pub progress : ℕ
  pub created_at : ℕ
  pub completed_at : Option ℕ
  pub expires_at : Option ℕ
  pub size : Str
  pub seconds : Number
  pub error : Option Str
  pub pod_id : Option Str
  pub attempts : ℕ
  pub queue_position : Option ℕ

abbrev pub seconds_of : ℕ → ℕ
seconds_of ms = ms / 1000

abbrev pub seconds_null : Option ℕ → Option ℕ
seconds_null none = none
seconds_null (some ms) = some (seconds_of ms)

-- `Math.round(progress * 100)`, a tie upwards, with the product taken exactly. A progress below 0 is
-- never stored.
unfoldable pub percent : Number → ℕ
percent p = (200 * p.num + 2 ^ p.scale) / (2 * 2 ^ p.scale)

-- The empty string is falsy.
abbrev shown_error : Option Str → Option Str
shown_error none = none
shown_error (some []) = none
shown_error (some (c ∷ cs)) = some (c ∷ cs)

abbrev expiry : VideoStatus → Option ℕ → ℕ → Option ℕ
expiry completed (some t) ttl = some (seconds_of (t + ttl))
expiry completed none ttl = none
expiry _ t ttl = none

unfoldable pub to_video_response : Job → Option ℕ → ℕ → VideoResponse
unfolding percent
to_video_response job queue_position artifact_ttl_ms = record {
  id = job.id;
  model = job.model;
  status = job.state;
  progress = percent job.progress;
  created_at = seconds_of job.created_at;
  completed_at = seconds_null job.finished_at;
  expires_at = expiry job.state job.finished_at artifact_ttl_ms;
  size = job.params.size;
  seconds = job.params.seconds;
  error = shown_error job.error;
  pod_id = job.pod_id;
  attempts = job.attempts;
  queue_position = queue_position;
}
