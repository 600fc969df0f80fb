-- ===== src/Domain/Errors.antt =====
-- gateway/src/domain/errors.ts: the one error envelope. The human-readable message is left out; a
-- code of the source is a constructor.
use nidora_ai_inference.Base.{ℕ, ◌||◌, Option, leb, ◌==◌, if◌then◌else◌, Str}

pub data ErrorType : Type 0 where
  invalid_request_error authentication_error not_found_error server_error : ErrorType

pub data ErrorCode : Type 0 where
  missing_parameter video_not_found stale_lease input_expired invalid_filename artifact_too_large
        checksum_mismatch unsupported_media_type input_too_large model_not_found prompt_too_long
        no_capacity queue_full invalid_image invalid_size invalid_status already_finished
        content_expired content_not_ready content_not_found pod_not_found invalid_api_key
        invalid_agent_secret internal_error :
      ErrorCode

pub record ApiError : Type 0 where
  pub type : ErrorType
  pub code : Option ErrorCode
  pub param : Option Str

unfoldable pub type_for : ℕ → ErrorType
type_for status =
    if status == 401 || status == 403
    then authentication_error
    else if status == 404
    then not_found_error
    else if leb 500 status || status == 503
    then server_error
    else invalid_request_error

unfoldable pub api_error : ℕ → Option ErrorCode → Option Str → ApiError
unfolding type_for
api_error status code param = record { type = type_for status; code = code; param = param }
