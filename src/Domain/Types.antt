-- ===== src/Domain/Types.antt =====
-- gateway/src/domain/types.ts: the rows of the tables, with their JSON columns decoded. Times are
-- unix milliseconds as natural numbers.
use nidora_ai_inference.Base.{
  ℕ, ◌^◌, Bool, true, false, not, ◌&&◌, ◌||◌, Option, none, some, List, Str, text, str_eq, leb,
  if◌then◌else◌,
}

-- VIDEO_STATUSES.
pub data VideoStatus : Type 0 where
  queued in_progress completed failed cancelled : VideoStatus

-- The string of a status, as stored and sent.
unfoldable pub status_name : VideoStatus → Str
status_name queued = text "queued"
status_name in_progress = text "in_progress"
status_name completed = text "completed"
status_name failed = text "failed"
status_name cancelled = text "cancelled"

abbrev pub is_queued : VideoStatus → Bool
is_queued queued = true
is_queued _ = false

abbrev pub is_in_progress : VideoStatus → Bool
is_in_progress in_progress = true
is_in_progress _ = false

abbrev pub is_completed : VideoStatus → Bool
is_completed completed = true
is_completed _ = false

-- `TERMINAL_STATES.includes(state)`.
abbrev pub is_terminal : VideoStatus → Bool
is_terminal completed = true
is_terminal failed = true
is_terminal cancelled = true
is_terminal _ = false

-- state IN ('queued', 'in_progress').
abbrev pub is_active : VideoStatus → Bool
is_active s = is_queued s || is_in_progress s

-- Equality of two statuses, `state = ?`.
abbrev pub same_status : VideoStatus → VideoStatus → Bool
same_status queued s = is_queued s
same_status in_progress s = is_in_progress s
same_status completed completed = true
same_status completed _ = false
same_status failed failed = true
same_status failed _ = false
same_status cancelled cancelled = true
same_status cancelled _ = false

-- `isVideoStatus` of a string, with the status that it names.
unfoldable pub read_status : Str → Option VideoStatus
read_status s =
    if str_eq s (text "queued")
    then some queued
    else if str_eq s (text "in_progress")
    then some in_progress
    else if str_eq s (text "completed")
    then some completed
    else if str_eq s (text "failed")
    then some failed
    else if str_eq s (text "cancelled")
    then some cancelled
    else none

-- A finite double: plus or minus num / 2 ^ scale.
pub record Number : Type 0 where
  pub negative : Bool
  pub num : ℕ
  pub scale : ℕ

abbrev pub of_nat : ℕ → Number
of_nat n = record { negative = false; num = n; scale = 0 }

-- `0 <= x && x <= 1`; the minus of a zero does not count.
unfoldable pub in_unit_range : Number → Bool
in_unit_range x = (not x.negative || leb x.num 0) && (leb x.num (2 ^ x.scale) || x.negative)

pub data Resolution : Type 0 where
  p480 p720 : Resolution

-- `guidance_scale` is never computed with: it is the registry's default.
pub record JobParams : Type 0 where
  pub prompt : Str
  pub negative_prompt : Str
  pub resolution : Resolution
  pub size : Str
  pub seconds : Number
  pub num_inference_steps : ℕ
  pub guidance_scale : Number
  pub seed : Option Number

pub record Artifact : Type 0 where
  pub media_type : Str
  pub filename : Str
  pub bytes : Option Number
  pub sha256 : Option Str

pub data Area : Type 0 where
  inputs artifacts : Area

-- `<dataDir>/<area>/<jobId>/<name>`.
pub record FilePath : Type 0 where
  pub area : Area
  pub job_id : Str
  pub name : Str

pub record Job : Type 0 where
  pub id : Str
  pub model : Str
  pub params : JobParams
  pub input_path : Option FilePath
  pub input_sha256 : Option Str
  pub input_bytes : Option ℕ
  pub state : VideoStatus
  pub progress : Number
  pub error : Option Str
  pub artifacts : List Artifact
  pub pod_id : Option Str
  pub lease_id : Option Str
  pub lease_expires_at : Option ℕ
  pub upstream_id : Option Str
  pub attempts : ℕ
  pub cancel_requested : Bool
  pub cancel_requested_at : Option ℕ
  pub created_at : ℕ
  pub started_at : Option ℕ
  pub finished_at : Option ℕ
  pub deadline_at : ℕ

-- A row of `pods`; the column-free field `model` of the source is `pod_model` of Store.Pods.
pub record Pod : Type 0 where
  pub pod_id : Str
  pub session_id : Str
  pub first_seen_at : ℕ
  pub last_seen_at : ℕ
  pub agent_version : Option Str
  pub model_path : Option Str
  pub lora_path : Option Str
  pub gpu : Option Str
  pub max_in_flight : ℕ
  pub sglang_ready : Bool
  pub draining : Bool
  pub jobs_completed : ℕ
  pub jobs_failed : ℕ

pub data JobEventKind : Type 0 where
  created assigned progress uploaded completed failed requeued lease_expired deadline_exceeded
        cancel_requested cancelled recovered :
      JobEventKind

-- A row of `job_events`.
pub record JobEvent : Type 0 where
  pub job_id : Str
  pub ts : ℕ
  pub kind : JobEventKind
  pub pod_id : Option Str
  pub detail : Option Str
