-- ===== src/Store/Hydrate/Stored.antt =====
-- gateway/src/db/jobs.ts and pods.ts: a row that holds a job or a pod reads back as it.
use nidora_ai_inference.Base.{
  ◌==◌, ◌≡◌, refl, Bool, true, false, Option, none, some, arith, Str, str_eq, text,
}
use nidora_ai_inference.Domain.Types.{
  VideoStatus, queued, in_progress, completed, failed, cancelled, status_name, read_status,
  FilePath, Job,
}
use nidora_ai_inference.Store.Hydrate.{Codec, Reads, JobRow, hydrate, path_or_null, one_if_set}

read_status-status_name : (s : VideoStatus) → read_status (status_name s) ≡ some s
unfolding read_status status_name str_eq text
read_status-status_name queued = refl
read_status-status_name in_progress = refl
read_status-status_name completed = refl
read_status-status_name failed = refl
read_status-status_name cancelled = refl

written_path : Codec → Option FilePath → Option Str
written_path k none = none
written_path k (some p) = some (k.write_path p)

path_or_null-written_path :
    (k : Codec) (o : Option FilePath)
    → ((p : FilePath) → o ≡ some p → k.read_path (k.write_path p) ≡ some p)
    → path_or_null k (written_path k o) ≡ some o
unfolding written_path
path_or_null-written_path k none back = refl
path_or_null-written_path k (some p) back = rw (back p refl) refl

-- The row that holds a job: states and booleans as the statements write them, the rest as JSON or as it
-- is.
unfoldable pub stored : Codec → Job → JobRow
unfolding written_path
stored k j = record {
  id = j.id;
  model = j.model;
  input_sha256 = j.input_sha256;
  input_bytes = j.input_bytes;
  progress = j.progress;
  error = j.error;
  pod_id = j.pod_id;
  lease_id = j.lease_id;
  lease_expires_at = j.lease_expires_at;
  upstream_id = j.upstream_id;
  attempts = j.attempts;
  cancel_requested_at = j.cancel_requested_at;
  created_at = j.created_at;
  started_at = j.started_at;
  finished_at = j.finished_at;
  deadline_at = j.deadline_at;
  params = k.write_params j.params;
  input_path = written_path k j.input_path;
  state = status_name j.state;
  artifacts = k.write_files j.artifacts;
  cancel_requested = one_if_set j.cancel_requested;
}

pub set-back : (b : Bool) → (one_if_set b == 1) ≡ b
set-back true = refl
set-back false = refl

-- Where parsing undoes printing for the parameters, the input path and the artifacts of a job, the row
-- that holds the job hydrates to it, in each of the five states.
pub hydrate-stored :
    (k : Codec) (j : Job)
    → Reads k j.params j.input_path j.artifacts
    → hydrate k (stored k j) ≡ some j
unfolding hydrate stored
hydrate-stored k j r = ground (
  arith,
  read_status-status_name j.state,
  r.params_back,
  path_or_null-written_path k j.input_path r.path_back,
  r.files_back,
  set-back j.cancel_requested,
)
