-- ===== src/Store/Hydrate/Defaults.antt =====
-- gateway/src/db/jobs.ts, pods.ts and migrations.ts: the row that an INSERT leaves, with the defaults of
-- the table, is the one that the model writes.
use nidora_ai_inference.Base.{
  ℕ, ◌≡◌, refl, sym, ap, ◌∙◌, Option, none, some, [], arith, Str, text, str_eq,
}
use nidora_ai_inference.Domain.Types.{of_nat, read_status, JobEvent}
use nidora_ai_inference.Store.Schema.{Row, insert, jobs_table, pods_table, events_table}
use nidora_ai_inference.Store.Jobs.{NewJob, new_row}
use nidora_ai_inference.Store.Pods.{PodHeartbeat, touched}
use nidora_ai_inference.Store.Hydrate.{
  Codec, Reads, JobRow, hydrate, PodRow, hydrate_pod, job_row, pod_row, create_values, touch_values,
  or_null, characters_of, one_if_set, ◌>>=◌,
}
use nidora_ai_inference.Store.Hydrate.Stored.{set-back}
use nidora_ai_inference.Store.Hydrate.Trail.{kind_name, event_values, EventRow, event_row}

-- The row as it is read, before it is parsed.
abbrev fresh_row : Codec → NewJob → JobRow
fresh_row k n = record {
  id = n.id;
  model = n.model;
  params = k.write_params n.params;
  input_path = some (k.write_path n.input_path);
  input_sha256 = some n.input_sha256;
  input_bytes = some n.input_bytes;
  state = text "queued";
  progress = of_nat 0;
  error = none;
  artifacts = text "[]";
  pod_id = none;
  lease_id = none;
  lease_expires_at = none;
  upstream_id = none;
  attempts = 0;
  cancel_requested = 0;
  cancel_requested_at = none;
  created_at = n.created_at;
  started_at = none;
  finished_at = none;
  deadline_at = n.deadline_at;
}

insert-fresh_row :
    (k : Codec) (n : NewJob)
    → (row : Row) × (insert jobs_table (create_values k n) ≡ some row)
      × (job_row row ≡ some (fresh_row k n))
unfolding insert jobs_table create_values job_row text str_eq
insert-fresh_row k n = (_, refl, refl)

hydrate-fresh_row :
    (k : Codec) (n : NewJob)
    → Reads k n.params (some n.input_path) []
    → k.write_files [] ≡ text "[]"
    → hydrate k (fresh_row k n) ≡ some (new_row n)
unfolding hydrate new_row read_status text str_eq
hydrate-fresh_row k n r w =
    let none_yet : k.read_files (text "[]") ≡ some [] = ap k.read_files (sym w) ∙ r.files_back in
    ground (arith, r.params_back, r.path_back n.input_path refl, none_yet)

-- Where parsing undoes printing for the parameters and the path of a new job, and an empty list of
-- artifacts is printed as `[]`: the INSERT of `create` meets the constraints of the table, and the row
-- that it leaves, with the defaults of the other columns, hydrates to the queued job that the model
-- adds.
pub insert-new_row :
    (k : Codec) (n : NewJob)
    → Reads k n.params (some n.input_path) []
    → k.write_files [] ≡ text "[]"
    → (row : Row) × (insert jobs_table (create_values k n) ≡ some row)
      × ((job_row row >>= hydrate k) ≡ some (new_row n))
insert-new_row k n r w =
    let (row, p, q) = insert-fresh_row k n in (row, p, rw q (hydrate-fresh_row k n r w))

or_null-back : (o : Option Str) → characters_of (or_null o) ≡ o
or_null-back none = refl
or_null-back (some s) = refl

abbrev new_pod_row : PodHeartbeat → ℕ → PodRow
new_pod_row hb now = record {
  pod_id = hb.pod_id;
  session_id = hb.session_id;
  first_seen_at = now;
  last_seen_at = now;
  agent_version = hb.agent_version;
  model_path = hb.model_path;
  lora_path = hb.lora_path;
  gpu = hb.gpu;
  max_in_flight = hb.max_in_flight;
  sglang_ready = one_if_set hb.sglang_ready;
  draining = 0;
  jobs_completed = 0;
  jobs_failed = 0;
}

insert-new_pod_row :
    (hb : PodHeartbeat) (now : ℕ)
    → (row : Row) × (insert pods_table (touch_values hb now) ≡ some row)
      × (pod_row row ≡ some (new_pod_row hb now))
unfolding insert pods_table touch_values pod_row text str_eq
insert-new_pod_row hb now = (
  _,
  refl,
  rw
      (
        or_null-back hb.agent_version,
        or_null-back hb.model_path,
        or_null-back hb.lora_path,
        or_null-back hb.gpu,
      )
      refl,
)

-- The INSERT of `touch` meets the constraints of its table, and the row that it leaves hydrates to the
-- pod that the model adds for a first poll.
pub insert-new_pod :
    (hb : PodHeartbeat) (now : ℕ)
    → (row : Row) × (insert pods_table (touch_values hb now) ≡ some row)
      × ((pod_row row >>= λ r. some (hydrate_pod r)) ≡ some (touched hb now []))
unfolding hydrate_pod touched
insert-new_pod hb now =
    let (row, p, q) = insert-new_pod_row hb now in
    (row, p, rw q (ground (arith, set-back hb.sglang_ready)))

abbrev shown : JobEvent → EventRow
shown e = record { ts = e.ts; kind = kind_name e.kind; pod_id = e.pod_id; detail = e.detail }

-- The INSERT of `addEvent` meets the constraints of its table, and the row that it leaves is shown as the
-- event.
pub insert-event :
    (e : JobEvent)
    → (row : Row) × (insert events_table (event_values e) ≡ some row)
      × (event_row row ≡ some (shown e))
unfolding insert events_table event_values event_row text str_eq
insert-event e = (_, refl, rw (or_null-back e.pod_id, or_null-back e.detail) refl)
