-- ===== src/Tests/Tables.antt =====
-- The codec of the rows and the migrations at concrete inputs.
use nidora_ai_inference.Base.{ℕ, ◌≡◌, refl, true, Option, none, some, List, [], ◌∷◌, All, text}
use nidora_ai_inference.Store.Schema.{Row, insert, jobs_table}
use nidora_ai_inference.Domain.Types.{JobEventKind, JobEvent}
use nidora_ai_inference.Store.Jobs.{NewJob, new_row}
use nidora_ai_inference.Store.Hydrate.{Codec, hydrate, job_row, create_values, ◌>>=◌}
use nidora_ai_inference.Store.Hydrate.Stored.{stored, hydrate-stored}
use nidora_ai_inference.Store.Hydrate.Defaults.{insert-new_row}
use nidora_ai_inference.Store.Migrate.{Migration, Migrated, on_record, ended, migrate}
use nidora_ai_inference.Store.Migrate.Idempotence.{migrate-idempotent}
use nidora_ai_inference.Tests.{video, lease_a, running_job, params, input_file}

-- A codec for the one job.
abbrev codec : Codec
codec = record {
  write_params = λ p. text "{}";
  read_params = λ s. some params;
  write_files = λ fs. text "[]";
  read_files = λ s. some [];
  write_path = λ p. text "/data/inputs/v1/input.png";
  read_path = λ s. some input_file;
}

hydrate-stored_example : hydrate codec (stored codec running_job) ≡ some running_job
unfolding text
hydrate-stored_example =
    hydrate-stored codec running_job
      (record { params_back = refl; path_back = λ p e. e; files_back = refl })

abbrev submitted : NewJob
submitted = record {
  id = video;
  model = text "wan";
  params = params;
  input_path = input_file;
  input_sha256 = lease_a;
  input_bytes = 9;
  created_at = 1000;
  deadline_at = 3601000;
}

insert-new_row_example :
    (row : Row) × (insert jobs_table (create_values codec submitted) ≡ some row)
    × ((job_row row >>= hydrate codec) ≡ some (new_row submitted))
insert-new_row_example =
    insert-new_row codec submitted
      (record { params_back = refl; path_back = λ p e. e; files_back = refl }) refl

-- A schema is the scripts that made it; no script may run twice.
abbrev exec : ℕ → List ℕ → Option (List ℕ)
exec script [] = some (script ∷ [])
exec script (s ∷ ss) = none

abbrev init_only : List (Migration ℕ)
init_only = record { id = 1; name = text "init"; sql = 7 } ∷ []

abbrev blank : Migrated (List ℕ)
blank = record { schema = []; applied = [] }

abbrev made : Migrated (List ℕ)
made = record {
  schema = 7 ∷ [];
  applied = record { id = 1; name = text "init"; applied_at = 5 } ∷ [];
}

migrate-idempotent_example :
    ((id : ℕ) → on_record id blank.applied ≡ true → on_record id made.applied ≡ true)
    × All (λ m. on_record m.id made.applied ≡ true) init_only
    × (migrate exec 9 init_only made ≡ ended made)
unfolding migrate
migrate-idempotent_example = migrate-idempotent exec 5 9 init_only blank made refl

abbrev noted : JobEvent
noted = record {
  job_id = video;
  ts = 3000;
  kind = JobEventKind.assigned;
  pod_id = some lease_a;
  detail = none;
}
