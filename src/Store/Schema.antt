-- ===== src/Store/Schema.antt =====
-- gateway/src/db/migrations.ts: the tables of the migration `init`, as data, and what an INSERT makes of
-- their defaults and constraints. The indices are left out: they change no result.
use nidora_ai_inference.Base.{
  ℕ, Bool, true, false, ◌&&◌, if◌then◌else◌, Option, none, some, List, [], ◌∷◌, Str, text, str_eq,
}
use nidora_ai_inference.Domain.Types.{Number, of_nat}

pub data SqlType : Type 0 where
  text_type integer_type real_type : SqlType

-- What a column holds: the driver binds a number as a REAL, which an INTEGER column converts.
pub data SqlValue : Type 0 where
  null : SqlValue
  integer : ℕ → SqlValue
  real : Number → SqlValue
  characters : Str → SqlValue

-- A column with its constraints. A default is a value; without one it is NULL.
pub record Column : Type 0 where
  pub name : Str
  pub type : SqlType
  pub not_null : Bool
  pub default : SqlValue

-- A row, and the values that an INSERT names: columns with their values.
abbrev pub Row : Type 0
Row = List (Str × SqlValue)

unfoldable pub value_of : Str → Row → SqlValue
value_of name [] = null
value_of name ((k, v) ∷ row) = let rest = value_of name row in if str_eq k name then v else rest

unfoldable pub names_column : Str → Row → Bool
names_column name [] = false
names_column name ((k, v) ∷ row) =
    let rest = names_column name row in if str_eq k name then true else rest

abbrev is_null : SqlValue → Bool
is_null null = true
is_null _ = false

abbrev add_value : Str → SqlValue → Option Row → Option Row
add_value name v none = none
add_value name v (some row) = some ((name, v) ∷ row)

-- What the column holds after an INSERT of the values.
abbrev inserted_value : Row → Column → SqlValue
inserted_value given c = if names_column c.name given then value_of c.name given else c.default

-- INSERT INTO a table; `none` is a NOT NULL constraint that fails.
unfoldable pub insert : List Column → Row → Option Row
unfolding value_of names_column
insert [] given = some []
insert (c ∷ cs) given =
    let v = inserted_value given c in
    let rest = insert cs given in if c.not_null && is_null v then none else add_value c.name v rest

abbrev required : Str → SqlType → Column
required name type = record { name = name; type = type; not_null = true; default = null }

abbrev nullable : Str → SqlType → Column
nullable name type = record { name = name; type = type; not_null = false; default = null }

abbrev defaulting : Str → SqlType → SqlValue → Column
defaulting name type v = record { name = name; type = type; not_null = true; default = v }

-- CREATE TABLE jobs. The primary key is TEXT, which SQLite lets be NULL.
unfoldable pub jobs_table : List Column
jobs_table =
    nullable (text "id") text_type
    ∷ required (text "model") text_type
    ∷ required (text "params") text_type
    ∷ nullable (text "input_path") text_type
    ∷ nullable (text "input_sha256") text_type
    ∷ nullable (text "input_bytes") integer_type
    ∷ required (text "state") text_type
    ∷ defaulting (text "progress") real_type (real (of_nat 0))
    ∷ nullable (text "error") text_type
    ∷ defaulting (text "artifacts") text_type (characters (text "[]"))
    ∷ nullable (text "pod_id") text_type
    ∷ nullable (text "lease_id") text_type
    ∷ nullable (text "lease_expires_at") integer_type
    ∷ nullable (text "upstream_id") text_type
    ∷ defaulting (text "attempts") integer_type (integer 0)
    ∷ defaulting (text "cancel_requested") integer_type (integer 0)
    ∷ nullable (text "cancel_requested_at") integer_type
    ∷ required (text "created_at") integer_type
    ∷ nullable (text "started_at") integer_type
    ∷ nullable (text "finished_at") integer_type
    ∷ required (text "deadline_at") integer_type
    ∷ []

-- CREATE TABLE pods.
unfoldable pub pods_table : List Column
pods_table =
    nullable (text "pod_id") text_type
    ∷ required (text "session_id") text_type
    ∷ required (text "first_seen_at") integer_type
    ∷ required (text "last_seen_at") integer_type
    ∷ nullable (text "agent_version") text_type
    ∷ nullable (text "model_path") text_type
    ∷ nullable (text "lora_path") text_type
    ∷ nullable (text "gpu") text_type
    ∷ defaulting (text "max_in_flight") integer_type (integer 1)
    ∷ defaulting (text "sglang_ready") integer_type (integer 0)
    ∷ defaulting (text "draining") integer_type (integer 0)
    ∷ defaulting (text "jobs_completed") integer_type (integer 0)
    ∷ defaulting (text "jobs_failed") integer_type (integer 0)
    ∷ []

-- CREATE TABLE job_events but for its key `id`, which SQLite numbers by itself and which nothing reads.
unfoldable pub events_table : List Column
events_table =
    required (text "job_id") text_type
    ∷ required (text "ts") integer_type
    ∷ required (text "kind") text_type
    ∷ nullable (text "pod_id") text_type
    ∷ nullable (text "detail") text_type
    ∷ []
