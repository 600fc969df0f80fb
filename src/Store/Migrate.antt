-- ===== src/Store/Migrate.antt =====
-- gateway/src/db/sqlite.ts: the runner of the migrations. What a script does to the schema is SQLite's:
-- the section's parameter.
pub mod Idempotence
use nidora_ai_inference.Base.{
  ℕ, ◌==◌, Bool, if◌then◌else◌, Option, none, some, List, [], ◌∷◌, ◌++◌, any, Str,
}

pub record Migration {ℓ} (Sql : Type ℓ) : Type ℓ where
  pub id : ℕ
  pub name : Str
  pub sql : Sql

-- A row of `schema_migrations`.
pub record Applied : Type 0 where
  pub id : ℕ
  pub name : Str
  pub applied_at : ℕ

-- The database: its schema, and the migrations on record.
pub record Migrated {ℓ} (Schema : Type ℓ) : Type ℓ where
  pub schema : Schema
  pub applied : List Applied

abbrev pub is_id : ℕ → Applied → Bool
is_id id a = a.id == id

abbrev pub on_record : ℕ → List Applied → Bool
on_record id = any (is_id id)

-- What the runner comes to; `failed` is an exception, with what was committed before it.
pub data Run {ℓ} (Schema : Type ℓ) : Type ℓ where
  ended failed : Migrated Schema → Run Schema

module _ {ℓ κ} {Sql : Type ℓ} {Schema : Type κ} (exec : Sql → Schema → Option Schema)
    (now : ℕ) where
  -- One transaction: the script, then the record, whose id is the primary key. `none` is the rollback.
  unfoldable pub apply_one : Migration Sql → Migrated Schema → Option (Migrated Schema)
  apply_one m db = elim (exec m.sql db.schema) [
    | none ↦ none
    | some schema ↦
        if on_record m.id db.applied
        then none
        else some (record {
          schema = schema;
          applied = db.applied ++ record { id = m.id; name = m.name; applied_at = now } ∷ [];
        })
  ]

  -- The loop; `before` are the migrations on record when it starts.
  unfoldable pub apply_all : List Applied → List (Migration Sql) → Migrated Schema → Run Schema
  unfolding apply_one
  apply_all before [] db = ended db
  apply_all before (m ∷ ms) db =
      let skip = apply_all before ms db in
      let step : Run Schema = elim (apply_one m db) [
        | none ↦ failed db
        | some db' ↦ apply_all before ms db'
      ] in
      if on_record m.id before then skip else step

  unfoldable pub migrate : List (Migration Sql) → Migrated Schema → Run Schema
  unfolding apply_all
  migrate ms db = apply_all db.applied ms db
