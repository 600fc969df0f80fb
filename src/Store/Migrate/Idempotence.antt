-- ===== src/Store/Migrate/Idempotence.antt =====
-- gateway/src/db/sqlite.ts: a run that ends has put every migration on record, and another run changes
-- nothing.
use nidora_ai_inference.Base.{
  ℕ, ◌≡◌, refl, ◌∙◌, subst, Bool, true, ◌||◌, if-elim, Option, none, some, List, [], ◌∷◌, ◌++◌, any,
  All, All-map, arith,
}
use nidora_ai_inference.Store.Migrate.{
  Migration, Applied, Migrated, is_id, on_record, Run, ended, failed, apply_one, apply_all, migrate,
}

any-append : (p : Applied → Bool) (xs ys : List Applied) → any p (xs ++ ys) ≡ (any p xs || any p ys)
any-append p [] ys = refl
any-append p (x ∷ xs) ys = ground (arith, any-append p xs ys)

module _ {ℓ κ} {Sql : Type ℓ} {Schema : Type κ} (exec : Sql → Schema → Option Schema)
    (now : ℕ) where
  -- What a run comes to: the records that were there are kept, and if it ends, each migration is on
  -- record.
  abbrev Records : List Applied → List Applied → List (Migration Sql) → Run Schema → Type 0
  Records before old ms (failed db) = Unit
  Records before old ms (ended db) =
      ((id : ℕ) → on_record id old ≡ true → on_record id db.applied ≡ true)
      × All (λ m. (on_record m.id before || on_record m.id db.applied) ≡ true) ms

  abbrev Keeps : List Applied → List Applied → Type 0
  Keeps old new = (id : ℕ) → on_record id old ≡ true → on_record id new ≡ true

  Records-skip :
      (before old : List Applied) (m : Migration Sql) (ms : List (Migration Sql)) (r : Run Schema)
      → on_record m.id before ≡ true
      → Records before old ms r
      → Records before old (m ∷ ms) r
  Records-skip before old m ms (failed db) e h = tt
  Records-skip before old m ms (ended db) e (keep, all) = (keep, (ground (arith, e), all))

  Records-step :
      (before old new : List Applied) (m : Migration Sql) (ms : List (Migration Sql))
      (r : Run Schema)
      → Keeps old new
      → on_record m.id new ≡ true
      → Records before new ms r
      → Records before old (m ∷ ms) r
  Records-step before old new m ms (failed db) k e h = tt
  Records-step before old new m ms (ended db) k e (keep, all) =
      (λ id g. keep id (k id g), (ground (arith, keep m.id e), all))

  apply_one-Keeps :
      (m : Migration Sql) (db db' : Migrated Schema)
      → apply_one exec now m db ≡ some db'
      → Keeps db.applied db'.applied × (on_record m.id db'.applied ≡ true)
  unfolding apply_one
  apply_one-Keeps m db db' e =
      let grown : db'.applied
          ≡ db.applied ++ record { id = m.id; name = m.name; applied_at = now } ∷ [] =
        ground arith in
      (
        (λ id h. rw grown (any-append (is_id id) db.applied _ ∙ ground arith)),
        rw grown (any-append (is_id m.id) db.applied _ ∙ ground arith),
      )

  follow :
      (before : List Applied) (m : Migration Sql) (ms : List (Migration Sql)) (db : Migrated Schema)
      (o : Option (Migrated Schema))
      → ((db' : Migrated Schema)
          → o ≡ some db'
          → Records before db.applied (m ∷ ms) (apply_all exec now before ms db'))
      → Records before db.applied
          (m ∷ ms)
          (elim o [ none ↦ failed db | some db' ↦ apply_all exec now before ms db' ])
  follow before m ms db none k = tt
  follow before m ms db (some db') k = k db' refl

  apply_all-Records :
      (before : List Applied) (ms : List (Migration Sql)) (db : Migrated Schema)
      → Records before db.applied ms (apply_all exec now before ms db)
  unfolding apply_all
  apply_all-Records before [] db = (λ id h. h, tt)
  apply_all-Records before (m ∷ ms) db =
      if-elim (Records before db.applied (m ∷ ms)) (on_record m.id before) _ _
        (λ e.
          Records-skip before db.applied m ms (apply_all exec now before ms db) e
            (apply_all-Records before ms db))
        (λ e. follow before m ms db (apply_one exec now m db) (λ db' h.
          let (keep, there) = apply_one-Keeps m db db' h in
          Records-step before db.applied db'.applied m ms (apply_all exec now before ms db') keep
            there (apply_all-Records before ms db')))

  apply_all-skips :
      (before : List Applied) (ms : List (Migration Sql)) (db : Migrated Schema)
      → All (λ m. on_record m.id before ≡ true) ms
      → apply_all exec now before ms db ≡ ended db
  unfolding apply_all
  apply_all-skips before [] db h = refl
  apply_all-skips before (m ∷ ms) db (e, h) = rw e (apply_all-skips before ms db h)

module _ {ℓ κ} {Sql : Type ℓ} {Schema : Type κ} (exec : Sql → Schema → Option Schema) where
  -- A run of the migrations that ends without an exception keeps what was on record and leaves every
  -- migration on record; a later run, at any time, ends at once and changes neither the schema nor the
  -- records.
  pub migrate-idempotent :
      (now later : ℕ) (ms : List (Migration Sql)) (db db' : Migrated Schema)
      → migrate exec now ms db ≡ ended db'
      → ((id : ℕ) → on_record id db.applied ≡ true → on_record id db'.applied ≡ true)
        × All (λ m. on_record m.id db'.applied ≡ true) ms
        × (migrate exec later ms db' ≡ ended db')
  unfolding migrate
  migrate-idempotent now later ms db db' e =
      let (keep, all) =
        subst (Records exec now db.applied db.applied ms) e
          (apply_all-Records exec now db.applied ms db) in
      let recorded : All (λ m. on_record m.id db'.applied ≡ true) ms =
        All-map (λ m. (on_record m.id db.applied || on_record m.id db'.applied) ≡ true)
          (λ m. on_record m.id db'.applied ≡ true) (λ m h. ground (arith, keep m.id)) ms all in
      (keep, recorded, apply_all-skips exec later db'.applied ms db' recorded)
