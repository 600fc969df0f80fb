-- ===== src/Store/Upkeep.antt =====
-- gateway/src/db/jobs.ts: an INSERT keeps the table sound, and ids find their rows.
use nidora_ai_inference.Base.{
  ℕ, ◌<◌, ◌≡◌, refl, subst, inl, inr, Bool, true, false, some, none, List, [], ◌∷◌, ◌++◌, arith,
  Bool-cases, is_some, any, All, All-append, Str, str_eq, str_eq_sound, str_eq_comm, str_eq_refl,
  find,
}
use nidora_ai_inference.Domain.Types.{Job}
use nidora_ai_inference.Store.Db.{Db, has_id, get, add_event}
use nidora_ai_inference.Store.Jobs.{new_row, create, NewJob}
use nidora_ai_inference.Store.Rows.{IsCoherent, new_row-IsCoherent}
use nidora_ai_inference.Store.Invariant.{Distinct, IsSound}

any-append :
    (id : Str) (js : List Job) (j : Job)
    → any (has_id id) js ≡ false
    → str_eq j.id id ≡ false
    → any (has_id id) (js ++ j ∷ []) ≡ false
any-append id [] j n h = ground arith
any-append id (k ∷ js) j n h = ground (arith, any-append id js j)

Distinct-append :
    (js : List Job) (j : Job) → Distinct js → any (has_id j.id) js ≡ false → Distinct (js ++ j ∷ [])
Distinct-append [] j d n = (refl, tt)
Distinct-append (k ∷ js) j (m, d) n = (
  any-append k.id js j m (ground (arith, str_eq_comm j.id k.id)),
  Distinct-append js j d (ground arith),
)

find-none :
    (id : Str) (js : List Job) → is_some (find (has_id id) js) ≡ false → any (has_id id) js ≡ false
unfolding find
find-none id [] h = refl
find-none id (j ∷ js) h = ground (arith, find-none id js)

-- The row that a look-up finds is the only one of its id.
pub find_unique :
    (id : Str) (js : List Job) (j : Job)
    → Distinct js
    → find (has_id id) js ≡ some j
    → All (λ r. has_id id r ≡ true → r ≡ j) js
unfolding find
find_unique id [] j d e = tt
find_unique id (k ∷ js) j (n, d) e = elim (Bool-cases (has_id id k)) [
  | inl h ↦
      let here : k.id ≡ id = str_eq_sound k.id id h in
      (λ _. ground arith, absent js (subst (λ i. any (has_id i) js ≡ false) here n))
  | inr h ↦ (λ h'. absurd (ground arith), find_unique id js j d (ground arith))
]
  where
    absent : (rs : List Job) → any (has_id id) rs ≡ false → All (λ r. has_id id r ≡ true → r ≡ j) rs
    absent [] m = tt
    absent (r ∷ rs) m = (λ h. absurd (ground arith), absent rs (ground arith))

-- A row whose id is new is found behind the others.
pub find-append :
    (id : Str) (rows : List Job) (j : Job)
    → any (has_id id) rows ≡ false
    → has_id id j ≡ true
    → find (has_id id) (rows ++ j ∷ []) ≡ some j
unfolding find
find-append id [] j n h = ground arith
find-append id (r ∷ rows) j n h = ground (arith, find-append id rows j)

pub find-absent :
    (id : Str) (rows : List Job) → any (has_id id) rows ≡ false → find (has_id id) rows ≡ none
unfolding find
find-absent id [] n = refl
find-absent id (r ∷ rows) n = ground (arith, find-absent id rows)

pub find-present :
    (id : Str) (rows : List Job)
    → any (has_id id) rows ≡ true
    → is_some (find (has_id id) rows) ≡ true
unfolding find
find-present id [] n = cc
find-present id (r ∷ rows) n = ground (arith, find-present id rows)

-- Under distinct ids every row is the one that its id finds.
find-among :
    (r : Job) (rows js : List Job)
    → any (has_id r.id) js ≡ false
    → All (λ j. find (has_id j.id) rows ≡ some j) js
    → All (λ j. find (has_id j.id) (r ∷ rows) ≡ some j) js
unfolding find
find-among r rows [] n h = tt
find-among r rows (j ∷ js) n (p, h) =
    (ground (arith, str_eq_comm r.id j.id), find-among r rows js (ground arith) h)

pub rows_found :
    (rows : List Job) → Distinct rows → All (λ j. find (has_id j.id) rows ≡ some j) rows
unfolding find
rows_found [] d = tt
rows_found (r ∷ rows) (n, d) =
    (ground (arith, str_eq_refl r.id), find-among r rows rows n (rows_found rows d))

-- What an INSERT that succeeds does: its id is new, and the row is the last one.
pub create-appended :
    (n : NewJob) (db db' : Db)
    → create n db ≡ some db'
    → (any (has_id n.id) db.jobs ≡ false) × (db'.jobs ≡ db.jobs ++ new_row n ∷ [])
unfolding create add_event get
create-appended n db db' e = by_id (is_some (find (has_id n.id) db.jobs)) refl
  where
    by_id :
        (b : Bool)
        → is_some (find (has_id n.id) db.jobs) ≡ b
        → (any (has_id n.id) db.jobs ≡ false) × (db'.jobs ≡ db.jobs ++ new_row n ∷ [])
    by_id true k = absurd (ground arith)
    by_id false k = (find-none n.id db.jobs k, ground arith)

-- It keeps the table sound.
pub create-IsSound :
    (m : ℕ) (db : Db) (n : NewJob) (db' : Db)
    → 0 < m
    → create n db ≡ some db'
    → IsSound m db.jobs
    → IsSound m db'.jobs
unfolding new_row
create-IsSound m db n db' pos e s =
    let (fresh, rows) = create-appended n db db' e in
    rw rows (record {
      coherent =
          All-append (IsCoherent m) db.jobs (new_row n ∷ []) s.coherent
            (new_row-IsCoherent m n pos, tt);
      distinct = Distinct-append db.jobs (new_row n) s.distinct fresh;
    })
