-- ===== src/Store/Lookup.antt =====
-- gateway/src/db/jobs.ts: a compare-and-swap by id, seen through a look-up by id.
use nidora_ai_inference.Base.{
  ℕ, ◌≡◌, refl, ap, ◌∙◌, subst, inl, inr, Bool, true, false, ◌&&◌, Option, none, some, List, [],
  ◌∷◌, arith, ◌==◌, if◌then◌else◌, Bool-cases, any, Str, str_eq_sound, apply_if, count_where, find,
  find_sound,
}
use nidora_ai_inference.Domain.Types.{Job, JobEventKind}
use nidora_ai_inference.Store.Db.{Db, has_id, get, changes, swap, swap-changes, swap-miss, get-swap}
use mathlib.Core.Option
use nidora_ai_inference.Store.Invariant.{Distinct}

-- A WHERE clause on one id and a condition.
abbrev pub by_id : Str → (Job → Bool) → Job → Bool
by_id id q j = has_id id j && q j

abbrev pub one_if : (Job → Bool) → Option Job → ℕ
one_if q none = 0
one_if q (some j) = if q j then 1 else 0

count_where-absent :
    (id : Str) (q : Job → Bool) (js : List Job)
    → any (has_id id) js ≡ false
    → count_where (by_id id q) js ≡ 0
unfolding count_where
count_where-absent id q [] n = refl
count_where-absent id q (j ∷ js) n = ground (arith, count_where-absent id q js)

-- Over distinct ids such a clause hits the row that a look-up finds, if the condition holds there.
pub count_where-find :
    (id : Str) (q : Job → Bool) (js : List Job)
    → Distinct js
    → count_where (by_id id q) js ≡ one_if q (find (has_id id) js)
unfolding count_where find
count_where-find id q [] d = refl
count_where-find id q (j ∷ js) (n, d) = elim (Bool-cases (has_id id j)) [
  | inl e ↦
      let here : j.id ≡ id = str_eq_sound j.id id e in
      ground (arith, count_where-absent id q js (subst (λ k. any (has_id k) js ≡ false) here n))
  | inr e ↦ ground (arith, count_where-find id q js d)
]

module _ (id : Str) (q : Job → Bool) (set : Job → Job) (kind : JobEventKind)
    (pod_id detail : Option Str) (db : Db) (d : Distinct db.jobs) where
  abbrev swapped : Db × Bool
  swapped = swap (by_id id q) set id kind pod_id detail db

  changes-get : changes (by_id id q) db ≡ one_if q (get id db)
  unfolding changes get
  changes-get = count_where-find id q db.jobs d

  -- The row is there and meets the condition: the swap succeeds and the row is written.
  pub swap-found :
      ((j : Job) → (set j).id ≡ j.id)
      → (j : Job) → get id db ≡ some j
      → q j ≡ true
      → (swapped.1 ≡ true) × (get id swapped.0 ≡ some (set j))
  unfolding get
  swap-found keep j g h = (
    swap-changes (by_id id q) set id kind pod_id detail db ∙ ap (λ n. n == 1) (changes-get ∙ one),
    get-swap (by_id id q) set id kind pod_id detail db keep id
        ∙ ap (Option.map (apply_if (by_id id q) set)) g
        ∙ ap some (ground (arith, find_sound (has_id id) db.jobs j g)),
  )
    where
      one : one_if q (get id db) ≡ 1
      one = rw (g, h) refl

  -- It is not there, or does not meet it: the swap fails and the database is as it was.
  pub swap-refused : one_if q (get id db) ≡ 0 → swapped ≡ (db, false)
  swap-refused h = swap-miss (by_id id q) set id kind pod_id detail db (changes-get ∙ h)
