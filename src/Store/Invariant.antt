-- ===== src/Store/Invariant.antt =====
-- gateway/src/db/jobs.ts: the table of jobs as a whole. Ids are distinct, and every row is coherent.
use nidora_ai_inference.Base.{
  ℕ, ◌≡◌, refl, Bool, true, false, Option, none, some, List, [], ◌∷◌, arith, any, All, Str,
  apply_if, update_where, delete_where,
}
use nidora_ai_inference.Domain.Types.{is_in_progress, Job}
use nidora_ai_inference.Store.Db.{has_id}
use nidora_ai_inference.Store.Jobs.{in_flight, owns_or}
use nidora_ai_inference.Store.Rows.{IsCoherent}

-- No two rows share an id.
abbrev pub Distinct : List Job → Type 0
Distinct [] = Unit {0}
Distinct (j ∷ js) = (any (has_id j.id) js ≡ false) × Distinct js

pub record IsSound (max_attempts : ℕ) (jobs : List Job) : Type 0 where
  pub coherent : All (IsCoherent max_attempts) jobs
  pub distinct : Distinct jobs

abbrev pub KeepsId : (Job → Job) → Type 0
KeepsId set = (j : Job) → (set j).id ≡ j.id

any-update_where :
    (id : Str) (hit : Job → Bool) (set : Job → Job)
    → KeepsId set
    → (js : List Job) → any (has_id id) (update_where hit set js) ≡ any (has_id id) js
unfolding update_where
any-update_where id hit set keep [] = refl
any-update_where id hit set keep (j ∷ js) =
    ground (arith, keep j, any-update_where id hit set keep js)

pub update_where-Distinct :
    (hit : Job → Bool) (set : Job → Job)
    → KeepsId set
    → (js : List Job) → Distinct js
    → Distinct (update_where hit set js)
unfolding update_where
update_where-Distinct hit set keep [] d = tt
update_where-Distinct hit set keep (j ∷ js) (n, d) = (
  ground (arith, keep j, any-update_where (apply_if hit set j).id hit set keep js),
  update_where-Distinct hit set keep js d,
)

any-delete_where :
    (id : Str) (hit : Job → Bool) (js : List Job)
    → any (has_id id) js ≡ false
    → any (has_id id) (delete_where hit js) ≡ false
unfolding delete_where
any-delete_where id hit [] n = refl
any-delete_where id hit (j ∷ js) n = ground (arith, any-delete_where id hit js)

pub delete_where-Distinct :
    (hit : Job → Bool) (js : List Job) → Distinct js → Distinct (delete_where hit js)
unfolding delete_where
delete_where-Distinct hit [] d = tt
delete_where-Distinct hit (j ∷ js) (n, d) =
    ground (arith, any-delete_where j.id hit js n, delete_where-Distinct hit js d)

pub owns_or-has_id :
    (u : Job → Bool) (id : Str) (lease : Option Str) (row : Job)
    → (u row ≡ true → has_id id row ≡ true)
    → owns_or u id lease row ≡ true
    → has_id id row ≡ true
owns_or-has_id u id none row f h = f h
owns_or-has_id u id (some []) row f h = f h
owns_or-has_id u id (some (c ∷ cs)) row f h = ground arith

pub owns_or-in_progress :
    (id : Str) (lease : Option Str) (j : Job)
    → owns_or (in_flight id) id lease j ≡ true
    → is_in_progress j.state ≡ true
owns_or-in_progress id none j h = ground arith
owns_or-in_progress id (some []) j h = ground arith
owns_or-in_progress id (some (c ∷ cs)) j h = ground arith
