-- ===== src/Scheduler/Reaper/Rows.antt =====
-- gateway/src/scheduler/reaper.ts: a loop over selected rows, each of which it writes by id, is a map
-- over the table.
use nidora_ai_inference.Base.{
  ◌≡◌, refl, ap, ◌∙◌, inl, inr, Bool, true, false, List, [], ◌∷◌, map, arith, if◌then◌else◌,
  Bool-cases, any, All, Str, str_eq_comm, apply_if, update_where, select_where,
}
use nidora_ai_inference.Domain.Types.{Job}
use nidora_ai_inference.Store.Db.{has_id}
use nidora_ai_inference.Store.Invariant.{Distinct, update_where-Distinct}
use nidora_ai_inference.Scheduler.Reaper.{for_each}

-- The write of one job's round: the rows that it hits and what it makes of them.
pub record Write : Type 0 where
  pub hit : Job → Job → Bool
  pub set : Job → Job → Job
  pub by_id : (job row : Job) → hit job row ≡ true → has_id job.id row ≡ true
  pub keep : (job row : Job) → (set job row).id ≡ row.id

abbrev pub update_by : Write → Job → List Job → List Job
update_by w job = update_where (w.hit job) (w.set job)

module _ (w : Write) where
  not_hit : (job row : Job) → has_id job.id row ≡ false → w.hit job row ≡ false
  not_hit job row n = elim (Bool-cases (w.hit job row)) [
    | inl h ↦ absurd (cc (w.by_id job row h))
    | inr h ↦ h
  ]

  update_by-miss :
      (job : Job) (rows : List Job) → any (has_id job.id) rows ≡ false → update_by w job rows ≡ rows
  unfolding update_where
  update_by-miss job [] n = refl
  update_by-miss job (r ∷ rows) n = ground (arith, not_hit job r, update_by-miss job rows)

  -- A first row that no job of the list names stays out of the loop.
  for_each-skip :
      (row : Job) (jobs rows : List Job)
      → any (has_id row.id) jobs ≡ false
      → for_each (update_by w) jobs (row ∷ rows) ≡ row ∷ for_each (update_by w) jobs rows
  unfolding for_each update_where
  for_each-skip row [] rows n = refl
  for_each-skip row (job ∷ jobs) rows n =
      rw (miss (not_hit job row (ground (arith, str_eq_comm row.id job.id))))
        (for_each-skip row jobs (update_by w job rows) (ground arith))
    where
      miss : w.hit job row ≡ false → apply_if (w.hit job) (w.set job) row ≡ row
      miss h = ground arith

  -- A row that its own round hits is written there, and by no later round.
  for_each-hit :
      (row : Job) (jobs rows : List Job)
      → w.hit row row ≡ true
      → any (has_id row.id) rows ≡ false
      → any (has_id row.id) jobs ≡ false
      → for_each (update_by w) (row ∷ jobs) (row ∷ rows)
        ≡ w.set row row ∷ for_each (update_by w) jobs rows
  unfolding for_each update_where
  for_each-hit row jobs rows h n k =
      rw (h, update_by-miss row rows n)
        (for_each-skip (w.set row row) jobs rows (rw (w.keep row row) k))

module _ (w : Write) (p : Job → Bool) where
  any-select_where :
      (id : Str) (rows : List Job)
      → any (has_id id) rows ≡ false
      → any (has_id id) (select_where p rows) ≡ false
  unfolding select_where
  any-select_where id [] n = refl
  any-select_where id (r ∷ rows) n = ground (arith, any-select_where id rows)

  -- Over distinct ids, the loop over the rows that a clause selects writes each of them once, and
  -- no other row.
  pub for_each-select_where :
      (rows : List Job)
      → Distinct rows
      → All (λ r. p r ≡ true → w.hit r r ≡ true) rows
      → for_each (update_by w) (select_where p rows) rows
        ≡ map (λ r. if p r then w.set r r else r) rows
  unfolding for_each select_where
  for_each-select_where [] d k = refl
  for_each-select_where (r ∷ rows) (n, d) (h, k) = elim (Bool-cases (p r)) [
    | inl e ↦ rw e (
        for_each-hit w r (select_where p rows) rows (h e) n (any-select_where r.id rows n)
        ∙ ap (◌∷◌ (w.set r r)) (for_each-select_where rows d k))
    | inr e ↦ rw e (
        for_each-skip w r (select_where p rows) rows (any-select_where r.id rows n)
        ∙ ap (◌∷◌ r) (for_each-select_where rows d k))
  ]

pub for_each-Distinct :
    (w : Write) (jobs rows : List Job) → Distinct rows → Distinct (for_each (update_by w) jobs rows)
unfolding for_each
for_each-Distinct w [] rows d = d
for_each-Distinct w (job ∷ jobs) rows d =
    for_each-Distinct w jobs (update_by w job rows)
      (update_where-Distinct (w.hit job) (w.set job) (w.keep job) rows d)
