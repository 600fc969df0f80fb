-- ===== src/Store/Queue.antt =====
-- gateway/src/db/jobs.ts: the front of the queue.
use nidora_ai_inference.Base.{
  ℕ, zero, suc, ◌≤◌, min, ◌≡◌, refl, sym, ap, ◌∙◌, subst, true, ◌&&◌, Option, none, some, List, [],
  ◌∷◌, take, All, arith, ltb, if-elim, count_where, select_where, order_by, Rising, order_by-Rising,
  order_by-All, order_by-meets, insert_by,
}
use nidora_ai_inference.Domain.Types.{is_queued, Job}
use nidora_ai_inference.Store.Db.{Db}
use nidora_ai_inference.Store.Queries.{list_queued, queue_position, oldest_queued, counts}

-- No queued job is older.
abbrev IsOldest : ℕ → Job → Type 0
IsOldest t j = is_queued j.state ≡ true → t ≤ j.created_at

count-older :
    (t : ℕ) (js : List Job)
    → All (IsOldest t) js
    → count_where (λ j. is_queued j.state && ltb j.created_at t) js ≡ 0
unfolding count_where
count-older t [] h = refl
count-older t (j ∷ js) (p, h) = ground (arith, count-older t js h, p)

all_queued :
    (js : List Job) → All (λ j. is_queued j.state ≡ true) (select_where (λ j. is_queued j.state) js)
unfolding select_where
all_queued [] = tt
all_queued (j ∷ js) =
    if-elim (All (λ j. is_queued j.state ≡ true)) (is_queued j.state) _ _ (λ e. (e, all_queued js))
      (λ e. all_queued js)

queued-All :
    (P : Job → Type 0) (js : List Job)
    → All P (select_where (λ j. is_queued j.state) js)
    → All (λ j. is_queued j.state ≡ true → P j) js
unfolding select_where
queued-All P [] h = tt
queued-All P (j ∷ js) h =
    if-elim
      (λ ks.
        All P ks → (is_queued j.state ≡ true → P j) × All (λ k. is_queued k.state ≡ true → P k) js)
      (is_queued j.state) _ _ (λ e (p, ps). (λ _. p, queued-All P js ps))
      (λ e ps. (λ e'. absurd (ground arith), queued-All P js ps)) h

-- The time of the first row.
abbrev front_time : List Job → Option ℕ
front_time [] = none
front_time (j ∷ js) = some j.created_at

abbrev earlier : ℕ → Option ℕ → ℕ
earlier t none = t
earlier t (some u) = min t u

abbrev queue : Db → List Job
queue db = order_by (λ j. j.created_at) (select_where (λ j. is_queued j.state) db.jobs)

front_time-insert_by :
    (j : Job) (js : List Job)
    → front_time (insert_by (λ k. k.created_at) j js) ≡ some (earlier j.created_at (front_time js))
unfolding insert_by
front_time-insert_by j [] = refl
front_time-insert_by j (k ∷ js) = ground arith

oldest_queued-front :
    (js : List Job)
    → oldest_queued js
      ≡ front_time (order_by (λ j. j.created_at) (select_where (λ j. is_queued j.state) js))
unfolding oldest_queued order_by select_where
oldest_queued-front [] = refl
oldest_queued-front (j ∷ js) = ground (
  arith,
  oldest_queued-front js,
  front_time-insert_by j (order_by (λ j. j.created_at) (select_where (λ j. is_queued j.state) js)),
)

first_of :
    (n : ℕ) (js rest : List Job) (job : Job)
    → take n js ≡ job ∷ rest
    → (more : List Job) × (js ≡ job ∷ more)
first_of zero js rest job e = absurd (ground arith)
first_of (suc n) [] rest job e = absurd (ground arith)
first_of (suc n) (j ∷ js) rest job e = (js, ground arith)

-- For the first of the jobs that a claim looks at: no queued job is older, the position that its client
-- is told is 0, and the oldest queued time of the health check is its own.
pub list_queued-first :
    (n : ℕ) (db : Db) (job : Job) (rest : List Job)
    → list_queued n db ≡ job ∷ rest
    → All (λ j. is_queued j.state ≡ true → job.created_at ≤ j.created_at) db.jobs
      × (is_queued job.state ≡ true)
      × (queue_position job db ≡ some 0)
      × ((counts db).oldest_queued_at ≡ some job.created_at)
unfolding list_queued queue_position counts
list_queued-first n db job rest e =
    let (more, here) = first_of n (queue db) rest job e in
    let rising : Rising (λ (j : Job). j.created_at) (job ∷ more) =
      subst (Rising (λ (j : Job). j.created_at)) here
        (order_by-Rising (λ (j : Job). j.created_at) _) in
    let oldest : All (λ j. is_queued j.state ≡ true → job.created_at ≤ j.created_at) db.jobs =
      queued-All (λ j. job.created_at ≤ j.created_at) db.jobs
        (order_by-All (λ (j : Job). j.created_at) (λ j. job.created_at ≤ j.created_at) _
          (subst (All (λ j. job.created_at ≤ j.created_at)) (sym here) (omega arith, rising.0))) in
    let waits : is_queued job.state ≡ true =
      (subst (All (λ j. is_queued j.state ≡ true)) here (
        order_by-meets (λ (j : Job). j.created_at) (λ j. is_queued j.state ≡ true) _
          (all_queued db.jobs))).0 in
    (
      oldest,
      waits,
      ground (arith, count-older job.created_at db.jobs oldest, waits),
      oldest_queued-front db.jobs ∙ ap front_time here,
    )
