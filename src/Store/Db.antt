-- ===== src/Store/Db.antt =====
-- The SQLite database behind gateway/src/db/jobs.ts and gateway/src/db/pods.ts: the three tables of
-- gateway/src/db/migrations.ts and the clock that `Date.now()` reads. A handler runs between two
-- awaits at one clock value. `drawn` counts the random ids that the process has drawn.
use mathlib.Core.Option
use nidora_ai_inference.Base.{
  ℕ, ◌≡◌, Bool, true, false, Option, List, [], ◌∷◌, ◌++◌, arith, ◌==◌, if◌then◌else◌, Str, str_eq,
  apply_if, update_where, count_where, find, update_where-miss, find-update_where,
}
use nidora_ai_inference.Domain.Types.{Job, Pod, JobEventKind, JobEvent}

pub record Db : Type 0 where
  pub jobs : List Job
  pub events : List JobEvent
  pub pods : List Pod
  pub clock : ℕ
  pub drawn : ℕ

abbrev pub has_id : Str → Job → Bool
has_id id j = str_eq j.id id

-- SELECT * FROM jobs WHERE id = ?
unfoldable pub get : Str → Db → Option Job
get id db = find (has_id id) db.jobs

-- INSERT INTO job_events, stamped with `Date.now()`.
unfoldable pub add_event : Str → JobEventKind → Option Str → Option Str → Db → Db
add_event job_id kind pod_id detail db = record db {
  events =
      db.events
      ++ record { job_id = job_id; ts = db.clock; kind = kind; pod_id = pod_id; detail = detail }
        ∷ [];
}

-- An UPDATE of `jobs`.
unfoldable pub update_jobs : (Job → Bool) → (Job → Job) → Db → Db
update_jobs hit set db = record db { jobs = update_where hit set db.jobs }

unfoldable pub changes : (Job → Bool) → Db → ℕ
changes hit db = count_where hit db.jobs

-- A compare-and-swap: the UPDATE, its success `changes === 1`, and the event logged with it.
unfoldable pub swap :
    (Job → Bool) → (Job → Job) → Str → JobEventKind → Option Str → Option Str → Db → Db × Bool
unfolding update_jobs changes add_event
swap hit set id kind pod_id detail db =
    let db' = update_jobs hit set db in
    if changes hit db == 1 then (add_event id kind pod_id detail db', true) else (db', false)

module _ (hit : Job → Bool) (set : Job → Job) (id : Str) (kind : JobEventKind)
    (pod_id detail : Option Str) (db : Db) where
  pub jobs-swap : (swap hit set id kind pod_id detail db).0.jobs ≡ update_where hit set db.jobs
  unfolding swap
  jobs-swap = ground arith

  pub pods-swap : (swap hit set id kind pod_id detail db).0.pods ≡ db.pods
  unfolding swap
  pods-swap = ground arith

  pub swap-changes : (swap hit set id kind pod_id detail db).1 ≡ (changes hit db == 1)
  unfolding swap
  swap-changes = ground arith

  -- A statement that hits no row leaves the database as it was and reports failure.
  pub swap-miss : changes hit db ≡ 0 → swap hit set id kind pod_id detail db ≡ (db, false)
  unfolding swap
  swap-miss h = ground (arith, update_where-miss hit set db.jobs)

  -- What a look-up finds after a swap that keeps the ids.
  pub get-swap :
      ((j : Job) → (set j).id ≡ j.id)
      → (k : Str)
      → get k (swap hit set id kind pod_id detail db).0 ≡ Option.map (apply_if hit set) (get k db)
  unfolding get
  get-swap keep k = rw jobs-swap (find-update_where (has_id k) hit set (λ j. rw (keep j)) db.jobs)
