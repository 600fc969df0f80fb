-- ===== src/Cleanup/Live.antt =====
-- gateway/src/artifacts/cleanup.ts: a job that is not due.
use nidora_ai_inference.Base.{
  ℕ, ◌-◌, ◌≡◌, refl, sym, ap, ◌∙◌, inl, inr, Bool, true, false, ◌&&◌, if◌then◌else◌, if-elim,
  Bool-cases, Option, none, some, is_some, List, [], ◌∷◌, All, arith, Str, str_eq, str_eq_sound,
  str_eq_comm, find, find_sound, find-update_where, delete_where, select_where, apply_if,
}
use mathlib.Core.Option
use mathlib.Core.Option.{some-injective}
use nidora_ai_inference.Domain.Types.{Area, inputs, artifacts, FilePath, Job}
use nidora_ai_inference.Store.Db.{Db, has_id, get, update_jobs}
use nidora_ai_inference.Store.Jobs.{
  column_lt, finished_lt, set_artifacts, clear_input, purge_before,
}
use nidora_ai_inference.Store.Invariant.{Distinct}
use nidora_ai_inference.Store.Upkeep.{find_unique}
use nidora_ai_inference.Store.Queries.{has_artifacts, finished_before}
use nidora_ai_inference.Store.Pods
use nidora_ai_inference.Artifacts.{Disk, at_path, read_file, remove_job}
use nidora_ai_inference.Scheduler.Config.{Config}
use nidora_ai_inference.Scheduler.Reaper.{for_each}
use nidora_ai_inference.Cleanup.{
  Cleaning, entries, expire_job, remove_orphan, remove_orphans, purge, cleanup,
}

-- The directories of one job hold no file of another.
find-remove_job :
    (path : FilePath) (entry : Str) (disk : Disk)
    → str_eq path.job_id entry ≡ false
    → find (at_path path) (remove_job entry disk) ≡ find (at_path path) disk
unfolding find remove_job delete_where
find-remove_job path entry [] n = refl
find-remove_job path entry (f ∷ fs) n = elim (Bool-cases (str_eq f.path.job_id path.job_id)) [
  | inl e ↦
      let other : str_eq f.path.job_id entry ≡ false =
        ap (λ k. str_eq k entry) (str_eq_sound f.path.job_id path.job_id e) ∙ n in
      ground (arith, other, find-remove_job path entry fs n)
  | inr e ↦ ground (arith, e, find-remove_job path entry fs n)
]

read_file-remove_job :
    (path : FilePath) (entry : Str) (disk : Disk)
    → str_eq path.job_id entry ≡ false
    → read_file path (remove_job entry disk) ≡ read_file path disk
unfolding read_file
read_file-remove_job path entry disk n =
    ap (Option.map (λ f. f.content)) (find-remove_job path entry disk n)

find-delete_where :
    (id : Str) (hit : Job → Bool) (js : List Job) (j : Job)
    → find (has_id id) js ≡ some j
    → hit j ≡ false
    → find (has_id id) (delete_where hit js) ≡ some j
unfolding find delete_where
find-delete_where id hit [] j e h = cc
find-delete_where id hit (k ∷ js) j e h = elim (Bool-cases (has_id id k)) [
  | inl m ↦
      let same : k ≡ j =
        some-injective k j (sym (ap (λ b. if b then some k else find (has_id id) js) m) ∙ e) in
      let stays : hit k ≡ false = ap hit same ∙ h in ground (arith, m, stays, same)
  | inr m ↦
      let rest = find-delete_where id hit js j (ground (arith, e)) h in ground (arith, m, rest)
]

get-update_other :
    (id other : Str) (set : Job → Job) (db : Db) (job : Job)
    → ((j : Job) → has_id id (set j) ≡ has_id id j)
    → has_id id job ≡ true
    → str_eq id other ≡ false
    → get id db ≡ some job
    → get id (update_jobs (has_id other) set db) ≡ some job
unfolding get update_jobs
get-update_other id other set db job keep m n e =
    find-update_where (has_id id) (has_id other) set keep db.jobs
    ∙ ap (Option.map (apply_if (has_id other) set)) e
    ∙ ap some (missed (ap (λ k. str_eq k other) (str_eq_sound job.id id m) ∙ n))
  where
    missed : has_id other job ≡ false → apply_if (has_id other) set job ≡ job
    missed h = ground arith

-- The row of the job, and what a read of its files gives.
record Lives (id : Str) (job : Job) (disk : Disk) (c : Cleaning) : Type 0 where
  row : get id c.db ≡ some job
  files : (path : FilePath) → path.job_id ≡ id → read_file path c.disk ≡ read_file path disk

module _ (id : Str) (job : Job) (disk : Disk) where
  removed :
      (entry : Str) (c : Cleaning)
      → str_eq id entry ≡ false
      → Lives id job disk c
      → (path : FilePath) → path.job_id ≡ id
      → read_file path (remove_job entry c.disk) ≡ read_file path disk
  removed entry c n l path e =
      read_file-remove_job path entry c.disk (ap (λ k. str_eq k entry) e ∙ n) ∙ l.files path e

  expire_job-Lives :
      (j : Job) (c : Cleaning)
      → has_id id job ≡ true
      → str_eq id j.id ≡ false
      → Lives id job disk c
      → Lives id job disk (expire_job j c)
  unfolding expire_job clear_input set_artifacts
  expire_job-Lives j c m n l = record {
    row =
        get-update_other id j.id (λ k. record k { input_path = none }) (set_artifacts j.id [] c.db)
          job (λ k. refl) m n
          (get-update_other id j.id (λ k. record k { artifacts = [] }) c.db job (λ k. refl) m n
            l.row);
    files = removed j.id c n l;
  }

  expire_all :
      (js : List Job) (c : Cleaning)
      → has_id id job ≡ true
      → All (λ j. str_eq id j.id ≡ false) js
      → Lives id job disk c
      → Lives id job disk (for_each expire_job js c)
  unfolding for_each
  expire_all [] c m n l = l
  expire_all (j ∷ js) c m (n, ns) l =
      expire_all js (expire_job j c) m ns (expire_job-Lives j c m n l)

  module _ (mtime : Area → Str → Option ℕ) (config : Config) (now : ℕ) where
    remove_orphan-Lives :
        (area : Area) (entry : Str) (c : Cleaning)
        → Lives id job disk c
        → Lives id job disk (remove_orphan mtime config now area entry c)
    unfolding remove_orphan
    remove_orphan-Lives area entry c l =
        if-elim (Lives id job disk) (is_some (get entry c.db)) _ _ (λ e. l)
          (λ gone.
            if-elim (Lives id job disk) _ _ _ (λ e. l)
              (λ old. record { row = l.row; files = removed entry c (elsewhere gone) l }))
      where
        elsewhere : is_some (get entry c.db) ≡ false → str_eq id entry ≡ false
        elsewhere gone = elim (Bool-cases (str_eq id entry)) [
          | inl e ↦
              absurd (found gone (ap (λ k. get k c.db) (sym (str_eq_sound id entry e)) ∙ l.row))
          | inr e ↦ e
        ]
          where
            found : is_some (get entry c.db) ≡ false → get entry c.db ≡ some job → ⊥
            found g r = absurd (ground arith)

    remove_all :
        (area : Area) (es : List Str) (c : Cleaning)
        → Lives id job disk c
        → Lives id job disk (for_each (remove_orphan mtime config now area) es c)
    unfolding for_each
    remove_all area [] c l = l
    remove_all area (e ∷ es) c l =
        remove_all area es (remove_orphan mtime config now area e c)
          (remove_orphan-Lives area e c l)

    remove_orphans-Lives :
        (area : Area) (c : Cleaning)
        → Lives id job disk c
        → Lives id job disk (remove_orphans mtime config now area c)
    unfolding remove_orphans
    remove_orphans-Lives area c l = remove_all area (entries area c.disk) c l

    purge-Lives :
        (c : Cleaning)
        → finished_lt (now - config.job_retention_ms) job ≡ false
        → Lives id job disk c
        → Lives id job disk (purge mtime config now c)
    unfolding purge purge_before Pods.purge_before get
    purge-Lives c h l = record {
      row =
          find-delete_where id (finished_lt (now - config.job_retention_ms)) c.db.jobs job l.row h;
      files = l.files;
    }

-- The jobs that are due are other ones.
others :
    (hit : Job → Bool) (id : Str) (job : Job) (js : List Job)
    → hit job ≡ false
    → All (λ r. has_id id r ≡ true → r ≡ job) js
    → All (λ r. str_eq id r.id ≡ false) (select_where hit js)
unfolding select_where
others hit id job [] h u = tt
others hit id job (j ∷ js) h (u, us) =
    if-elim (All (λ r. str_eq id r.id ≡ false)) (hit j) _ _
      (λ e. (another e, others hit id job js h us)) (λ e. others hit id job js h us)
  where
    another : hit j ≡ true → str_eq id j.id ≡ false
    another e = elim (Bool-cases (str_eq id j.id)) [
      | inl m ↦ absurd (due e (ap hit (u (str_eq_comm j.id id ∙ m)) ∙ h))
      | inr m ↦ m
    ]
      where
        due : hit j ≡ true → hit j ≡ false → ⊥
        due e' h' = cc

-- Under distinct ids: a job that has not finished, or not long enough ago for its media to expire or
-- its row to be purged, keeps its row in a cleanup, and each of its files reads as before, whatever
-- `stat` reports.
pub cleanup-live :
    (mtime : Area → Str → Option ℕ) (config : Config) (now : ℕ) (db : Db) (disk : Disk) (id : Str)
    (job : Job)
    → Distinct db.jobs
    → get id db ≡ some job
    → column_lt job.finished_at (now - config.artifact_ttl_ms) ≡ false
    → column_lt job.finished_at (now - config.job_retention_ms) ≡ false
    → let c = cleanup mtime config now db disk in
      (get id c.db ≡ some job)
      × ((path : FilePath) → path.job_id ≡ id → read_file path c.disk ≡ read_file path disk)
unfolding cleanup finished_before get
cleanup-live mtime config now db disk id job d e ttl kept =
    let start : Cleaning = record {
      db = db;
      disk = disk;
      result = record { expired_artifacts = 0; purged_jobs = 0; orphan_dirs = 0; purged_pods = 0 };
    } in
    let before : ℕ = now - config.artifact_ttl_ms in
    let expired : Cleaning = for_each expire_job (finished_before before db) start in
    let l0 : Lives id job disk start = record { row = e; files = λ path h. refl } in
    let l1 : Lives id job disk expired =
      expire_all id job disk (finished_before before db) start
        (find_sound (has_id id) db.jobs job e)
        (others (λ j. finished_lt before j && has_artifacts j) id job db.jobs (ground (arith, ttl))
          (find_unique id db.jobs job d e))
        l0 in
    let l2 = remove_orphans-Lives id job disk mtime config now inputs expired l1 in
    let l3 =
      remove_orphans-Lives id job disk mtime config now artifacts
        (remove_orphans mtime config now inputs expired) l2 in
    let l4 =
      purge-Lives id job disk mtime config now
        (remove_orphans mtime config now artifacts (remove_orphans mtime config now inputs expired))
        kept l3 in
    (l4.row, l4.files)
