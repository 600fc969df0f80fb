-- ===== src/Cleanup.antt =====
-- gateway/src/artifacts/cleanup.ts: expired media, directories without a row, and old rows. A directory
-- is read as the names under which files stand.
pub mod Kept
pub mod Live
use nidora_ai_inference.Base.{
  ℕ, ◌+◌, ◌-◌, Bool, false, not, ◌&&◌, Option, none, some, List, [], ◌∷◌, leb, if◌then◌else◌,
  is_some, any, Str, str_eq,
}
use nidora_ai_inference.Domain.Types.{Area, inputs, artifacts, Job}
use nidora_ai_inference.Store.Db.{Db, get}
use nidora_ai_inference.Store.Jobs.{set_artifacts, clear_input, purge_before}
use nidora_ai_inference.Store.Queries.{finished_before}
use nidora_ai_inference.Artifacts.{Disk, same_area, remove_job}
use nidora_ai_inference.Store.Pods
use nidora_ai_inference.Scheduler.Config.{Config}
use nidora_ai_inference.Scheduler.Reaper.{for_each}

pub record CleanupResult : Type 0 where
  pub expired_artifacts : ℕ
  pub purged_jobs : ℕ
  pub orphan_dirs : ℕ
  pub purged_pods : ℕ

-- The variables of the sweep.
pub record Cleaning : Type 0 where
  pub db : Db
  pub disk : Disk
  pub result : CleanupResult

expire_job : Job → Cleaning → Cleaning
expire_job job c = record c {
  disk = remove_job job.id c.disk;
  db = clear_input job.id (set_artifacts job.id [] c.db);
  result = record c.result { expired_artifacts = c.result.expired_artifacts + 1 };
}

-- `readdir(dir)`: each entry once.
unfoldable pub entries : Area → Disk → List Str
entries area [] = []
entries area (f ∷ fs) =
    let rest = entries area fs in
    if same_area f.path.area area && not (any (λ e. str_eq e f.path.job_id) rest)
    then f.path.job_id ∷ rest
    else rest

-- The section's parameter is the modification time that `stat` reports for an entry; `none` if it
-- fails.
module _ (mtime : Area → Str → Option ℕ) where
  -- Is the entry old enough? An age that would be negative is 0.
  old_enough : Config → ℕ → Option ℕ → Bool
  old_enough config now none = false
  old_enough config now (some t) = leb config.artifact_ttl_ms (now - t)

  remove_orphan : Config → ℕ → Area → Str → Cleaning → Cleaning
  unfolding old_enough
  remove_orphan config now area entry c =
      if is_some (get entry c.db)
      then c
      else if not (old_enough config now (mtime area entry))
      then c
      else record c {
        disk = remove_job entry c.disk;
        result = record c.result { orphan_dirs = c.result.orphan_dirs + 1 };
      }

  remove_orphans : Config → ℕ → Area → Cleaning → Cleaning
  unfolding remove_orphan
  remove_orphans config now area c =
      for_each (remove_orphan config now area) (entries area c.disk) c

  purge : Config → ℕ → Cleaning → Cleaning
  purge config now c =
      let before = now - config.job_retention_ms in
      let (db1, jobs_gone) = purge_before before c.db in
      let (db2, pods_gone) = Pods.purge_before before db1 in
      record c {
        db = db2;
        result = record c.result { purged_jobs = jobs_gone; purged_pods = pods_gone };
      }

  unfoldable pub cleanup : Config → ℕ → Db → Disk → Cleaning
  unfolding expire_job remove_orphans purge
  cleanup config now db disk =
      let start : Cleaning = record {
        db = db;
        disk = disk;
        result = record {
          expired_artifacts = 0;
          purged_jobs = 0;
          orphan_dirs = 0;
          purged_pods = 0;
        };
      } in
      let expired = for_each expire_job (finished_before (now - config.artifact_ttl_ms) db) start in
      purge config now
        (remove_orphans config now artifacts (remove_orphans config now inputs expired))
