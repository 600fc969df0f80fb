-- ===== src/Cleanup/Kept.antt =====
-- gateway/src/artifacts/cleanup.ts keeps what the statements of the store keep.
use nidora_ai_inference.Base.{ℕ, ◌-◌, Option, List, [], ◌∷◌, arith, Str}
use nidora_ai_inference.Domain.Types.{Area, inputs, artifacts, Job}
use nidora_ai_inference.Store.Db.{Db}
use nidora_ai_inference.Store.Jobs.{set_artifacts}
use nidora_ai_inference.Store.Queries.{finished_before}
use nidora_ai_inference.Artifacts.{Disk}
use nidora_ai_inference.Store.Pods
use nidora_ai_inference.Store.Kept.{Kept, set_artifacts-kept, clear_input-kept, purge_before-kept}
use nidora_ai_inference.Scheduler.Config.{Config}
use nidora_ai_inference.Scheduler.Reaper.{for_each}
use nidora_ai_inference.Cleanup.{
  Cleaning, entries, expire_job, remove_orphan, remove_orphans, purge, cleanup,
}

module _ {m : ℕ} (I : Kept m) where
  abbrev Sound : Cleaning → Type 0
  Sound c = I.On c.db.jobs

  for_each-kept {ℓ} :
      {A : Type ℓ} (body : A → Cleaning → Cleaning)
      → ((x : A) (c : Cleaning) → Sound c → Sound (body x c))
      → (xs : List A) (c : Cleaning) → Sound c
      → Sound (for_each body xs c)
  unfolding for_each
  for_each-kept body keep [] c s = s
  for_each-kept body keep (x ∷ xs) c s = for_each-kept body keep xs (body x c) (keep x c s)

  expire_job-kept : (job : Job) (c : Cleaning) → Sound c → Sound (expire_job job c)
  unfolding expire_job
  expire_job-kept job c s =
      clear_input-kept I (set_artifacts job.id [] c.db) (set_artifacts-kept I c.db s job.id [])
        job.id

  module _ (mtime : Area → Str → Option ℕ) (config : Config) (now : ℕ) where
    remove_orphan-kept :
        (area : Area) (entry : Str) (c : Cleaning)
        → Sound c
        → Sound (remove_orphan mtime config now area entry c)
    unfolding remove_orphan
    remove_orphan-kept area entry c s = ground arith

    remove_orphans-kept :
        (area : Area) (c : Cleaning) → Sound c → Sound (remove_orphans mtime config now area c)
    unfolding remove_orphans
    remove_orphans-kept area c s =
        for_each-kept (remove_orphan mtime config now area) (remove_orphan-kept area)
          (entries area c.disk) c s

    purge-kept : (c : Cleaning) → Sound c → Sound (purge mtime config now c)
    unfolding purge Pods.purge_before
    purge-kept c s = purge_before-kept I c.db s (now - config.job_retention_ms)

    pub cleanup-kept :
        (db : Db) (disk : Disk) → I.On db.jobs → I.On (cleanup mtime config now db disk).db.jobs
    unfolding cleanup
    cleanup-kept db disk s =
        let start : Cleaning = record {
          db = db;
          disk = disk;
          result = record {
            expired_artifacts = 0;
            purged_jobs = 0;
            orphan_dirs = 0;
            purged_pods = 0;
          };
        } in
        let expired =
          for_each expire_job (finished_before (now - config.artifact_ttl_ms) db) start in
        let swept = remove_orphans mtime config now inputs expired in
        purge-kept (remove_orphans mtime config now artifacts swept) (
          remove_orphans-kept artifacts swept (
            remove_orphans-kept inputs expired (
              for_each-kept expire_job expire_job-kept
                (finished_before (now - config.artifact_ttl_ms) db) start s)))
