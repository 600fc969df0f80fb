-- ===== src/Routes/Agent/Files/Soundness.antt =====
-- gateway/src/routes/agent.ts, POST /v1/agent/jobs/:id/artifact, leaves the table of jobs alone.
use nidora_ai_inference.Base.{ℕ, ◌≡◌, refl, Option, none, some, List, arith, Str}
use nidora_ai_inference.Store.Db.{add_event}
use nidora_ai_inference.Routes.State.{Upload, Gateway}
use nidora_ai_inference.Artifacts.{Disk, write_artifact}
use nidora_ai_inference.Scheduler.Config.{Config}
use nidora_ai_inference.Routes.Agent.Files.{artifact, stored, after_write, finish_upload}

pub jobs-artifact :
    (config : Config) (id lease : Str) (filename : Option Str) (declared : Option ℕ) (g : Gateway)
    → (artifact config id lease filename declared g).0.db.jobs ≡ g.db.jobs
unfolding artifact
jobs-artifact config id lease filename declared g = ground arith

module _ (sha256 : List ℕ → Str) (up : Upload) (expected : Option Str) where
  jobs-stored :
      (body : List ℕ) (g : Gateway) → (stored sha256 up expected body g).0.db.jobs ≡ g.db.jobs
  unfolding stored add_event
  jobs-stored body g = ground arith

  jobs-after_write :
      (g : Gateway) (t : Disk × Option (List ℕ))
      → (after_write sha256 up expected g t).0.db.jobs ≡ g.db.jobs
  unfolding after_write
  jobs-after_write g (disk, none) = refl
  jobs-after_write g (disk, some body) = jobs-stored body (record g { disk = disk })

  pub jobs-finish_upload :
      (config : Config) (chunks : List (List ℕ)) (g : Gateway)
      → (finish_upload sha256 config up chunks expected g).0.db.jobs ≡ g.db.jobs
  unfolding finish_upload
  jobs-finish_upload config chunks g =
      jobs-after_write g
        (write_artifact up.job.id up.filename chunks config.max_artifact_bytes g.disk)
