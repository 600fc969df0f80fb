-- ===== src/Routes/Agent/Files/Opening.antt =====
-- gateway/src/routes/agent.ts, POST /v1/agent/jobs/:id/artifact: an upload that is let in.
use nidora_ai_inference.Base.{
  ℕ, ◌≡◌, true, false, Option, none, some, [], ◌∷◌, ◌++◌, arith, Str, column_is_sound,
}
use nidora_ai_inference.Domain.Types.{Job}
use nidora_ai_inference.Domain.Filenames.{is_safe_filename}
use nidora_ai_inference.Store.Db.{get}
use nidora_ai_inference.Store.Fencing.{held}
use nidora_ai_inference.Scheduler.Config.{Config}
use nidora_ai_inference.Routes.State.{Gateway}
use nidora_ai_inference.Routes.Agent.Files.{current_lease, declares_over, begin_upload, artifact}

pub artifact-opens :
    (config : Config) (id : Str) (c : ℕ) (cs filename : Str) (declared : Option ℕ) (g : Gateway)
    (job : Job)
    → get id g.db ≡ some job
    → held (c ∷ cs) job ≡ true
    → is_safe_filename filename ≡ true
    → declares_over declared config.max_artifact_bytes ≡ false
    → artifact config id (c ∷ cs) (some filename) declared g
      ≡ (record g { uploads = g.uploads ++ record { job = job; filename = filename } ∷ [] }, none)
unfolding artifact begin_upload current_lease
artifact-opens config id c cs filename declared g job e h f d =
    ground (arith, e, h, f, d, column_is_sound job.lease_id (c ∷ cs))
