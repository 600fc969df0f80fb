-- ===== src/Routes/Agent/Files/Mismatch.antt =====
-- gateway/src/routes/agent.ts: what a checksum mismatch does to the job whose media was uploaded.
use nidora_ai_inference.Base.{
  ℕ, ◌≡◌, refl, subst, true, false, inl, inr, none, some, List, [], ◌∷◌, arith, Bool-cases, Str,
  str_eq, delete_where, find,
}
use nidora_ai_inference.Domain.Types.{FilePath, Job}
use nidora_ai_inference.Domain.Errors.{checksum_mismatch, api_error}
use nidora_ai_inference.Store.Db.{get}
use nidora_ai_inference.Scheduler.Config.{Config}
use nidora_ai_inference.Artifacts.{
  Disk, read_file, remove_job, stream_body, write_artifact, write_file, store_body, artifact_path,
}
use nidora_ai_inference.Routes.State.{Gateway, Upload, rejected}
use nidora_ai_inference.Routes.Agent.Files.{
  current_lease, input_is_gone, send_input, input, stored, after_write, finish_upload,
}

read_file-remove_job :
    (path : FilePath) (disk : Disk) → read_file path (remove_job path.job_id disk) ≡ none
unfolding read_file remove_job find delete_where
read_file-remove_job path [] = refl
read_file-remove_job path (f ∷ fs) = elim (Bool-cases (str_eq f.path.job_id path.job_id)) [
  | inl e ↦ rw e (read_file-remove_job path fs)
  | inr e ↦ ground (arith, e, read_file-remove_job path fs)
]

finish_upload-refused :
    (sha256 : List ℕ → Str) (config : Config) (up : Upload) (chunks : List (List ℕ)) (c : ℕ)
    (cs : Str) (body : List ℕ) (g : Gateway)
    → stream_body config.max_artifact_bytes [] chunks ≡ some body
    → str_eq (c ∷ cs) (sha256 body) ≡ false
    → (disk : Disk) × (finish_upload sha256 config up chunks (some (c ∷ cs)) g ≡ (
      record g { disk = remove_job up.job.id disk },
      rejected 400 (api_error 400 (some checksum_mismatch) none),
    ))
unfolding finish_upload after_write stored write_artifact store_body
finish_upload-refused sha256 config up chunks c cs body g s m =
    (write_file (artifact_path up.job.id up.filename) body g.disk, rw (s, m) refl)

-- An upload that came in whole, and whose hash is not the one that its header claims, is refused with
-- 400. It leaves the database as it was, so that the job keeps its lease and its input path; but the
-- input file under the job's own directory is gone, and the pod's next request for it gets 410.
pub finish_upload-input_lost :
    (sha256 : List ℕ → Str) (config : Config) (up : Upload) (chunks : List (List ℕ)) (c : ℕ)
    (cs : Str) (body : List ℕ) (g : Gateway) (job : Job) (lease : Str) (path : FilePath)
    → stream_body config.max_artifact_bytes [] chunks ≡ some body
    → str_eq (c ∷ cs) (sha256 body) ≡ false
    → get up.job.id g.db ≡ some job
    → current_lease lease job ≡ true
    → job.input_path ≡ some path
    → path.job_id ≡ up.job.id
    → let (g', answer) = finish_upload sha256 config up chunks (some (c ∷ cs)) g in
      (answer ≡ rejected 400 (api_error 400 (some checksum_mismatch) none))
      × (g'.db ≡ g.db)
      × (input up.job.id lease g' ≡ input_is_gone)
unfolding input send_input
finish_upload-input_lost sha256 config up chunks c cs body g job lease path s m e l p own =
    let (disk, eq) = finish_upload-refused sha256 config up chunks c cs body g s m in
    rw eq (refl, refl, ground (arith, e, l, p, gone disk))
  where
    gone : (disk : Disk) → read_file path (remove_job up.job.id disk) ≡ none
    gone disk =
        subst (λ k. read_file path (remove_job k disk) ≡ none) own (read_file-remove_job path disk)
