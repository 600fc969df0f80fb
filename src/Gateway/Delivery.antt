-- ===== src/Gateway/Delivery.antt =====
-- The gateway as a whole: an upload, its result, and the download behind them.
use nidora_ai_inference.Base.{
  ℕ, ◌≡◌, refl, ap, ◌∙◌, true, false, Option, some, List, [], ◌∷◌, ◌++◌, map, arith, length,
  get_elem?, truthy, Str, text, str_eq_sound, find_sound,
}
use nidora_ai_inference.Domain.Types.{Artifact, Job}
use nidora_ai_inference.Domain.Filenames.{is_safe_filename}
use nidora_ai_inference.Store.Db.{has_id, get, add_event}
use nidora_ai_inference.Store.Fencing.{held}
use nidora_ai_inference.Store.Invariant.{Distinct}
use nidora_ai_inference.Scheduler.Config.{Config}
use nidora_ai_inference.Artifacts.{stream_body, artifact_path, read_file, write_file}
use nidora_ai_inference.Artifacts.Files.{read_file-write_file, read_file-remove_input}
use nidora_ai_inference.Routes.State.{Upload, Gateway, Reply, sent}
use nidora_ai_inference.Routes.Agent.Files.{Uploaded, mismatches, declares_over}
use nidora_ai_inference.Routes.Agent.Files.Opening.{artifact-opens}
use nidora_ai_inference.Routes.Agent.Result.{ResultBody, safe_name, result}
use nidora_ai_inference.Routes.Agent.Result.Completion.{finished_row, result-completed, disk-result}
use nidora_ai_inference.Routes.Videos.Read.{content}
use nidora_ai_inference.Routes.Videos.Read.Download.{
  logged, download, finish_upload-stored, content-found,
}
use nidora_ai_inference.Gateway.{Runtime, uploads, arrives, reports, step, arrive, remove_at, run}
use nidora_ai_inference.Gateway.Soundness.{Sound}

get_elem?-last : (us : List Upload) (up : Upload) → get_elem? (us ++ up ∷ []) (length us) ≡ some up
get_elem?-last [] up = refl
get_elem?-last (u ∷ us) up = get_elem?-last us up

module _ (rt : Runtime) (config : Config) where
  -- The gateway behind an upload that came in whole.
  abbrev behind_upload : Str → List ℕ → Job → Gateway → Gateway
  behind_upload filename bytes job g =
      let up : Upload = record { job = job; filename = filename } in
      record g {
        db = logged up bytes g.db;
        disk = write_file (artifact_path job.id filename) bytes g.disk;
        uploads = remove_at (length g.uploads) (g.uploads ++ up ∷ []);
      }

  upload-arrives :
      (id : Str) (c : ℕ) (cs filename : Str) (declared : Option ℕ) (chunks : List (List ℕ))
      (expected : Option Str) (bytes : List ℕ) (g : Gateway) (job : Job)
      → get id g.db ≡ some job
      → held (c ∷ cs) job ≡ true
      → is_safe_filename filename ≡ true
      → declares_over declared config.max_artifact_bytes ≡ false
      → stream_body config.max_artifact_bytes [] chunks ≡ some bytes
      → mismatches expected (rt.sha256 bytes) ≡ false
      → step rt config
          (arrives (length g.uploads) chunks expected)
          (step rt config (uploads id (c ∷ cs) (some filename) declared) g)
        ≡ behind_upload filename bytes job g
  unfolding step arrive
  upload-arrives id c cs filename declared chunks expected bytes g job e h f d s m =
      let up : Upload = record { job = job; filename = filename } in
      let opened : Gateway = record g { uploads = g.uploads ++ up ∷ [] } in
      let n : ℕ = length g.uploads in
      ap (λ (t : Gateway × Option (Reply Uploaded)). step rt config (arrives n chunks expected) t.0)
        (artifact-opens config id c cs filename declared g job e h f d)
      ∙ ap (λ (o : Option Upload). arrive rt config n o chunks expected opened)
          (get_elem?-last g.uploads up)
      ∙ ap (λ (t : Gateway × Reply Uploaded). t.0)
          (finish_upload-stored rt.sha256 config up chunks expected bytes
            (record opened { uploads = remove_at n (g.uploads ++ up ∷ []) }) s m)

  one_file :
      (files : List Artifact) (filename : Str)
      → map (λ (a : Artifact). a.filename) files ≡ filename ∷ []
      → (a : Artifact) × (files ≡ a ∷ []) × (a.filename ≡ filename)
  one_file [] filename e = absurd (ground arith)
  one_file (a ∷ []) filename e = (a, refl, ground arith)
  one_file (a ∷ b ∷ files) filename e = absurd (ground arith)

  -- The report of a job whose media is on the disk.
  report-delivers :
      (id : Str) (c : ℕ) (cs filename : Str) (bytes : List ℕ) (body : ResultBody) (g : Gateway)
      (job : Job)
      → Distinct g.db.jobs
      → get id g.db ≡ some job
      → held (c ∷ cs) job ≡ true
      → is_safe_filename id ≡ true
      → is_safe_filename filename ≡ true
      → read_file (artifact_path job.id filename) g.disk ≡ some bytes
      → body.state ≡ some (text "completed")
      → safe_name body.filename ≡ some filename
      → let g' = (result config id (c ∷ cs) body g).0 in
        (a : Artifact) × (a.filename ≡ filename)
        × (get id g'.db ≡ some (finished_row (a ∷ []) g.db.clock job))
        × (content id g' ≡ sent 200 (download a bytes))
  unfolding get
  report-delivers id c cs filename bytes body g job d e h i f r b n =
      let (_, (files, row, names)) =
        result-completed config id c cs body g job filename d e h b n in
      let (a, one, name) = one_file files filename names in
      let g' = (result config id (c ∷ cs) body g).0 in
      let own : job.id ≡ id = str_eq_sound job.id id (find_sound (has_id id) g.db.jobs job e) in
      let row' : get id g'.db ≡ some (finished_row (a ∷ []) g.db.clock job) =
        row ∙ ap (λ fs. some (finished_row fs g.db.clock job)) one in
      let media : read_file (artifact_path job.id a.filename) g'.disk ≡ some bytes =
        ap (λ k. read_file (artifact_path job.id k) g'.disk) name
        ∙ ap (read_file (artifact_path job.id filename))
            (disk-result config id c cs body g job filename d e h b n)
        ∙ read_file-remove_input id job.id filename g.disk
        ∙ r in
      (
        a,
        name,
        row',
        content-found id g' (finished_row (a ∷ []) g.db.clock job) a [] bytes row' refl
            (ap is_safe_filename own ∙ i) (ap is_safe_filename name ∙ f) media,
      )

  -- In a sound gateway, for a job in progress under a lease that is not empty, whose id is a safe
  -- name: the pod opens an
  -- upload under its lease and a safe name, the body comes in whole against no hash or its own, and the
  -- pod reports the job completed under the same name and lease. Then the row is completed with one
  -- artifact of that name, and a download of the video sends the body.
  pub upload-delivered :
      (id lease filename : Str) (declared : Option ℕ) (chunks : List (List ℕ))
      (expected : Option Str) (bytes : List ℕ) (body : ResultBody) (g : Gateway) (job : Job)
      → Sound config g
      → truthy lease ≡ true
      → get id g.db ≡ some job
      → held lease job ≡ true
      → is_safe_filename id ≡ true
      → is_safe_filename filename ≡ true
      → declares_over declared config.max_artifact_bytes ≡ false
      → stream_body config.max_artifact_bytes [] chunks ≡ some bytes
      → mismatches expected (rt.sha256 bytes) ≡ false
      → body.state ≡ some (text "completed")
      → safe_name body.filename ≡ some filename
      → let g' =
          run rt config
            (uploads id lease (some filename) declared
              ∷ arrives (length g.uploads) chunks expected
              ∷ reports id lease body
              ∷ [])
            g in
        (a : Artifact) × (a.filename ≡ filename)
        × (get id g'.db ≡ some (finished_row (a ∷ []) g.db.clock job))
        × (content id g' ≡ sent 200 (download a bytes))
  unfolding run step get add_event
  upload-delivered id [] filename declared chunks expected bytes body g job s t e h i f d w m b n =
      absurd (ground arith)
  upload-delivered id (c ∷ cs) filename declared chunks expected bytes body g job s t e h i f d w m
        b n =
      rw (upload-arrives id c cs filename declared chunks expected bytes g job e h f d w m) (
        report-delivers id c cs filename bytes body (behind_upload filename bytes job g) job
          s.distinct e h i f (read_file-write_file (artifact_path job.id filename) bytes g.disk) b
          n)
