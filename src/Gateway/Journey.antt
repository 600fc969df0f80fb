-- ===== src/Gateway/Journey.antt =====
-- The gateway as a whole: a video from its submission to its download.
use nidora_ai_inference.Base.{
  ℕ, ◌+◌, ◌<◌, ◌≡◌, refl, sym, ap, ◌∙◌, subst, true, false, Option, some, List, [], ◌∷◌, arith, any,
  All, length, Str, text, str_eq_refl,
}
use nidora_ai_inference.Domain.Types.{completed, Artifact, Job}
use nidora_ai_inference.Domain.Filenames.{is_safe_filename}
use nidora_ai_inference.Store.Db.{has_id, get}
use nidora_ai_inference.Store.Queries.{counts}
use nidora_ai_inference.Store.Pods.{pod_model}
use nidora_ai_inference.Store.Fencing.{held}
use nidora_ai_inference.Scheduler.Config.{Config}
use nidora_ai_inference.Artifacts.{stream_body}
use nidora_ai_inference.Routes.State.{Parked, Upload, Gateway, sent}
use nidora_ai_inference.Routes.Agent.Files.{mismatches, declares_over}
use nidora_ai_inference.Routes.Agent.Result.{ResultBody, safe_name}
use nidora_ai_inference.Routes.Agent.Result.Completion.{finished_row}
use nidora_ai_inference.Routes.Agent.Poll.{poll_woken}
use nidora_ai_inference.Routes.Videos.Create.{pass, Body, Admitted, admit}
use nidora_ai_inference.Routes.Videos.Read.{content}
use nidora_ai_inference.Routes.Videos.Read.Download.{download}
use nidora_ai_inference.Ids.{new_video_id, new_lease_id}
use nidora_ai_inference.Ids.Shape.{IsByte, new_video_id-Names}
use nidora_ai_inference.Gateway.{Runtime, submits, resumes, uploads, arrives, reports, step, run}
use nidora_ai_inference.Gateway.Soundness.{Sound, IsUsable, step-Sound}
use nidora_ai_inference.Gateway.Dispatch.{submit-Dispatched}
use nidora_ai_inference.Gateway.Delivery.{upload-delivered}

module _ (rt : Runtime) (config : Config) (u : IsUsable rt config) where
  abbrev pub id_of : Gateway → Str
  id_of g = new_video_id (rt.random_bytes g.db.drawn)

  abbrev pub lease_of : Gateway → Str
  lease_of g = new_lease_id rt.uuid (g.db.drawn + 1)

  -- The video is completed, and is sent as these bytes under this name.
  abbrev pub Delivered : Str → Str → List ℕ → Gateway → Type 0
  Delivered id filename bytes g =
      (f : Artifact) × (job : Job) × (f.filename ≡ filename)
      × (get id g.db ≡ some job)
      × (job.state ≡ completed)
      × (content id g ≡ sent 200 (download f bytes))

  -- Behind the dispatch, the video is in progress under the lease.
  record IsRunning (g g2 : Gateway) : Type 0 where
    job : Job
    row : get (id_of g) g2.db ≡ some job
    leased : held (lease_of g) job ≡ true
    open_uploads : g2.uploads ≡ g.uploads

  submit-IsRunning :
      (form : Body) (g : Gateway) (a : Admitted) (p : Parked) (ps : List Parked)
      → Sound config g
      → admit rt.floats rt.sha256 rt.to_number config form g.db ≡ pass a
      → any (has_id (id_of g)) g.db.jobs ≡ false
      → (counts g.db).queued ≡ 0
      → g.woken ≡ []
      → g.waiting ≡ p ∷ ps
      → pod_model p.pod ≡ some a.model
      → 0 < p.slots
      → IsRunning g (step rt config resumes (step rt config (submits form) g))
  submit-IsRunning form g a p ps s e n empty no_woken first model pos =
      let (same, ups, (x, more, _, i, l, (j, row, state, _, lease))) =
        submit-Dispatched rt config u form g a p ps s e n empty no_woken first model pos in
      subst (IsRunning g) (sym same) (record {
        job = j;
        row =
            ap
              (λ k.
                get k
                  (poll_woken rt.uuid config p
                    (record (step rt config (submits form) g) { woken = ps })).0.db)
              (sym i)
            ∙ row;
        leased = ground (arith, state, lease, l, str_eq_refl (lease_of g));
        open_uploads = ups;
      })

  -- In a sound gateway with no queued job and no woken poll, whose first parked poll has a free slot and
  -- is of a pod that has loaded the model of a submission that passes the checks under a new id of six
  -- bytes. The client submits; the parked poll runs on; the pod uploads a body that comes in whole,
  -- against no hash or its own, under a safe name and the lease that is drawn; and it reports the job
  -- completed under the same name. Then the video is completed, and a download of it sends that body.
  pub video-Delivered :
      (form : Body) (g : Gateway) (a : Admitted) (p : Parked) (ps : List Parked) (filename : Str)
      (declared : Option ℕ) (chunks : List (List ℕ)) (expected : Option Str) (bytes : List ℕ)
      (report : ResultBody)
      → Sound config g
      → admit rt.floats rt.sha256 rt.to_number config form g.db ≡ pass a
      → length (rt.random_bytes g.db.drawn) ≡ 6
      → All IsByte (rt.random_bytes g.db.drawn)
      → any (has_id (id_of g)) g.db.jobs ≡ false
      → (counts g.db).queued ≡ 0
      → g.woken ≡ []
      → g.waiting ≡ p ∷ ps
      → pod_model p.pod ≡ some a.model
      → 0 < p.slots
      → is_safe_filename filename ≡ true
      → declares_over declared config.max_artifact_bytes ≡ false
      → stream_body config.max_artifact_bytes [] chunks ≡ some bytes
      → mismatches expected (rt.sha256 bytes) ≡ false
      → report.state ≡ some (text "completed")
      → safe_name report.filename ≡ some filename
      → let g' =
          run rt config
            (submits form
              ∷ resumes
              ∷ uploads (id_of g) (lease_of g) (some filename) declared
              ∷ arrives (length g.uploads) chunks expected
              ∷ reports (id_of g) (lease_of g) report
              ∷ [])
            g in
        Delivered (id_of g) filename bytes g'
  unfolding run
  video-Delivered form g a p ps filename declared chunks expected bytes report s e six byte new
        empty no_woken first model pos f d w m b n =
      let g1 = step rt config (submits form) g in
      let g2 = step rt config resumes g1 in
      let r = submit-IsRunning form g a p ps s e new empty no_woken first model pos in
      let (_, _, safe, _) = new_video_id-Names (rt.random_bytes g.db.drawn) six byte in
      let (file, name, row, sends) =
        upload-delivered rt config (id_of g) (lease_of g) filename declared chunks expected bytes
          report g2 r.job
          (step-Sound rt config u resumes g1 (step-Sound rt config u (submits form) g s))
          (u.named (g.db.drawn + 1)) r.row r.leased safe f d w m b n in
      subst
        (λ k. Delivered (id_of g) filename bytes (
          run rt config
            (uploads (id_of g) (lease_of g) (some filename) declared
              ∷ arrives k chunks expected
              ∷ reports (id_of g) (lease_of g) report
              ∷ [])
            g2))
        (ap (λ (us : List Upload). length us) r.open_uploads)
        (file, finished_row (file ∷ []) g2.db.clock r.job, name, row, refl, sends)
