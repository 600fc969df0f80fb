-- ===== src/Gateway/Dispatch.antt =====
-- The gateway as a whole: a submission and the parked poll that it wakes.
use nidora_ai_inference.Base.{
  ◌+◌, ◌<◌, ◌≡◌, refl, ap, ◌∙◌, subst, Bool, true, false, some, List, [], ◌∷◌, ◌++◌, arith,
  if◌then◌else◌, any, is_some, take, column_is, All, Str, str_eq_refl, count_where, select_where,
  order_by,
}
use nidora_ai_inference.Domain.Types.{is_queued, Job}
use nidora_ai_inference.Domain.Models.{get_model}
use nidora_ai_inference.Store.Db.{Db, has_id}
use nidora_ai_inference.Store.Jobs.{new_row}
use nidora_ai_inference.Store.Queries.{list_queued, counts}
use nidora_ai_inference.Store.Pods.{pod_model}
use nidora_ai_inference.Scheduler.Config.{Config}
use nidora_ai_inference.Scheduler.Claim.{Assignment, Claiming, serves, claim_for_pod}
use nidora_ai_inference.Scheduler.Claim.Laws.{IsHeld, claim_for_pod-Holds, claim_for_pod-IsHeld}
use nidora_ai_inference.Scheduler.Claim.Laws.First.{claim_for_pod-first}
use nidora_ai_inference.Routes.State.{Parked, Gateway, Reply, sent, raised}
use nidora_ai_inference.Routes.Agent.Poll.{PollResponse, respond, poll_woken}
use nidora_ai_inference.Routes.Videos.Create.{pass, Body, Admitted, admit}
use nidora_ai_inference.Routes.Videos.Create.Admission.{admit-Meets}
use nidora_ai_inference.Routes.Videos.Create.Submission.{submitted_row, create_video-Queues}
use nidora_ai_inference.Ids.{new_video_id, new_lease_id}
use nidora_ai_inference.Gateway.{Runtime, submits, resumes, step, resume}
use nidora_ai_inference.Gateway.Soundness.{Sound, IsUsable, step-Sound}

select_where-last :
    (hit : Job → Bool) (rows : List Job) (j : Job)
    → count_where hit rows ≡ 0
    → hit j ≡ true
    → select_where hit (rows ++ j ∷ []) ≡ j ∷ []
unfolding select_where count_where
select_where-last hit [] j n h = ground arith
select_where-last hit (r ∷ rows) j n h = ground (arith, select_where-last hit rows j)

-- A queue that was empty has the new row alone.
list_queued-only :
    (db db' : Db) (j : Job)
    → (counts db).queued ≡ 0
    → is_queued j.state ≡ true
    → db'.jobs ≡ db.jobs ++ j ∷ []
    → list_queued 100 db' ≡ j ∷ []
unfolding list_queued counts order_by
list_queued-only db db' j n h e =
    ap
      (λ rows.
        take 100 (order_by (λ j'. j'.created_at) (select_where (λ j'. is_queued j'.state) rows)))
      e
    ∙ ap (λ rows. take 100 (order_by (λ (j' : Job). j'.created_at) rows))
        (select_where-last (λ j'. is_queued j'.state) db.jobs j n h)

module _ (rt : Runtime) (config : Config) (p : Parked) where
  -- The claim of a woken poll.
  abbrev claims : Db → Claiming
  claims db = claim_for_pod rt.uuid p.pod p.slots config.lease_ttl_ms db.clock db

  -- What the poll is answered, and the row behind it.
  abbrev pub Dispatched : Str → Str → Gateway → Reply PollResponse → Type 0
  Dispatched id lease g answer =
      (a : Assignment) × (more : List Assignment) × (answer
        ≡ sent 200 (respond config p (a ∷ more)))
      × (a.job_id ≡ id)
      × (a.lease_id ≡ lease)
      × IsHeld p.pod g.db a

  poll_woken-Dispatched :
      (u : IsUsable rt config) (g : Gateway) (job : Job) (rest : List Job)
      → Sound config g
      → list_queued 100 g.db ≡ job ∷ rest
      → serves p.pod job ≡ true
      → is_some (get_model (some job.model)) ≡ true
      → 0 < p.slots
      → let (g', answer) = poll_woken rt.uuid config p g in
        Dispatched job.id (new_lease_id rt.uuid g.db.drawn) g' answer
  unfolding poll_woken
  poll_woken-Dispatched u g job rest s e v k pos =
      let (a, (more, h), i, l) =
        claim_for_pod-first rt.uuid p.pod p.slots config.lease_ttl_ms g.db.clock g.db job rest
          s.distinct e v k pos in
      let held =
        claim_for_pod-IsHeld rt.uuid config.max_attempts u.named p.pod p.slots config.lease_ttl_ms
          g.db.clock g.db s in
      (
        a,
        more,
        ap (λ b. if b then raised else sent 200 (respond config p (claims g.db).assigned))
              (claim_for_pod-Holds rt.uuid p.pod p.slots config.lease_ttl_ms g.db.clock
                g.db).never_thrown
            ∙ ap (λ xs. sent 200 (respond config p xs)) h,
        i,
        l,
        (subst (All (IsHeld p.pod (claims g.db).db)) h held).0,
      )

module _ (rt : Runtime) (config : Config) (u : IsUsable rt config) where
  -- In a sound gateway with no queued job and no woken poll, where the first parked poll has a free slot
  -- and its pod has loaded the model of a submission that passes the checks under a new id: the
  -- submission wakes that poll, and when it runs on it is answered with the video first, whose row is
  -- then in progress for its pod under the lease that the answer names, the id that is drawn behind
  -- the video's. The open uploads are as they were.
  pub submit-Dispatched :
      (body : Body) (g : Gateway) (a : Admitted) (p : Parked) (ps : List Parked)
      → Sound config g
      → admit rt.floats rt.sha256 rt.to_number config body g.db ≡ pass a
      → any (has_id (new_video_id (rt.random_bytes g.db.drawn))) g.db.jobs ≡ false
      → (counts g.db).queued ≡ 0
      → g.woken ≡ []
      → g.waiting ≡ p ∷ ps
      → pod_model p.pod ≡ some a.model
      → 0 < p.slots
      → let woken : Gateway = record (step rt config (submits body) g) { woken = ps } in
        let (g', answer) = poll_woken rt.uuid config p woken in
        (step rt config resumes (step rt config (submits body) g) ≡ g')
        × (g'.uploads ≡ g.uploads)
        × Dispatched rt config p
            (new_video_id (rt.random_bytes g.db.drawn))
            (new_lease_id rt.uuid (g.db.drawn + 1))
            g'
            answer
  unfolding step resume new_row poll_woken
  submit-Dispatched body g a p ps s e n empty no_woken first model pos =
      let q =
        create_video-Queues rt.floats rt.sha256 rt.to_number rt.random_bytes config body g a e n in
      let m = admit-Meets rt.floats rt.sha256 rt.to_number config body g.db a e in
      let g1 : Gateway = step rt config (submits body) g in
      (
        ap (λ (ws : List Parked). resume rt config ws g1)
            (q.woken ∙ ap (λ (ws : List Parked). ws ++ g.waiting) no_woken ∙ first),
        q.uploads,
        subst
            (λ n.
              let (g', answer) = poll_woken rt.uuid config p (record g1 { woken = ps }) in
              Dispatched rt config p (new_video_id (rt.random_bytes g.db.drawn))
                (new_lease_id rt.uuid n) g' answer)
            q.drawn
            (poll_woken-Dispatched rt config p u (record g1 { woken = ps })
              (submitted_row rt.floats rt.sha256 rt.to_number rt.random_bytes config body g a) []
              (step-Sound rt config u (submits body) g s)
              (list_queued-only g.db g1.db _ empty refl q.rows)
              (ap (λ o. column_is o a.model) model ∙ str_eq_refl a.model) (ap is_some m.known) pos),
      )
