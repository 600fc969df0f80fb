-- ===== src/Routes/Videos/Read/Cancel.antt =====
-- gateway/src/routes/videos.ts, DELETE /v1/videos/:id: what a cancel does in each state of the job.
use nidora_ai_inference.Base.{ℕ, ◌≡◌, refl, true, some, arith, Str}
use nidora_ai_inference.Domain.Types.{is_queued, is_in_progress, is_terminal, Job}
use nidora_ai_inference.Store.Db.{Db, get}
use nidora_ai_inference.Store.Jobs.{
  cancelled_queued_row, cancel_queued, flagged_row, request_cancel,
}
use nidora_ai_inference.Store.Invariant.{Distinct}
use nidora_ai_inference.Store.Lookup.{swap-found}
use nidora_ai_inference.Scheduler.Config.{Config}
use nidora_ai_inference.Routes.State.{Gateway, sent}
use nidora_ai_inference.Routes.Videos.Read.{
  respond, with_video, finished_already, cancel_running, cancel_waiting, delete_video,
}

module _ (config : Config) (id : Str) (g : Gateway) (d : Distinct g.db.jobs) (job : Job)
    (e : get id g.db ≡ some job) where
  queued-cancelled :
      is_queued job.state ≡ true
      → let (db, done) = cancel_queued id g.db.clock g.db in
        (done ≡ true) × (get id db ≡ some (cancelled_queued_row g.db.clock job))
  unfolding cancel_queued
  queued-cancelled q =
      swap-found id (λ j. is_queued j.state) (cancelled_queued_row g.db.clock) _ _ _ g.db d
        (λ k. refl) job e q

  running-flagged :
      is_in_progress job.state ≡ true
      → let (db, done) = request_cancel id g.db.clock g.db in
        (done ≡ true) × (get id db ≡ some (flagged_row g.db.clock job))
  unfolding request_cancel
  running-flagged q =
      swap-found id (λ j. is_in_progress j.state) (flagged_row g.db.clock) _ _ _ g.db d (λ k. refl)
        job e q

  queued-step :
      is_queued job.state ≡ true
      → let db = (cancel_queued id g.db.clock g.db).0 in
        delete_video config id g ≡ (record g { db = db }, with_video config 200 id db)
  unfolding delete_video cancel_waiting
  queued-step q = ground (arith, e, q, (queued-cancelled q).0)

  running-step :
      is_in_progress job.state ≡ true
      → let db = (request_cancel id g.db.clock g.db).0 in
        delete_video config id g ≡ (record g { db = db }, with_video config 202 id db)
  unfolding delete_video cancel_running
  running-step q = ground (arith, e, q)

  with_video-found :
      (status : ℕ) (db : Db) (j : Job)
      → get id db ≡ some j
      → with_video config status id db ≡ sent status (respond config j db)
  unfolding with_video
  with_video-found status db j h = ground (arith, h)

  -- Under distinct ids, for a job that is there: a queued one is cancelled at once and shown with 200;
  -- one in progress stays so with its cancel flag set, and is shown with 202; a finished one gets 409,
  -- and the gateway stays as it was.
  pub delete_video-cancels :
      let (g', answer) = delete_video config id g in
      (is_queued job.state ≡ true
        → (get id g'.db ≡ some (cancelled_queued_row g.db.clock job))
          × (answer ≡ sent 200 (respond config (cancelled_queued_row g.db.clock job) g'.db)))
      × (is_in_progress job.state ≡ true
          → (get id g'.db ≡ some (flagged_row g.db.clock job))
            × (answer ≡ sent 202 (respond config (flagged_row g.db.clock job) g'.db)))
      × (is_terminal job.state ≡ true → delete_video config id g ≡ (g, finished_already))
  unfolding delete_video cancel_running
  delete_video-cancels = (
    λ q.
        rw (queued-step q)
          ((queued-cancelled q).1, with_video-found 200 _ _ (queued-cancelled q).1),
    λ q.
        rw (running-step q) ((running-flagged q).1, with_video-found 202 _ _ (running-flagged q).1),
    λ q. ground (arith, e),
  )
