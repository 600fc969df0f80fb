-- ===== src/Routes/Videos/Read/Kept.antt =====
-- gateway/src/routes/videos.ts, DELETE /v1/videos/:id, keeps what the statements of the store keep.
use nidora_ai_inference.Base.{ℕ, inl, inr, if-elim, Option-cases, Str}
use nidora_ai_inference.Domain.Types.{is_queued}
use nidora_ai_inference.Store.Db.{get}
use nidora_ai_inference.Routes.State.{Gateway, Reply}
use nidora_ai_inference.Store.Jobs.{cancel_queued}
use nidora_ai_inference.Domain.Serialize.{VideoResponse}
use nidora_ai_inference.Store.Kept.{Kept, cancel_queued-kept, request_cancel-kept}
use nidora_ai_inference.Scheduler.Config.{Config}
use nidora_ai_inference.Routes.Videos.Read.{runs, cancel_running, cancel_waiting, delete_video}

module _ {m : ℕ} (I : Kept m) (config : Config) (id : Str) where
  abbrev EndsOn : Gateway × Reply VideoResponse → Type 0
  EndsOn t = I.On t.0.db.jobs

  cancel_running-kept : (g : Gateway) → I.On g.db.jobs → EndsOn (cancel_running config id g)
  unfolding cancel_running
  cancel_running-kept g s =
      if-elim EndsOn (runs (get id g.db)) _ _ (λ e. request_cancel-kept I g.db s id g.db.clock)
        (λ e. s)

  cancel_waiting-kept : (g : Gateway) → I.On g.db.jobs → EndsOn (cancel_waiting config id g)
  unfolding cancel_waiting
  cancel_waiting-kept g s =
      if-elim EndsOn (cancel_queued id g.db.clock g.db).1 _ _ (λ e. after)
        (λ e. cancel_running-kept (record g { db = (cancel_queued id g.db.clock g.db).0 }) after)
    where
      after : I.On (cancel_queued id g.db.clock g.db).0.jobs
      after = cancel_queued-kept I g.db s id g.db.clock

  pub delete_video-kept : (g : Gateway) → I.On g.db.jobs → EndsOn (delete_video config id g)
  unfolding delete_video
  delete_video-kept g s = elim (Option-cases (get id g.db)) [
    | inl e ↦ rw (e, delete_video) s
    | inr (job, e) ↦
        rw (e, delete_video)
          (if-elim EndsOn (is_queued job.state) _ _ (λ q. cancel_waiting-kept g s)
            (λ q. cancel_running-kept g s))
  ]
