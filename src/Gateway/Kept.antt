-- ===== src/Gateway/Kept.antt =====
-- The gateway as a whole: what the statements of the store keep is kept by every event.
use nidora_ai_inference.Base.{
  ℕ, ◌*◌, ◌≡◌, refl, sym, subst, true, Option, none, some, List, [], ◌∷◌, arith, if-elim, get_elem?,
  Str, truthy,
}
use nidora_ai_inference.Routes.State.{Parked, Upload, Gateway, kick}
use nidora_ai_inference.Store.Kept.{Kept, recover_on_startup-kept}
use nidora_ai_inference.Cleanup.Kept.{cleanup-kept}
use nidora_ai_inference.Scheduler.Config.{Config}
use nidora_ai_inference.Scheduler.Reaper.{sweep, sweep_kicks}
use nidora_ai_inference.Scheduler.Reaper.Kept.{sweep-kept}
use nidora_ai_inference.Store.Pods.{set_draining}
use nidora_ai_inference.Routes.Agent.Files.Soundness.{jobs-artifact, jobs-finish_upload}
use nidora_ai_inference.Routes.Agent.Poll.Kept.{poll-kept, poll_woken-kept}
use nidora_ai_inference.Routes.Agent.Result.Kept.{result-kept}
use nidora_ai_inference.Routes.Videos.Create.{Body, create_video}
use nidora_ai_inference.Routes.Videos.Read.Kept.{delete_video-kept}
use nidora_ai_inference.Routes.Pods.{Wanted, post_drain, delete_drain}
use nidora_ai_inference.Gateway.{
  Event, polls, resumes, times_out, uploads, arrives, reports, submits, cancels, drains, undrains,
  sweeps, cleans, restarts, passes, Runtime, remove_at, resume, arrive, sweep_now, clean_now,
  restart, step,
}

post_drain-kept :
    {m : ℕ} (I : Kept m) (id : Str) (wanted : Wanted) (g : Gateway)
    → I.On g.db.jobs
    → I.On (post_drain id wanted g).0.db.jobs
unfolding post_drain set_draining
post_drain-kept I id wanted g s = ground arith

delete_drain-kept :
    {m : ℕ} (I : Kept m) (id : Str) (g : Gateway)
    → I.On g.db.jobs
    → I.On (delete_drain id g).0.db.jobs
unfolding delete_drain set_draining
delete_drain-kept I id g s = ground arith

module _ (rt : Runtime) (config : Config) (named : (n : ℕ) → truthy (rt.uuid n) ≡ true)
    (I : Kept config.max_attempts) where
  abbrev Holds : Gateway → Type 0
  Holds g = I.On g.db.jobs

  resume-kept : (ps : List Parked) (g : Gateway) → Holds g → Holds (resume rt config ps g)
  unfolding resume
  resume-kept [] g s = s
  resume-kept (p ∷ rest) g s =
      poll_woken-kept rt.uuid config I named p (record g { woken = rest }) s

  arrive-kept :
      (n : ℕ) (o : Option Upload) (chunks : List (List ℕ)) (expected : Option Str) (g : Gateway)
      → Holds g
      → Holds (arrive rt config n o chunks expected g)
  unfolding arrive
  arrive-kept n none chunks expected g s = s
  arrive-kept n (some up) chunks expected g s =
      subst I.On
        (sym (
          jobs-finish_upload rt.sha256 up expected config chunks
            (record g { uploads = remove_at n g.uploads })))
        s

  sweep_now-kept : (g : Gateway) → Holds g → Holds (sweep_now rt config g)
  unfolding sweep_now kick
  sweep_now-kept g s =
      let r = sweep config g.db.clock g.db in
      if-elim Holds (sweep_kicks r.1) _ (record g { db = r.0 })
        (λ e. sweep-kept config I g.db.clock g.db s) (λ e. sweep-kept config I g.db.clock g.db s)

  -- What the statements keep is kept by each event, if a submission keeps it.
  pub step-kept :
      (e : Event) (g : Gateway)
      → ((body : Body)
          → e ≡ submits body
          → Holds (create_video rt.floats rt.sha256 rt.to_number rt.random_bytes config body g).0)
      → Holds g
      → Holds (step rt config e g)
  unfolding step clean_now restart
  step-kept (polls body) g made s = poll-kept rt.uuid config I named body g s
  step-kept resumes g made s = resume-kept g.woken g s
  step-kept (times_out n) g made s = s
  step-kept (uploads id lease filename declared) g made s =
      subst I.On (sym (jobs-artifact config id lease filename declared g)) s
  step-kept (arrives n chunks expected) g made s =
      arrive-kept n (get_elem? g.uploads n) chunks expected g s
  step-kept (reports id lease body) g made s = result-kept config I id lease body g s
  step-kept (submits body) g made s = made body refl
  step-kept (cancels id) g made s = delete_video-kept I config id g s
  step-kept (drains id wanted) g made s = post_drain-kept I id wanted g s
  step-kept (undrains id) g made s = delete_drain-kept I id g s
  step-kept sweeps g made s = sweep_now-kept g s
  step-kept (cleans mtime) g made s = cleanup-kept I mtime config g.db.clock g.db g.disk s
  step-kept restarts g made s =
      recover_on_startup-kept I g.db s g.db.clock (config.max_poll_wait_ms * 2)
  step-kept (passes ms) g made s = s
