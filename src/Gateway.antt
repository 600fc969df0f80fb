-- ===== src/Gateway.antt =====
-- The gateway as a whole (gateway/src/app.ts and gateway/src/index.ts): what can happen to it, one
-- event at a time, and its histories.
pub mod Kept
pub mod Soundness
pub mod Machine
pub mod Dispatch
pub mod Restart
pub mod Delivery
pub mod Journey
pub mod Parking
use nidora_ai_inference.Base.{
  ℕ, zero, suc, ◌+◌, ◌*◌, Option, none, some, List, [], ◌∷◌, get_elem?, Str,
}
use nidora_ai_inference.Domain.Types.{Number, Area}
use nidora_ai_inference.Store.Jobs.{waiting, recover_on_startup}
use nidora_ai_inference.Cleanup.{cleanup}
use nidora_ai_inference.Domain.Sizing.{Floats}
use nidora_ai_inference.Scheduler.Config.{Config}
use nidora_ai_inference.Scheduler.Reaper.{sweep, sweep_kicks}
use nidora_ai_inference.Routes.State.{Parked, Upload, Gateway, kick_if}
use nidora_ai_inference.Routes.Agent.Poll.{PollBody, poll, poll_woken}
use nidora_ai_inference.Routes.Agent.Files.{artifact, finish_upload}
use nidora_ai_inference.Routes.Agent.Result.{ResultBody, result}
use nidora_ai_inference.Routes.Videos.Create.{Body, create_video}
use nidora_ai_inference.Routes.Videos.Read.{delete_video}
use nidora_ai_inference.Routes.Pods.{Wanted, post_drain, delete_drain}

-- The events. The requests that only read are left out: they return no new state.
pub data Event : Type 0 where
  -- POST /v1/agent/poll; a woken poll runs on; the n-th parked poll times out.
  polls : PollBody → Event
  resumes : Event
  times_out : ℕ → Event
  -- POST …/artifact with its id, lease, file name and declared length; the n-th open upload has its
  -- chunks and its claimed hash.
  uploads : Str → Str → Option Str → Option ℕ → Event
  arrives : ℕ → List (List ℕ) → Option Str → Event
  -- POST …/result with its id, lease and body.
  reports : Str → Str → ResultBody → Event
  -- POST and DELETE /v1/videos.
  submits : Body → Event
  cancels : Str → Event
  -- POST and DELETE /v1/pods/:id/drain.
  drains : Str → Wanted → Event
  undrains : Str → Event
  -- The timers of the reaper and of the cleanup, with what `stat` reports to the latter.
  sweeps : Event
  cleans : (Area → Str → Option ℕ) → Event
  -- The process restarts; parked polls and open uploads are lost. Time passes.
  restarts : Event
  passes : ℕ → Event

-- What the gateway takes from outside its sources: the random ids, the hash, the numerals and the
-- double arithmetic of the language.
pub record Runtime : Type 1 where
  pub uuid : ℕ → Str
  pub random_bytes : ℕ → List ℕ
  pub sha256 : List ℕ → Str
  pub to_number : Str → Option Number
  pub floats : Floats

module _ {ℓ} {A : Type ℓ} where
  abbrev pub remove_at : ℕ → List A → List A
  remove_at n [] = []
  remove_at zero (x ∷ xs) = xs
  remove_at (suc n) (x ∷ xs) = x ∷ remove_at n xs

module _ (rt : Runtime) (config : Config) where
  resume : List Parked → Gateway → Gateway
  resume [] g = g
  resume (p ∷ rest) g = (poll_woken rt.uuid config p (record g { woken = rest })).0

  arrive : ℕ → Option Upload → List (List ℕ) → Option Str → Gateway → Gateway
  arrive n none chunks expected g = g
  arrive n (some up) chunks expected g =
      (finish_upload rt.sha256 config up chunks expected
        (record g { uploads = remove_at n g.uploads })).0

  sweep_now : Gateway → Gateway
  sweep_now g =
      let (db, r) = sweep config g.db.clock g.db in kick_if (sweep_kicks r) (record g { db = db })

  clean_now : (Area → Str → Option ℕ) → Gateway → Gateway
  clean_now mtime g =
      let c = cleanup mtime config g.db.clock g.db g.disk in record g { db = c.db; disk = c.disk }

  -- `recoverOnStartup(Date.now(), config.maxPollWaitMs * 2)`
  restart : Gateway → Gateway
  restart g = record g {
    db = (recover_on_startup g.db.clock (config.max_poll_wait_ms * 2) g.db).0;
    waiting = [];
    woken = [];
    uploads = [];
  }

  unfoldable pub step : Event → Gateway → Gateway
  unfolding resume arrive sweep_now clean_now restart
  step (polls body) g = (poll rt.uuid config body g).0
  step resumes g = resume g.woken g
  step (times_out n) g = record g { waiting = remove_at n g.waiting }
  step (uploads id lease filename declared) g = (artifact config id lease filename declared g).0
  step (arrives n chunks expected) g = arrive n (get_elem? g.uploads n) chunks expected g
  step (reports id lease body) g = (result config id lease body g).0
  step (submits body) g =
      (create_video rt.floats rt.sha256 rt.to_number rt.random_bytes config body g).0
  step (cancels id) g = (delete_video config id g).0
  step (drains id wanted) g = (post_drain id wanted g).0
  step (undrains id) g = (delete_drain id g).0
  step sweeps g = sweep_now g
  step (cleans mtime) g = clean_now mtime g
  step restarts g = restart g
  step (passes ms) g = record g { db = record g.db { clock = g.db.clock + ms } }

  pub run : List Event → Gateway → Gateway
  unfolding step
  run [] g = g
  run (e ∷ es) g = run es (step e g)

-- A gateway with an empty database and an empty disk.
abbrev pub fresh : Gateway
fresh = record {
  db = record { jobs = []; events = []; pods = []; clock = 0; drawn = 0 };
  disk = [];
  waiting = [];
  woken = [];
  uploads = [];
}
