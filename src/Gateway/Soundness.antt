-- ===== src/Gateway/Soundness.antt =====
-- The gateway as a whole: the table of jobs is sound after every history.
use nidora_ai_inference.Base.{ℕ, ◌<◌, ◌≡◌, true, List, [], ◌∷◌, truthy}
use nidora_ai_inference.Routes.State.{Gateway}
use nidora_ai_inference.Store.Invariant.{IsSound}
use nidora_ai_inference.Store.Upkeep.{create-IsSound}
use nidora_ai_inference.Store.Kept.{soundness}
use nidora_ai_inference.Scheduler.Config.{Config}
use nidora_ai_inference.Routes.Videos.Create.Kept.{create_video-kept}
use nidora_ai_inference.Gateway.Kept.{step-kept}
use nidora_ai_inference.Gateway.{Event, Runtime, step, run, fresh}

abbrev pub Sound : Config → Gateway → Type 0
Sound config g = IsSound config.max_attempts g.db.jobs

-- The ids that the runtime draws are not empty, and a job may be tried once at least.
pub record IsUsable (rt : Runtime) (config : Config) : Type 0 where
  pub named : (n : ℕ) → truthy (rt.uuid n) ≡ true
  pub some_attempt : 0 < config.max_attempts

module _ (rt : Runtime) (config : Config) (u : IsUsable rt config) where
  -- Each event keeps the table of jobs sound.
  pub step-Sound : (e : Event) (g : Gateway) → Sound config g → Sound config (step rt config e g)
  step-Sound e g s =
      step-kept rt config u.named (soundness config.max_attempts) e g
        (λ body h.
          create_video-kept rt.floats rt.sha256 rt.to_number config (IsSound config.max_attempts)
            (λ n db db' h'. create-IsSound config.max_attempts db n db' u.some_attempt h')
            rt.random_bytes body g s)
        s

  run_from-Sound :
      (es : List Event) (g : Gateway) → Sound config g → Sound config (run rt config es g)
  unfolding run
  run_from-Sound [] g s = s
  run_from-Sound (e ∷ es) g s = run_from-Sound es (step rt config e g) (step-Sound e g s)

  -- With random ids that are not empty and a cap of one attempt at least: after any history of the
  -- gateway the ids of the jobs are distinct, and every row is coherent. It has a lease, which is not
  -- empty, and an expiry exactly while it is in progress, and a pod and a starting time then; a
  -- finishing time exactly when it is terminal; no pod, no upstream id and no progress while it is
  -- queued; full progress and no error when it is completed; the time of a cancel request exactly
  -- when its flag is set; no more attempts than the cap, and fewer while it is queued.
  pub run-IsSound : (es : List Event) → IsSound config.max_attempts (run rt config es fresh).db.jobs
  run-IsSound es = run_from-Sound es fresh (record { coherent = tt; distinct = tt })
