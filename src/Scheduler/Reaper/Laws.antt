-- ===== src/Scheduler/Reaper/Laws.antt =====
-- gateway/src/scheduler/reaper.ts: what holds of the jobs after a sweep.
use nidora_ai_inference.Base.{
  ℕ, ◌-◌, ◌≡◌, refl, true, false, ◌||◌, none, some, if◌then◌else◌, ◌<◌, ap, ◌∙◌, find, Str, List,
  [], ◌∷◌, map, arith, ltb, leb,
}
use nidora_ai_inference.Domain.Types.{queued, failed, is_in_progress, Job}
use nidora_ai_inference.Store.Db.{Db, has_id, get}
use mathlib.Core.Option
use nidora_ai_inference.Store.Invariant.{IsSound}
use nidora_ai_inference.Scheduler.Config.{Config}
use nidora_ai_inference.Scheduler.Reaper.{sweep}
use nidora_ai_inference.Scheduler.Reaper.Rounds.{
  lease_is_over, is_overdue, cancel_is_stale, sweep_row,
}
use nidora_ai_inference.Scheduler.Reaper.Effect.{jobs-sweep}

pub sweep_row-id : (config : Config) (now : ℕ) (r : Job) → (sweep_row config now r).id ≡ r.id
unfolding sweep_row
sweep_row-id config now r = ground arith

sweep_row-expired :
    (config : Config) (now : ℕ) (r : Job)
    → lease_is_over now r ≡ true
    → let r' = sweep_row config now r in
      (r'.cancel_requested ≡ r.cancel_requested)
      × (r'.attempts ≡ r.attempts)
      × (r'.lease_id ≡ none)
      × (r'.state ≡ (
          if leb config.max_attempts r.attempts || ltb r.deadline_at now then failed else queued))
unfolding sweep_row
sweep_row-expired config now r h = ground arith

pub find-map :
    (id : Str) (f : Job → Job) (rows : List Job)
    → ((r : Job) → (f r).id ≡ r.id)
    → find (has_id id) (map f rows) ≡ Option.map f (find (has_id id) rows)
unfolding find
find-map id f [] keep = refl
find-map id f (r ∷ rows) keep = ground (arith, keep r, find-map id f rows keep)

pub get-sweep :
    (config : Config) (now : ℕ) (db : Db) (id : Str) (r : Job)
    → IsSound config.max_attempts db.jobs
    → get id db ≡ some r
    → get id (sweep config now db).0 ≡ some (sweep_row config now r)
unfolding get
get-sweep config now db id r s e =
    ap (find (has_id id)) (jobs-sweep config now db s)
    ∙ find-map id (sweep_row config now) db.jobs (sweep_row-id config now)
    ∙ ap (Option.map (sweep_row config now)) e

-- A sweep of a sound table, in which a job in progress has a lease that ran out before its time: the
-- job is still in the table, without the lease, and with its attempts and its cancel flag. It has failed
-- if it is at the attempt cap or past its deadline, and is queued again otherwise, a cancel request or
-- not.
pub sweep-expired :
    (config : Config) (now until : ℕ) (db : Db) (id : Str) (r : Job)
    → IsSound config.max_attempts db.jobs
    → get id db ≡ some r
    → is_in_progress r.state ≡ true
    → r.lease_expires_at ≡ some until
    → until < now
    → (r' : Job) × (get id (sweep config now db).0 ≡ some r')
      × (r'.cancel_requested ≡ r.cancel_requested)
      × (r'.attempts ≡ r.attempts)
      × (r'.lease_id ≡ none)
      × (r'.state ≡ (
          if leb config.max_attempts r.attempts || ltb r.deadline_at now then failed else queued))
sweep-expired config now until db id r s e running expiry over =
    let (flag, count, lease, state) = sweep_row-expired config now r (ground arith) in
    (sweep_row config now r, get-sweep config now db id r s e, flag, count, lease, state)

-- A row whose lease has not run out, which is not past its deadline and has no stale cancel is left
-- as it is.
pub sweep_row-undisturbed :
    (config : Config) (now : ℕ) (r : Job)
    → lease_is_over now r ≡ false
    → is_overdue now r ≡ false
    → cancel_is_stale (now - config.cancel_grace_ms) r ≡ false
    → sweep_row config now r ≡ r
unfolding sweep_row
sweep_row-undisturbed config now r a b c = ground arith
