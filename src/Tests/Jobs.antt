-- ===== src/Tests/Jobs.antt =====
-- The store, the claim and the reaper at a table of one job.
use nidora_ai_inference.Base.{◌≤◌, order_by, select_where}
use nidora_ai_inference.Domain.Types.{is_queued}
use nidora_ai_inference.Store.Queries.{list_queued, queue_position, counts}
use nidora_ai_inference.Store.Queue.{list_queued-first}
use nidora_ai_inference.Tests.{waiting_job}
use nidora_ai_inference.Base.{
  ◌≡◌, refl, true, false, ◌||◌, none, some, [], map, leb, ltb, All, find, str_eq,
}
use nidora_ai_inference.Domain.Types.{queued, failed}
use nidora_ai_inference.Store.Db.{get}
use nidora_ai_inference.Store.Fencing.{completes, write, written, write-refused, write-accepted}
use nidora_ai_inference.Scheduler.Claim.{claim_for_pod}
use nidora_ai_inference.Scheduler.Claim.Laws.{
  Holds, IsHeld, claim_for_pod-Holds, claim_for_pod-IsHeld,
}
use nidora_ai_inference.Scheduler.Reaper.{sweep}
use nidora_ai_inference.Scheduler.Reaper.Rounds.{sweep_row}
use nidora_ai_inference.Scheduler.Reaper.Effect.{jobs-sweep}
use nidora_ai_inference.Scheduler.Reaper.Laws.{sweep-expired}
use nidora_ai_inference.Store.Invariant.{IsSound}
use nidora_ai_inference.Store.Db.{Db}
use nidora_ai_inference.Domain.Types.{Job}
use nidora_ai_inference.Base.{if◌then◌else◌, ◌∷◌, arith}
use nidora_ai_inference.Tests.{
  video, lease_a, lease_b, settings, running_job, pod, db_waiting, db_running, uuid, uuid-truthy,
  waiting-IsSound, running-IsSound, abandoned_job,
}

write-refused_example : write (completes [] 3000) video lease_b db_running ≡ (db_running, false)
unfolding get find str_eq
write-refused_example =
    write-refused video b'b' [] db_running running-IsSound.distinct (completes [] 3000) refl

write-accepted_example :
    let (db', done) = write (completes [] 3000) video lease_a db_running in
    (done ≡ true) × (get video db' ≡ some (written (completes [] 3000) running_job))
unfolding get find str_eq
write-accepted_example =
    write-accepted video b'a' [] db_running running-IsSound.distinct (completes [] 3000) running_job
      refl refl

claim_for_pod-Holds_example :
    Holds uuid pod 1 90000 2000 (claim_for_pod uuid pod 1 90000 2000 db_waiting)
claim_for_pod-Holds_example = claim_for_pod-Holds uuid pod 1 90000 2000 db_waiting

claim_for_pod-IsHeld_example :
    let c = claim_for_pod uuid pod 1 90000 2000 db_waiting in All (IsHeld pod c.db) c.assigned
claim_for_pod-IsHeld_example =
    claim_for_pod-IsHeld uuid 3 uuid-truthy pod 1 90000 2000 db_waiting waiting-IsSound

jobs-sweep_example :
    (sweep settings 95000 db_running).0.jobs ≡ map (sweep_row settings 95000) db_running.jobs
jobs-sweep_example = jobs-sweep settings 95000 db_running running-IsSound

-- A job whose client has asked for the cancel, and whose pod is gone.
abbrev db_abandoned : Db
db_abandoned = record db_running { jobs = abandoned_job ∷ [] }

abandoned-IsSound : IsSound 3 db_abandoned.jobs
abandoned-IsSound = record { coherent = (ground arith, tt); distinct = (refl, tt) }

sweep-expired_example :
    (r' : Job) × (get video (sweep settings 95000 db_abandoned).0 ≡ some r')
    × (r'.cancel_requested ≡ true)
    × (r'.attempts ≡ 1)
    × (r'.lease_id ≡ none)
    × (r'.state ≡ (if leb 3 1 || ltb 3601000 95000 then failed else queued))
unfolding get find str_eq
sweep-expired_example =
    sweep-expired settings 95000 92000 db_abandoned video abandoned_job abandoned-IsSound refl refl
      refl (omega arith)

list_queued-first_example :
    All (λ j. is_queued j.state ≡ true → 1000 ≤ j.created_at) db_waiting.jobs
    × (is_queued waiting_job.state ≡ true)
    × (queue_position waiting_job db_waiting ≡ some 0)
    × ((counts db_waiting).oldest_queued_at ≡ some 1000)
unfolding list_queued order_by select_where
list_queued-first_example = list_queued-first 100 db_waiting waiting_job [] refl
