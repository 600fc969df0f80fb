-- ===== src/Tests/Requests.antt =====
-- Histories and requests at a gateway with one job.
use nidora_ai_inference.Base.{Str}
use nidora_ai_inference.Routes.Agent.Poll.{InFlightReport, Renewing, renew_all}
use nidora_ai_inference.Routes.Agent.Poll.Renewal.{Answers, named, renew_all-Answers}
use nidora_ai_inference.Base.{Option}
use nidora_ai_inference.Domain.Sizing.{trim}
use nidora_ai_inference.Routes.Pods.{Wanted, nothing, form_body, receive_drain, delete_drain}
use nidora_ai_inference.Cleanup.{cleanup}
use nidora_ai_inference.Cleanup.Live.{cleanup-live}
use nidora_ai_inference.Artifacts.{Disk, read_file}
use nidora_ai_inference.Domain.Types.{FilePath}
use nidora_ai_inference.Routes.Pods.Bodies.{receive_drain-form, no_words}
use nidora_ai_inference.Domain.Models.{to_lower_case}
use nidora_ai_inference.Base.{if◌then◌else◌, any}
use nidora_ai_inference.Tests.{db_running, pod_name}
use nidora_ai_inference.Base.{
  arith, ◌⊎◌, ◌≡◌, refl, true, none, some, List, [], ◌∷◌, map, text, find, str_eq,
}
use nidora_ai_inference.Domain.Types.{
  completed, Artifact, is_queued, is_in_progress, is_terminal, Job,
}
use nidora_ai_inference.Domain.Filenames.{is_safe_filename}
use nidora_ai_inference.Store.Db.{get}
use nidora_ai_inference.Store.Invariant.{IsSound}
use nidora_ai_inference.Routes.State.{sent}
use nidora_ai_inference.Routes.Agent.Files.{lease_is_stale, input, artifact}
use nidora_ai_inference.Routes.Agent.Fence.{handlers-stale}
use nidora_ai_inference.Routes.Agent.Result.{safe_name, result}
use nidora_ai_inference.Routes.Agent.Result.Completion.{finished_row, result-completed}
use nidora_ai_inference.Domain.Errors.{api_error, checksum_mismatch}
use nidora_ai_inference.Artifacts.{stream_body}
use nidora_ai_inference.Store.Jobs.{cancelled_queued_row, flagged_row}
use nidora_ai_inference.Routes.State.{rejected}
use nidora_ai_inference.Routes.Agent.Files.{finish_upload, input_is_gone, current_lease}
use nidora_ai_inference.Routes.Agent.Files.Mismatch.{finish_upload-input_lost}
use nidora_ai_inference.Routes.Videos.Read.{respond, delete_video, finished_already}
use nidora_ai_inference.Routes.Videos.Read.Cancel.{delete_video-cancels}
use nidora_ai_inference.Store.Machine.{Turns, IsFrozen}
use nidora_ai_inference.Gateway.{reports, cancels, step, run, fresh}
use nidora_ai_inference.Gateway.Machine.{step-Turns, step-IsFrozen}
use nidora_ai_inference.Gateway.Soundness.{run-IsSound}
use nidora_ai_inference.Tests.{
  video, lease_a, lease_b, settings, running_job, site, done_body, runtime, runtime-IsUsable,
  running-IsSound, other_lease, history, stream, upload, input_file, finished_job, finished_site,
}

run-IsSound_example : IsSound 3 (run runtime settings history fresh).db.jobs
run-IsSound_example = run-IsSound runtime settings runtime-IsUsable history

result-completed_example :
    let (g', answer) = result settings video lease_a done_body site in
    (answer ≡ sent 200 (video, completed))
    × ((files : List Artifact) × (get video g'.db ≡ some (finished_row files 95000 running_job))
        × (map (λ a. a.filename) files ≡ text "output.mp4" ∷ []))
unfolding get text find str_eq safe_name is_safe_filename
result-completed_example =
    result-completed settings video b'a' [] done_body site running_job (text "output.mp4")
      running-IsSound.distinct refl refl refl refl

handlers-stale_example :
    (input video lease_b site ≡ lease_is_stale)
    × (artifact settings video lease_b none none site ≡ (site, some lease_is_stale))
    × (result settings video lease_b done_body site ≡ (site, lease_is_stale))
unfolding get find str_eq
handlers-stale_example =
    handlers-stale settings video lease_b none none done_body site running_job refl other_lease

finish_upload-input_lost_example :
    let (g', answer) =
      finish_upload runtime.sha256 settings upload stream (some (b'x' ∷ [])) site in
    (answer ≡ rejected 400 (api_error 400 (some checksum_mismatch) none))
    × (g'.db ≡ site.db)
    × (input video lease_a g' ≡ input_is_gone)
unfolding get find str_eq stream_body current_lease
finish_upload-input_lost_example =
    finish_upload-input_lost runtime.sha256 settings upload stream b'x' [] (1 ∷ 2 ∷ 3 ∷ []) site
      running_job lease_a input_file refl refl refl refl refl refl

delete_video-cancels_example :
    let (g', answer) = delete_video settings video site in
    (is_queued running_job.state ≡ true
      → (get video g'.db ≡ some (cancelled_queued_row 95000 running_job))
        × (answer ≡ sent 200 (respond settings (cancelled_queued_row 95000 running_job) g'.db)))
    × (is_in_progress running_job.state ≡ true
        → (get video g'.db ≡ some (flagged_row 95000 running_job))
          × (answer ≡ sent 202 (respond settings (flagged_row 95000 running_job) g'.db)))
    × (is_terminal running_job.state ≡ true
        → delete_video settings video site ≡ (site, finished_already))
unfolding get find str_eq
delete_video-cancels_example =
    delete_video-cancels settings video site running-IsSound.distinct running_job refl

step-Turns_example : Turns 3 running_job (flagged_row 95000 running_job)
unfolding get find str_eq step
step-Turns_example =
    let cancelled =
      delete_video-cancels settings video site running-IsSound.distinct running_job refl in
    step-Turns runtime settings runtime-IsUsable (cancels video) site video running_job
      (flagged_row 95000 running_job) running-IsSound refl ((cancelled.1 refl).0)

finished-IsSound : IsSound 3 finished_site.db.jobs
finished-IsSound = record { coherent = (ground arith, tt); distinct = (refl, tt) }

step-IsFrozen_example :
    let after =
      get video (step runtime settings (reports video lease_a done_body) finished_site).db in
    (after ≡ none) ⊎ ((k : Job) × (after ≡ some k) × IsFrozen finished_job k)
unfolding get find str_eq
step-IsFrozen_example =
    step-IsFrozen runtime settings runtime-IsUsable (reports video lease_a done_body) finished_site
      video finished_job finished-IsSound refl refl

-- The pod reports the job under its lease, and again under another.
abbrev reported : Str → InFlightReport
reported lease = record {
  job_id = some video;
  lease_id = some lease;
  progress = none;
  upstream_id = none;
}

abbrev unanswered : Renewing
unanswered = record { db = db_running; orphan = []; cancel = []; still_owned = [] }

renew_all-Answers_example :
    let items = reported lease_a ∷ reported lease_b ∷ [] in
    Answers db_running (named items) unanswered (renew_all 185000 items unanswered)
renew_all-Answers_example =
    renew_all-Answers 185000 (reported lease_a ∷ reported lease_b ∷ []) unanswered
      running-IsSound.distinct

-- A client that sends `draining=true&draining=No`, and a JSON parser that refuses all.
abbrev two_fields : Str → Option (List (Str × Str))
two_fields s = some ((text "draining", text "true") ∷ (text "draining", text "No") ∷ [])

abbrev no_json : Str → Option Wanted
no_json s = none

receive_drain-form_example :
    receive_drain two_fields no_json pod_name (form_body (text "-")) site ≡ (
      if any (str_eq (to_lower_case (trim (text "No")))) no_words
      then delete_drain pod_name site
      else receive_drain two_fields no_json pod_name nothing site)
receive_drain-form_example =
    receive_drain-form two_fields no_json pod_name (text "-") (text "No")
      ((text "draining", text "true") ∷ []) site refl

abbrev one_input : Disk
one_input = record { path = input_file; content = 9 ∷ [] } ∷ []

cleanup-live_example :
    let c = cleanup (λ area entry. some 0) settings 95000 db_running one_input in
    (get video c.db ≡ some running_job)
    × ((path : FilePath) → path.job_id ≡ video → read_file path c.disk ≡ read_file path one_input)
unfolding get find str_eq
cleanup-live_example =
    cleanup-live (λ area entry. some 0) settings 95000 db_running one_input video running_job
      running-IsSound.distinct refl refl refl
