-- ===== src/Routes/Agent/Result/Completion.antt =====
-- gateway/src/routes/agent.ts: the result of a job that its pod has finished.
use nidora_ai_inference.Base.{
  ℕ, ◌≡◌, refl, sym, ap, ◌∙◌, subst, Bool, true, false, Option, none, some, List, [], ◌∷◌, map,
  arith, Str, text, str_eq_refl, str_eq_sound, column_is_sound, apply_if, find-update_where,
  find_sound,
}
use nidora_ai_inference.Domain.Types.{VideoStatus, completed, Artifact, Job}
use nidora_ai_inference.Store.Db.{Db, has_id, get, update_jobs}
use nidora_ai_inference.Store.Jobs.{completed_row, complete, clear_input}
use nidora_ai_inference.Routes.State.{Gateway, kick, Reply, sent}
use nidora_ai_inference.Store.Pods
use nidora_ai_inference.Store.Pods.{record_outcome}
use nidora_ai_inference.Scheduler.Config.{Config}
use nidora_ai_inference.Artifacts.{remove_input}
use nidora_ai_inference.Routes.Agent.Poll.{str}
use nidora_ai_inference.Routes.Agent.Files.{current_lease}
use mathlib.Core.Option
use nidora_ai_inference.Store.Invariant.{Distinct}
use nidora_ai_inference.Store.Fencing.{completes, held, write, written, write-accepted}
use nidora_ai_inference.Routes.Agent.Result.{
  ResultBody, drop_input, finish_completed, report_completed, report, result, safe_name,
}

-- What the swap of `complete` leaves, cleared of its input.
abbrev pub finished_row : List Artifact → ℕ → Job → Job
finished_row files now j = record (completed_row files now j) { input_path = none }

get-record_outcome :
    (id : Str) (pod_id : Option Str) (outcome : Pods.Outcome) (db : Db)
    → get id (record_outcome pod_id outcome db) ≡ get id db
unfolding record_outcome get
get-record_outcome id none outcome db = refl
get-record_outcome id (some []) outcome db = refl
get-record_outcome id (some (c ∷ cs)) outcome db = refl

get-clear_input :
    (id : Str) (db : Db) (j : Job)
    → get id db ≡ some j
    → get id (clear_input id db) ≡ some (record j { input_path = none })
unfolding clear_input get update_jobs
get-clear_input id db j e =
    find-update_where (has_id id) (has_id id) (λ j. record j { input_path = none }) (λ k. refl)
      db.jobs
    ∙ ap (Option.map (apply_if (has_id id) (λ j. record j { input_path = none }))) e
    ∙ ap some (ground (arith, find_sound (has_id id) db.jobs j e))

abbrev output : Str → ResultBody → Artifact
output filename body = record {
  media_type = text "video/mp4";
  filename = filename;
  bytes = body.bytes;
  sha256 = str body.sha256;
}

get-finish_completed :
    (job j : Job) (lease : Str) (now : ℕ) (done : Db × Bool) (g : Gateway)
    → done.1 ≡ true
    → get job.id done.0 ≡ some j
    → let (g', answer) = finish_completed job lease now done g in
      (answer ≡ sent 200 (job.id, completed))
      × (get job.id g'.db ≡ some (record j { input_path = none }))
unfolding finish_completed drop_input kick
get-finish_completed job j lease now (db, false) g e h = absurd (ground arith)
get-finish_completed job j lease now (db, true) g e h = (
  refl,
  get-clear_input job.id (record_outcome job.pod_id Pods.completed db) j
      (get-record_outcome job.id job.pod_id Pods.completed db ∙ h),
)

disk-finish_completed :
    (job : Job) (lease : Str) (now : ℕ) (done : Db × Bool) (g : Gateway)
    → done.1 ≡ true
    → (finish_completed job lease now done g).0.disk ≡ remove_input job.id g.disk
unfolding finish_completed drop_input kick
disk-finish_completed job lease now (db, false) g e = absurd (ground arith)
disk-finish_completed job lease now (db, true) g e = refl

result-finish :
    (config : Config) (id : Str) (c : ℕ) (cs : Str) (body : ResultBody) (g : Gateway) (job : Job)
    (filename : Str)
    → get id g.db ≡ some job
    → held (c ∷ cs) job ≡ true
    → body.state ≡ some (text "completed")
    → safe_name body.filename ≡ some filename
    → result config id (c ∷ cs) body g
      ≡ finish_completed job
          (c ∷ cs)
          g.db.clock
          (complete job.id (c ∷ cs) (output filename body ∷ []) g.db.clock g.db)
          g
unfolding result report report_completed current_lease
result-finish config id c cs body g job filename e h s f =
    ground
      (arith, e, h, s, f, str_eq_refl (text "completed"), column_is_sound job.lease_id (c ∷ cs))

-- The same result takes the job's input off the disk, and nothing else.
pub disk-result :
    (config : Config) (id : Str) (c : ℕ) (cs : Str) (body : ResultBody) (g : Gateway) (job : Job)
    (filename : Str)
    → Distinct g.db.jobs
    → get id g.db ≡ some job
    → held (c ∷ cs) job ≡ true
    → body.state ≡ some (text "completed")
    → safe_name body.filename ≡ some filename
    → (result config id (c ∷ cs) body g).0.disk ≡ remove_input id g.disk
unfolding get write written
disk-result config id c cs body g job filename d e h s f =
    let same : job.id ≡ id = str_eq_sound job.id id (find_sound (has_id id) g.db.jobs job e) in
    let files = output filename body ∷ [] in
    let there : get job.id g.db ≡ some job = subst (λ k. get k g.db ≡ some job) (sym same) e in
    ap (λ (t : Gateway × Reply (Str × VideoStatus)). t.0.disk)
      (result-finish config id c cs body g job filename e h s f)
    ∙ disk-finish_completed job (c ∷ cs) g.db.clock (complete job.id (c ∷ cs) files g.db.clock g.db)
        g (write-accepted job.id c cs g.db d (completes files g.db.clock) job there h).0
    ∙ ap (λ k. remove_input k g.disk) same

-- Under distinct ids: a result that names the lease of a job in progress (not the empty one) and
-- reports it completed, under a safe file name or without one, gets 200. The row is then completed at
-- the time of the request with one artifact of that name, without a lease and without an input.
pub result-completed :
    (config : Config) (id : Str) (c : ℕ) (cs : Str) (body : ResultBody) (g : Gateway) (job : Job)
    (filename : Str)
    → Distinct g.db.jobs
    → get id g.db ≡ some job
    → held (c ∷ cs) job ≡ true
    → body.state ≡ some (text "completed")
    → safe_name body.filename ≡ some filename
    → let (g', answer) = result config id (c ∷ cs) body g in
      (answer ≡ sent 200 (id, completed))
      × ((files : List Artifact) × (get id g'.db ≡ some (finished_row files g.db.clock job))
          × (map (λ a. a.filename) files ≡ filename ∷ []))
unfolding get write written
result-completed config id c cs body g job filename d e h s f =
    let same : job.id ≡ id = str_eq_sound job.id id (find_sound (has_id id) g.db.jobs job e) in
    let files = output filename body ∷ [] in
    let there : get job.id g.db ≡ some job = subst (λ k. get k g.db ≡ some job) (sym same) e in
    let (done, row) = write-accepted job.id c cs g.db d (completes files g.db.clock) job there h in
    let (sent_it, stands) =
      get-finish_completed job (completed_row files g.db.clock job) (c ∷ cs) g.db.clock
        (complete job.id (c ∷ cs) files g.db.clock g.db) g done row in
    let ends = result-finish config id c cs body g job filename e h s f in
    let after : Db = (result config id (c ∷ cs) body g).0.db in
    (
      ap (λ (t : Gateway × Reply (Str × VideoStatus)). t.1) ends
          ∙ sent_it
          ∙ ap (λ k. sent 200 (k, completed)) same,
      (
        files,
        subst (λ k. get k after ≡ some (finished_row files g.db.clock job)) same
            (ap (λ (t : Gateway × Reply (Str × VideoStatus)). get job.id t.0.db) ends ∙ stands),
        refl,
      ),
    )
