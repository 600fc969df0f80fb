-- ===== src/Store/Jobs.antt =====
-- gateway/src/db/jobs.ts, class JobStore: the statements that write `jobs` and
-- `job_events`. Rows hold decoded values and one of the five statuses; their codec is Hydrate.
use nidora_ai_inference.Base.{
  ℕ, ◌+◌, Bool, true, false, ◌&&◌, Option, none, some, List, [], ◌∷◌, ◌++◌, map, ltb, ◌==◌,
  if◌then◌else◌, coalesce, coalesce_null, is_some, take, any, Str, text, str_eq, column_is,
  count_where, select_where, delete_where,
}
use nidora_ai_inference.Domain.Types.{
  queued, in_progress, completed, failed, cancelled, is_queued, is_in_progress, is_active, Number,
  of_nat, JobParams, Artifact, FilePath, Job, JobEventKind, JobEvent,
}
use nidora_ai_inference.Store.Db.{Db, has_id, get, add_event, update_jobs, changes, swap}

pub record NewJob : Type 0 where
  pub id : Str
  pub model : Str
  pub params : JobParams
  pub input_path : FilePath
  pub input_sha256 : Str
  pub input_bytes : ℕ
  pub created_at : ℕ
  pub deadline_at : ℕ

-- The row that the INSERT writes, with the defaults of the table.
unfoldable pub new_row : NewJob → Job
new_row n = record {
  id = n.id;
  model = n.model;
  params = n.params;
  input_path = some n.input_path;
  input_sha256 = some n.input_sha256;
  input_bytes = some n.input_bytes;
  state = queued;
  progress = of_nat 0;
  error = none;
  artifacts = [];
  pod_id = none;
  lease_id = none;
  lease_expires_at = none;
  upstream_id = none;
  attempts = 0;
  cancel_requested = false;
  cancel_requested_at = none;
  created_at = n.created_at;
  started_at = none;
  finished_at = none;
  deadline_at = n.deadline_at;
}

-- `none` is the exception of a duplicate primary key.
unfoldable pub create : NewJob → Db → Option Db
unfolding new_row add_event get
create n db =
    if is_some (get n.id db)
    then none
    else some (
        add_event n.id JobEventKind.created none (some n.model)
          (record db { jobs = db.jobs ++ new_row n ∷ [] }))

-- WHERE id = ? AND state = 'in_progress' AND lease_id = ?
abbrev pub owns : Str → Str → Job → Bool
owns id lease j = has_id id j && (is_in_progress j.state && column_is j.lease_id lease)

-- WHERE id = ? AND state = 'in_progress'
abbrev pub in_flight : Str → Job → Bool
in_flight id j = has_id id j && is_in_progress j.state

-- `leaseId ? <the clause with the lease> : <the clause for the gateway itself>`
abbrev pub owns_or : (Job → Bool) → Str → Option Str → Job → Bool
owns_or unowned id none = unowned
owns_or unowned id (some []) = unowned
owns_or unowned id (some (c ∷ cs)) = owns id (c ∷ cs)

abbrev pub waiting : Str → Job → Bool
waiting id j = has_id id j && is_queued j.state

abbrev pub claimed_row : Str → Str → ℕ → ℕ → Job → Job
claimed_row pod_id lease expires now j = record j {
  state = in_progress;
  pod_id = some pod_id;
  lease_id = some lease;
  lease_expires_at = some expires;
  started_at = coalesce_null j.started_at (some now);
  attempts = j.attempts + 1;
}

unfoldable pub claim : Str → Str → Str → ℕ → ℕ → Db → Db × Bool
claim id pod_id lease expires now =
    swap (waiting id) (claimed_row pod_id lease expires now) id JobEventKind.assigned (some pod_id)
      (some (text "lease=" ++ lease))

abbrev pub renewed_row : ℕ → Option Number → Option Str → Job → Job
renewed_row expires progress upstream j = record j {
  lease_expires_at = some expires;
  progress = coalesce progress j.progress;
  upstream_id = coalesce_null upstream j.upstream_id;
}

-- No event is logged.
unfoldable pub renew_lease : Str → Str → ℕ → Option Number → Option Str → Db → Db × Bool
unfolding update_jobs changes
renew_lease id lease expires progress upstream db =
    let hit = owns id lease in
    (update_jobs hit (renewed_row expires progress upstream) db, changes hit db == 1)

abbrev pub completed_row : List Artifact → ℕ → Job → Job
completed_row files now j = record j {
  state = completed;
  progress = of_nat 1;
  error = none;
  artifacts = files;
  finished_at = some now;
  lease_id = none;
  lease_expires_at = none;
}

unfoldable pub complete : Str → Str → List Artifact → ℕ → Db → Db × Bool
complete id lease files now =
    swap (owns id lease) (completed_row files now) id JobEventKind.completed none none

abbrev pub failed_row : Str → ℕ → Job → Job
failed_row error now j = record j {
  state = failed;
  error = some error;
  finished_at = some now;
  lease_id = none;
  lease_expires_at = none;
}

abbrev pub unfinished : Str → Job → Bool
unfinished id j = has_id id j && is_active j.state

unfoldable pub fail : Str → Option Str → Str → ℕ → Db → Db × Bool
fail id lease error now =
    swap (owns_or (unfinished id) id lease) (failed_row error now) id JobEventKind.failed none
      (some (take 500 error))

abbrev pub requeued_row : Job → Job
requeued_row j = record j {
  state = queued;
  pod_id = none;
  lease_id = none;
  lease_expires_at = none;
  progress = of_nat 0;
  upstream_id = none;
}

unfoldable pub requeue : Str → Option Str → Str → Db → Db × Bool
requeue id lease reason =
    swap (owns_or (in_flight id) id lease) requeued_row id JobEventKind.requeued none (some reason)

abbrev pub cancelled_queued_row : ℕ → Job → Job
cancelled_queued_row now j = record j {
  state = cancelled;
  finished_at = some now;
  cancel_requested = true;
  cancel_requested_at = some now;
}

unfoldable pub cancel_queued : Str → ℕ → Db → Db × Bool
cancel_queued id now =
    swap (waiting id) (cancelled_queued_row now) id JobEventKind.cancelled none
      (some (text "cancelled while queued"))

abbrev pub flagged_row : ℕ → Job → Job
flagged_row now j = record j {
  cancel_requested = true;
  cancel_requested_at = coalesce_null j.cancel_requested_at (some now);
}

unfoldable pub request_cancel : Str → ℕ → Db → Db × Bool
request_cancel id now =
    swap (in_flight id) (flagged_row now) id JobEventKind.cancel_requested none none

abbrev pub cancelled_row : ℕ → Job → Job
cancelled_row now j = record j {
  state = cancelled;
  finished_at = some now;
  lease_id = none;
  lease_expires_at = none;
}

unfoldable pub mark_cancelled : Str → Option Str → ℕ → Str → Db → Db × Bool
mark_cancelled id lease now detail =
    swap (owns_or (in_flight id) id lease) (cancelled_row now) id JobEventKind.cancelled none
      (some detail)

unfoldable pub set_artifacts : Str → List Artifact → Db → Db
unfolding update_jobs
set_artifacts id files = update_jobs (has_id id) (λ j. record j { artifacts = files })

unfoldable pub clear_input : Str → Db → Db
unfolding update_jobs
clear_input id = update_jobs (has_id id) (λ j. record j { input_path = none })

-- `column < ?` in SQL: false on NULL.
abbrev pub column_lt : Option ℕ → ℕ → Bool
column_lt none t = false
column_lt (some s) t = ltb s t

abbrev recovered_event : ℕ → Job → JobEvent
recovered_event now j = record {
  job_id = j.id;
  ts = now;
  kind = JobEventKind.recovered;
  pod_id = j.pod_id;
  detail = some (text "lease extended after gateway restart");
}

unfoldable pub recover_on_startup : ℕ → ℕ → Db → Db × ℕ
unfolding update_jobs changes
recover_on_startup now grace db =
    let hit = λ (j : Job). is_in_progress j.state in
    let db' = update_jobs hit (λ j. record j { lease_expires_at = some (now + grace) }) db in
    let n = changes hit db in
    let logged = record db' {
      events = db'.events ++ map (recovered_event now) (select_where hit db'.jobs);
    } in
    (if ltb 0 n then logged else db', n)

abbrev pub finished_lt : ℕ → Job → Bool
finished_lt before j = column_lt j.finished_at before

-- One transaction: the events of the purged jobs, then the jobs.
unfoldable pub purge_before : ℕ → Db → Db × ℕ
purge_before before db =
    let gone = select_where (finished_lt before) db.jobs in
    (
      record db {
        events = delete_where (λ e. any (λ j. str_eq j.id e.job_id) gone) db.events;
        jobs = delete_where (finished_lt before) db.jobs;
      },
      count_where (finished_lt before) db.jobs,
    )
