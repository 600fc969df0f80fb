-- ===== src/Store/Queries.antt =====
-- gateway/src/db/jobs.ts, class JobStore: the SELECT statements. Without an ORDER BY the rows come
-- in the table's order, and rows that an ORDER BY ties stay in it.
use nidora_ai_inference.Base.{
  ℕ, min, max, Bool, true, false, ◌&&◌, Option, none, some, List, [], ◌∷◌, ltb, if◌then◌else◌,
  coalesce, take, Str, str_eq, column_is, count_where, select_where, order_by, order_by_desc,
}
use nidora_ai_inference.Domain.Types.{
  VideoStatus, is_queued, is_in_progress, is_active, same_status, Job, JobEvent,
}
use nidora_ai_inference.Store.Db.{Db}
use nidora_ai_inference.Store.Jobs.{column_lt, finished_lt}

pub record QueueCounts : Type 0 where
  pub queued : ℕ
  pub running : ℕ
  pub oldest_queued_at : Option ℕ

abbrev in_state : Option VideoStatus → Job → Bool
in_state none j = true
in_state (some s) j = same_status s j.state

-- The limit of the source is a number of any kind; it is a natural one here.
unfoldable pub list : Option VideoStatus → Option ℕ → Db → List Job
list state limit db =
    take (min (max (coalesce limit 50) 1) 500)
      (order_by_desc (λ j. j.created_at) (select_where (in_state state) db.jobs))

unfoldable pub list_queued : ℕ → Db → List Job
list_queued limit db =
    take limit (order_by (λ j. j.created_at) (select_where (λ j. is_queued j.state) db.jobs))

unfoldable pub queue_position : Job → Db → Option ℕ
queue_position job db =
    if is_queued job.state
    then some (count_where (λ j. is_queued j.state && ltb j.created_at job.created_at) db.jobs)
    else none

-- MIN over the queued rows; NULL if there is none.
unfoldable pub oldest_queued : List Job → Option ℕ
oldest_queued [] = none
oldest_queued (j ∷ js) =
    let rest = oldest_queued js in
    if is_queued j.state
    then some (elim rest [ none ↦ j.created_at | some t ↦ min j.created_at t ])
    else rest

unfoldable pub counts : Db → QueueCounts
counts db = record {
  queued = count_where (λ j. is_queued j.state) db.jobs;
  running = count_where (λ j. is_in_progress j.state) db.jobs;
  oldest_queued_at = oldest_queued db.jobs;
}

unfoldable pub list_by_pod : Str → VideoStatus → Db → List Job
list_by_pod pod_id state db =
    order_by (λ j. j.created_at)
      (select_where (λ j. column_is j.pod_id pod_id && same_status state j.state) db.jobs)

unfoldable pub expired_leases : ℕ → Db → List Job
expired_leases now db =
    select_where (λ j. is_in_progress j.state && column_lt j.lease_expires_at now) db.jobs

unfoldable pub overdue : ℕ → Db → List Job
overdue now db = select_where (λ j. is_active j.state && ltb j.deadline_at now) db.jobs

unfoldable pub stale_cancels : ℕ → Db → List Job
stale_cancels before db =
    select_where
      (λ j.
        is_in_progress j.state && (j.cancel_requested && column_lt j.cancel_requested_at before))
      db.jobs

abbrev pub has_artifacts : Job → Bool
has_artifacts j = elim j.artifacts [ [] ↦ false | a ∷ more ↦ true ]

unfoldable pub finished_before : ℕ → Db → List Job
finished_before before db = select_where (λ j. finished_lt before j && has_artifacts j) db.jobs

-- The trail of a job, oldest first, at most 100 entries.
unfoldable pub events : Str → Db → List JobEvent
events job_id db =
    take 100 (order_by (λ e. e.ts) (select_where (λ e. str_eq e.job_id job_id) db.events))
