-- ===== src/Store/Rows.antt =====
-- gateway/src/db/jobs.ts: what every row of `jobs` satisfies, and which writes keep it.
use nidora_ai_inference.Base.{
  ℕ, ◌≤◌, ◌<◌, ◌≡◌, true, Option, none, List, arith, is_some, Str, truthy, truthy_null,
}
use nidora_ai_inference.Domain.Types.{
  is_queued, is_in_progress, is_completed, is_terminal, Number, of_nat, Artifact, Job,
}
use nidora_ai_inference.Store.Jobs.{
  new_row, claimed_row, renewed_row, completed_row, failed_row, requeued_row, cancelled_queued_row,
  flagged_row, cancelled_row, NewJob,
}

-- A row is coherent: its lease, owner, times, progress and attempts agree with its state.
pub record IsCoherent (max_attempts : ℕ) (j : Job) : Type 0 where
  pub leased : is_some j.lease_id ≡ is_in_progress j.state
  pub lease_named : truthy_null j.lease_id ≡ is_in_progress j.state
  pub expiring : is_some j.lease_expires_at ≡ is_in_progress j.state
  pub owned : is_in_progress j.state ≡ true → is_some j.pod_id ≡ true
  pub started : is_in_progress j.state ≡ true → is_some j.started_at ≡ true
  pub finished : is_some j.finished_at ≡ is_terminal j.state
  pub idle : is_queued j.state ≡ true → (j.pod_id ≡ none) × (j.upstream_id ≡ none)
  pub unstarted : is_queued j.state ≡ true → j.progress ≡ of_nat 0
  pub done : is_completed j.state ≡ true → (j.progress ≡ of_nat 1) × (j.error ≡ none)
  pub flagged : is_some j.cancel_requested_at ≡ j.cancel_requested
  pub capped : j.attempts ≤ max_attempts
  pub retryable : is_queued j.state ≡ true → j.attempts < max_attempts

module _ (m : ℕ) where
  pub new_row-IsCoherent : (n : NewJob) → 0 < m → IsCoherent m (new_row n)
  unfolding new_row
  new_row-IsCoherent n h = ground arith

  pub claimed_row-IsCoherent :
      (pod_id lease : Str) (expires now : ℕ) (j : Job)
      → truthy lease ≡ true
      → is_queued j.state ≡ true
      → IsCoherent m j
      → IsCoherent m (claimed_row pod_id lease expires now j)
  claimed_row-IsCoherent pod_id lease expires now j l q h = ground arith

  pub renewed_row-IsCoherent :
      (expires : ℕ) (progress : Option Number) (upstream : Option Str) (j : Job)
      → is_in_progress j.state ≡ true
      → IsCoherent m j
      → IsCoherent m (renewed_row expires progress upstream j)
  renewed_row-IsCoherent expires progress upstream j q h = ground arith

  pub completed_row-IsCoherent :
      (files : List Artifact) (now : ℕ) (j : Job)
      → IsCoherent m j
      → IsCoherent m (completed_row files now j)
  completed_row-IsCoherent files now j h = ground arith

  pub failed_row-IsCoherent :
      (error : Str) (now : ℕ) (j : Job) → IsCoherent m j → IsCoherent m (failed_row error now j)
  failed_row-IsCoherent error now j h = ground arith

  pub requeued_row-IsCoherent :
      (j : Job)
      → is_in_progress j.state ≡ true
      → j.attempts < m
      → IsCoherent m j
      → IsCoherent m (requeued_row j)
  requeued_row-IsCoherent j q a h = ground arith

  pub cancelled_queued_row-IsCoherent :
      (now : ℕ) (j : Job)
      → is_queued j.state ≡ true
      → IsCoherent m j
      → IsCoherent m (cancelled_queued_row now j)
  cancelled_queued_row-IsCoherent now j q h = ground arith

  pub flagged_row-IsCoherent :
      (now : ℕ) (j : Job) → IsCoherent m j → IsCoherent m (flagged_row now j)
  flagged_row-IsCoherent now j h = ground arith

  pub cancelled_row-IsCoherent :
      (now : ℕ) (j : Job) → IsCoherent m j → IsCoherent m (cancelled_row now j)
  cancelled_row-IsCoherent now j h = ground arith
