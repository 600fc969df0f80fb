-- ===== src/Store/Machine.antt =====
-- gateway/src/db/jobs.ts: the statements of the store as the transitions of one job, and what every
-- sequence of them keeps.
use nidora_ai_inference.Base.{
  ℕ, ◌<◌, ◌≡◌, ap, ◌∙◌, true, Option, none, some, List, arith, Str, truthy,
}
use nidora_ai_inference.Domain.Types.{
  is_queued, is_in_progress, is_active, is_terminal, Number, Artifact, Job,
}
use nidora_ai_inference.Store.Jobs.{
  claimed_row, renewed_row, completed_row, failed_row, requeued_row, cancelled_queued_row,
  flagged_row, cancelled_row,
}
use nidora_ai_inference.Store.Rows.{
  IsCoherent, claimed_row-IsCoherent, renewed_row-IsCoherent, completed_row-IsCoherent,
  failed_row-IsCoherent, requeued_row-IsCoherent, cancelled_queued_row-IsCoherent,
  flagged_row-IsCoherent, cancelled_row-IsCoherent,
}

-- One transition, with the cap of the attempts: a statement and the states in which it writes.
pub data Turn (m : ℕ) (j : Job) : Job → Type 0 where
  claims :
      (pod_id lease : Str) (expires now : ℕ)
      → truthy lease ≡ true
      → is_queued j.state ≡ true
      → Turn m j (claimed_row pod_id lease expires now j)
  renews :
      (expires : ℕ) (progress : Option Number) (upstream : Option Str)
      → is_in_progress j.state ≡ true
      → Turn m j (renewed_row expires progress upstream j)
  completes :
      (files : List Artifact) (now : ℕ)
      → is_in_progress j.state ≡ true
      → Turn m j (completed_row files now j)
  fails : (error : Str) (now : ℕ) → is_active j.state ≡ true → Turn m j (failed_row error now j)
  requeues : is_in_progress j.state ≡ true → j.attempts < m → Turn m j (requeued_row j)
  cancels_queued : (now : ℕ) → is_queued j.state ≡ true → Turn m j (cancelled_queued_row now j)
  flags : (now : ℕ) → is_in_progress j.state ≡ true → Turn m j (flagged_row now j)
  cancels : (now : ℕ) → is_in_progress j.state ≡ true → Turn m j (cancelled_row now j)
  extends :
      (until : ℕ)
      → is_in_progress j.state ≡ true
      → Turn m j (record j { lease_expires_at = some until })
  forgets_files : (files : List Artifact) → Turn m j (record j { artifacts = files })
  forgets_input : Turn m j (record j { input_path = none })

-- Any number of transitions.
pub data Turns (m : ℕ) (j : Job) : Job → Type 0 where
  rest : Turns m j j
  turn : {k l : Job} → Turns m j k → Turn m k l → Turns m j l

module _ {m : ℕ} where
  pub once : {j k : Job} → Turn m j k → Turns m j k
  once t = turn rest t

  pub Turns-trans : {j k l : Job} → Turns m j k → Turns m k l → Turns m j l
  Turns-trans ts rest = ts
  Turns-trans ts (turn us u) = turn (Turns-trans ts us) u

  Turn-IsCoherent : {j k : Job} → Turn m j k → IsCoherent m j → IsCoherent m k
  Turn-IsCoherent {j} (claims pod_id lease expires now l q) c =
      claimed_row-IsCoherent m pod_id lease expires now j l q c
  Turn-IsCoherent {j} (renews expires progress upstream q) c =
      renewed_row-IsCoherent m expires progress upstream j q c
  Turn-IsCoherent {j} (completes files now q) c = completed_row-IsCoherent m files now j c
  Turn-IsCoherent {j} (fails error now q) c = failed_row-IsCoherent m error now j c
  Turn-IsCoherent {j} (requeues q a) c = requeued_row-IsCoherent m j q a c
  Turn-IsCoherent {j} (cancels_queued now q) c = cancelled_queued_row-IsCoherent m now j q c
  Turn-IsCoherent {j} (flags now q) c = flagged_row-IsCoherent m now j c
  Turn-IsCoherent {j} (cancels now q) c = cancelled_row-IsCoherent m now j c
  Turn-IsCoherent (extends until q) c = ground arith
  Turn-IsCoherent (forgets_files files) c = ground arith
  Turn-IsCoherent forgets_input c = ground arith

  pub Turns-IsCoherent : {j k : Job} → Turns m j k → IsCoherent m j → IsCoherent m k
  Turns-IsCoherent rest c = c
  Turns-IsCoherent (turn ts t) c = Turn-IsCoherent t (Turns-IsCoherent ts c)

-- The seven columns of a job that has ended that stay as they are. Its artifacts and its input may go.
pub record IsFrozen (j k : Job) : Type 0 where
  pub state : k.state ≡ j.state
  pub progress : k.progress ≡ j.progress
  pub error : k.error ≡ j.error
  pub finished_at : k.finished_at ≡ j.finished_at
  pub pod_id : k.pod_id ≡ j.pod_id
  pub attempts : k.attempts ≡ j.attempts
  pub cancel_requested : k.cancel_requested ≡ j.cancel_requested

Turn-IsFrozen : {m : ℕ} {j k : Job} → Turn m j k → is_terminal j.state ≡ true → IsFrozen j k
Turn-IsFrozen (claims pod_id lease expires now l q) e = absurd (ground arith)
Turn-IsFrozen (renews expires progress upstream q) e = absurd (ground arith)
Turn-IsFrozen (completes files now q) e = absurd (ground arith)
Turn-IsFrozen (fails error now q) e = absurd (ground arith)
Turn-IsFrozen (requeues q a) e = absurd (ground arith)
Turn-IsFrozen (cancels_queued now q) e = absurd (ground arith)
Turn-IsFrozen (flags now q) e = absurd (ground arith)
Turn-IsFrozen (cancels now q) e = absurd (ground arith)
Turn-IsFrozen (extends until q) e = absurd (ground arith)
Turn-IsFrozen (forgets_files files) e = ground arith
Turn-IsFrozen forgets_input e = ground arith

pub Turns-IsFrozen : {m : ℕ} {j k : Job} → Turns m j k → is_terminal j.state ≡ true → IsFrozen j k
Turns-IsFrozen rest e = ground arith
Turns-IsFrozen (turn ts t) e =
    let f = Turns-IsFrozen ts e in
    let g = Turn-IsFrozen t (ap is_terminal f.state ∙ e) in
    record {
      state = g.state ∙ f.state;
      progress = g.progress ∙ f.progress;
      error = g.error ∙ f.error;
      finished_at = g.finished_at ∙ f.finished_at;
      pod_id = g.pod_id ∙ f.pod_id;
      attempts = g.attempts ∙ f.attempts;
      cancel_requested = g.cancel_requested ∙ f.cancel_requested;
    }
