-- ===== src/Routes/State.antt =====
-- What the handlers share (gateway/src/context.ts): the database, the disk, the parked long-polls of
-- gateway/src/scheduler/waiters.ts, and the uploads that wait for their stream.
use nidora_ai_inference.Base.{ℕ, Bool, List, [], ◌∷◌, ◌++◌, if◌then◌else◌, Str}
use nidora_ai_inference.Domain.Types.{Job, Pod}
use nidora_ai_inference.Store.Db.{Db}
use nidora_ai_inference.Artifacts.{Disk}
use nidora_ai_inference.Domain.Errors.{ApiError}

-- The variables of a poll that are live across `await waiters.wait(…)`.
pub record Parked : Type 0 where
  pub pod : Pod
  pub slots : ℕ
  pub cancel : List Str
  pub orphan : List Str

-- The variables of an upload that are live while its body streams in.
pub record Upload : Type 0 where
  pub job : Job
  pub filename : Str

-- `waiting` are the polls in the parking lot, `woken` those that a kick has resolved and that have
-- not run on yet.
pub record Gateway : Type 0 where
  pub db : Db
  pub disk : Disk
  pub waiting : List Parked
  pub woken : List Parked
  pub uploads : List Upload

-- Waiters.wait, when it parks.
unfoldable pub wait : Parked → Gateway → Gateway
wait p g = record g { waiting = g.waiting ++ p ∷ [] }

-- Waiters.kick.
unfoldable pub kick : Gateway → Gateway
kick g = record g { woken = g.woken ++ g.waiting; waiting = [] }

abbrev pub kick_if : Bool → Gateway → Gateway
kick_if b g = if b then kick g else g

-- A reply with its status. `raised` is an exception, which the error handler of gateway/src/app.ts
-- turns into a 500.
pub data Reply {ℓ} (A : Type ℓ) : Type ℓ where
  sent : ℕ → A → Reply A
  rejected : ℕ → ApiError → Reply A
  raised : Reply A
