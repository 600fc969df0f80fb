-- ===== src/Shutdown.antt =====
-- gateway/src/index.ts, `stop`: what a signal does to the process.
pub mod Release
pub mod Ending
use nidora_ai_inference.Base.{◌≡◌, Bool, true, false, if◌then◌else◌}
use nidora_ai_inference.Scheduler.Waiters.{Lot, Step, kick, abort, empty}

-- The process as `stop` sees it: the two timers, the parking lot, and the database.
pub record Process : Type 0 where
  pub closing : Bool
  pub lot : Lot
  pub reaping : Bool
  pub cleaning : Bool
  pub db_open : Bool

-- Up to the await of `app.close()`.
unfoldable pub stop : Process → Process
stop p =
    if p.closing
    then p
    else record p { closing = true; lot = kick (abort p.lot); reaping = false; cleaning = false }

-- Behind it; the exit follows at once.
unfoldable pub finish_stop : Process → Process
finish_stop p = record p { db_open = false }

-- The timers are set, and no signal has come.
abbrev pub started : Process
started = record { closing = false; lot = empty; reaping = true; cleaning = true; db_open = true }

-- What happens while the process runs: a signal, a call or an event of the lot, which requests go on to
-- make until the server is closed, and the return of the await behind a signal.
pub data Happens (p : Process) : Process → Type 0 where
  signals : p.db_open ≡ true → Happens p (stop p)
  parks : {l : Lot} → p.db_open ≡ true → Step p.lot l → Happens p (record p { lot = l })
  closes : p.db_open ≡ true → p.closing ≡ true → Happens p (finish_stop p)

pub data Runs : Process → Type 0 where
  begin : Runs started
  next : {p q : Process} → Runs p → Happens p q → Runs q
