-- ===== src/Scheduler/Waiters.antt =====
-- gateway/src/scheduler/waiters.ts: the parking lot, with its promises, timers and listeners. A waiter is
-- the number of its call of `wait`; the signal is the one of the shutdown.
pub mod Settling
pub mod Once
pub mod Deaf
pub mod Sets
use nidora_ai_inference.Base.{
  ℕ, ◌+◌, ◌==◌, Bool, true, false, ◌||◌, if◌then◌else◌, List, [], ◌∷◌, ◌++◌, any, leb, length,
  delete_where,
}
use nidora_ai_inference.Scheduler.Reaper.{for_each}

-- A promise: not made yet, pending, or resolved.
pub data Promise : Type 0 where
  absent pending : Promise
  resolved : Bool → Promise

-- `waiting` is the set of the class, `timers` and `listeners` those that are armed.
pub record Lot : Type 0 where
  pub next : ℕ
  pub promise : ℕ → Promise
  pub waiting : List ℕ
  pub timers : List ℕ
  pub listeners : List ℕ
  pub aborted : Bool

abbrev pub has : ℕ → List ℕ → Bool
has i = any (λ j. i == j)

abbrev pub remove : ℕ → List ℕ → List ℕ
remove i = delete_where (λ j. j == i)

abbrev pub set_promise : ℕ → Promise → Lot → ℕ → Promise
set_promise id p l i = if i == id then p else l.promise i

-- `finish(woken)` behind its guard.
abbrev settle : ℕ → Bool → Lot → Lot
settle id woken l = record l {
  promise = set_promise id (resolved woken) l;
  waiting = remove id l.waiting;
  timers = remove id l.timers;
  listeners = remove id l.listeners;
}

-- `finish`: nothing once it has settled.
abbrev finish_as : ℕ → Bool → Promise → Lot → Lot
finish_as id woken absent l = l
finish_as id woken pending l = settle id woken l
finish_as id woken (resolved b) l = l

unfoldable pub finish : ℕ → Bool → Lot → Lot
finish id woken l = finish_as id woken (l.promise id) l

-- What `wait` returns: a promise that is resolved with false, or a pending one.
pub data Waited : Type 0 where
  at_once : Waited
  parked : ℕ → Waited

-- `timeout` is the wait in whole milliseconds, 0 where it is not positive.
unfoldable pub wait : ℕ → Lot → Lot × Waited
wait timeout l = if leb timeout 0 || l.aborted then (l, at_once) else (
  record l {
    next = l.next + 1;
    promise = set_promise l.next pending l;
    waiting = l.waiting ++ l.next ∷ [];
    timers = l.timers ++ l.next ∷ [];
    listeners = l.listeners ++ l.next ∷ [];
  },
  parked l.next,
)

-- `finish(woken)` of each in turn.
unfoldable pub finish_all : Bool → List ℕ → Lot → Lot
unfolding finish for_each
finish_all woken ids l = for_each (λ id. finish id woken) ids l

unfoldable pub kick : Lot → Lot
unfolding finish_all
kick l = finish_all true l.waiting (record l { waiting = [] })

-- A timer that is armed runs out.
unfoldable pub fire : ℕ → Lot → Lot
unfolding finish
fire id l = if has id l.timers then finish id false l else l

-- The signal fires: its listeners run, in the order in which they were added.
unfoldable pub abort : Lot → Lot
unfolding finish_all
abort l = finish_all false l.listeners (record l { aborted = true })

unfoldable pub size : Lot → ℕ
size l = length l.waiting

abbrev pub empty : Lot
empty = record {
  next = 0;
  promise = λ i. absent;
  waiting = [];
  timers = [];
  listeners = [];
  aborted = false;
}

-- The calls and the events of the lot.
pub data Step (l : Lot) : Lot → Type 0 where
  waits : (timeout : ℕ) → Step l (wait timeout l).0
  kicks : Step l (kick l)
  fires : (id : ℕ) → Step l (fire id l)
  aborts : Step l (abort l)

pub data Reach (l : Lot) : Lot → Type 0 where
  here : Reach l l
  next_step : {m n : Lot} → Reach l m → Step m n → Reach l n
