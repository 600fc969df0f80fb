-- ===== src/Scheduler/Waiters/Deaf.antt =====
-- gateway/src/scheduler/waiters.ts: the lot behind the abort.
use nidora_ai_inference.Base.{ℕ, ◌≡◌, refl, ◌∙◌, Bool, true, false, if-elim, List, [], ◌∷◌, arith}
use nidora_ai_inference.Scheduler.Reaper.{for_each}
use nidora_ai_inference.Scheduler.Waiters.{
  Promise, absent, pending, resolved, Lot, has, finish_as, finish, finish_all, kick, fire, abort,
  wait, at_once, Step, waits, kicks, fires, aborts,
}
use nidora_ai_inference.Scheduler.Waiters.Once.{finish_as-waiting, finish_all-waiting, kick-waiting}

finish_as-aborted :
    (id : ℕ) (woken : Bool) (l : Lot) (p : Promise) → (finish_as id woken p l).aborted ≡ l.aborted
finish_as-aborted id woken l absent = refl
finish_as-aborted id woken l pending = refl
finish_as-aborted id woken l (resolved b) = refl

finish_all-aborted :
    (woken : Bool) (ids : List ℕ) (l : Lot) → (finish_all woken ids l).aborted ≡ l.aborted
unfolding finish_all for_each finish
finish_all-aborted woken [] l = refl
finish_all-aborted woken (x ∷ xs) l =
    finish_all-aborted woken xs (finish x woken l) ∙ finish_as-aborted x woken l (l.promise x)

-- A lot that nothing is parked in, and that takes no new waiter.
pub record IsDeaf (l : Lot) : Type 0 where
  pub aborted : l.aborted ≡ true
  pub vacant : l.waiting ≡ []

fire-IsDeaf : (id : ℕ) (l : Lot) → IsDeaf l → IsDeaf (fire id l)
unfolding fire finish
fire-IsDeaf id l d =
    if-elim IsDeaf (has id l.timers) _ _
      (λ h. record {
        aborted = finish_as-aborted id false l (l.promise id) ∙ d.aborted;
        vacant = finish_as-waiting id false l (l.promise id) d.vacant;
      })
      (λ h. d)

pub abort-aborted : (l : Lot) → (abort l).aborted ≡ true
unfolding abort
abort-aborted l = finish_all-aborted false l.listeners (record l { aborted = true })

abort-IsDeaf : (l : Lot) → l.waiting ≡ [] → IsDeaf (abort l)
unfolding abort
abort-IsDeaf l e = record {
  aborted = abort-aborted l;
  vacant = finish_all-waiting false l.listeners (record l { aborted = true }) e;
}

pub kick-IsDeaf : (l : Lot) → l.aborted ≡ true → IsDeaf (kick l)
unfolding kick
kick-IsDeaf l e = record {
  aborted = finish_all-aborted true l.waiting (record l { waiting = [] }) ∙ e;
  vacant = kick-waiting l;
}

pub wait-at_once : (timeout : ℕ) (l : Lot) → l.aborted ≡ true → wait timeout l ≡ (l, at_once)
unfolding wait
wait-at_once timeout l e = ground (arith, e)

pub step-IsDeaf : {l m : Lot} → Step l m → IsDeaf l → IsDeaf m
step-IsDeaf {l} (waits timeout) d = rw (wait-at_once timeout l d.aborted) d
step-IsDeaf {l} kicks d = kick-IsDeaf l d.aborted
step-IsDeaf {l} (fires id) d = fire-IsDeaf id l d
step-IsDeaf {l} aborts d = abort-IsDeaf l d.vacant
