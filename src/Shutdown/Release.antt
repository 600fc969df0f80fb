-- ===== src/Shutdown/Release.antt =====
-- gateway/src/index.ts, `stop`: the first signal and the parked polls.
use nidora_ai_inference.Base.{ℕ, ◌≡◌, refl, ap, ◌∙◌, Bool, true, false, []}
use nidora_ai_inference.Scheduler.Waiters.{pending, resolved, Lot, kick, abort, empty, Reach}
use nidora_ai_inference.Scheduler.Waiters.Settling.{settled_as}
use nidora_ai_inference.Scheduler.Waiters.Once.{
  IsSettled, empty-IsSettled, Reach-IsSettled, abort-IsSettled, abort-promise, kick-promise,
  kick-waiting,
}
use nidora_ai_inference.Shutdown.{Process, stop}

stopped :
    (l : Lot) (i : ℕ)
    → IsSettled l
    → (kick (abort l)).promise i ≡ settled_as true (settled_as false (l.promise i))
stopped l i t =
    kick-promise (abort l) i (abort-IsSettled l t) ∙ ap (settled_as true) (abort-promise l i t)

-- Where the lot has been made by any calls and events, the first signal resolves each pending promise
-- with false, although a kick follows, leaves the others as they are, empties the set of waiters and
-- stops both timers. A later signal does nothing.
pub stop-releases :
    (p : Process)
    → Reach empty p.lot
    → p.closing ≡ false
    → let p' = stop p in
      ((i : ℕ) → p.lot.promise i ≡ pending → p'.lot.promise i ≡ resolved false)
      × ((i : ℕ) (b : Bool) → p.lot.promise i ≡ resolved b → p'.lot.promise i ≡ resolved b)
      × (p'.lot.waiting ≡ [])
      × (p'.reaping ≡ false)
      × (p'.cleaning ≡ false)
      × (stop p' ≡ p')
unfolding stop
stop-releases p r e =
    let t = Reach-IsSettled r empty-IsSettled in
    rw e (
      (λ i h. stopped p.lot i t ∙ ap (λ q. settled_as true (settled_as false q)) h),
      (λ i b h. stopped p.lot i t ∙ ap (λ q. settled_as true (settled_as false q)) h),
      kick-waiting (abort p.lot),
      refl,
      refl,
      refl,
    )
