-- ===== src/Scheduler/Waiters/Once.antt =====
-- gateway/src/scheduler/waiters.ts: how the promises of the lot are resolved.
use nidora_ai_inference.Base.{
  ℕ, ◌==◌, ◌≡◌, refl, sym, ap, ◌∙◌, ◌≢◌, inl, inr, Bool, true, false, ◌||◌, if◌then◌else◌, if-elim,
  Bool-cases, List, [], ◌∷◌, ◌++◌, arith, leb, delete_where,
}
use nidora_ai_inference.Scheduler.Reaper.{for_each}
use nidora_ai_inference.Scheduler.Waiters.{
  Promise, absent, pending, resolved, Lot, has, remove, set_promise, finish_as, finish, Waited,
  wait, finish_all, kick, fire, abort, empty, Step, waits, kicks, fires, aborts, Reach, here,
  next_step,
}
use nidora_ai_inference.Scheduler.Waiters.Settling.{
  is_pending, has-append, settled_as, finish-promise, finish_all-promise, Armed,
  is_pending-settled_as, IsTidy, armed-settle, finish-IsTidy, finish_all-IsTidy,
}

-- Between two calls the set of the class is the pending waiters too.
pub record IsSettled (l : Lot) : Type 0 where
  pub tidy : IsTidy l
  pub waits : Armed l l.waiting

pub empty-IsSettled : IsSettled empty
empty-IsSettled = record {
  tidy = record { timed = λ i. refl; heard = λ i. refl; fresh = λ i le. refl };
  waits = λ i. refl;
}

-- What `finish` does to the set, where it is the pending waiters.
finish_as-waits :
    (id : ℕ) (woken : Bool) (l : Lot) (p : Promise)
    → l.promise id ≡ p
    → Armed l l.waiting
    → Armed (finish_as id woken p l) (finish_as id woken p l).waiting
finish_as-waits id woken l absent e a = a
finish_as-waits id woken l pending e a = armed-settle id woken l l.waiting a
finish_as-waits id woken l (resolved b) e a = a

finish-IsSettled : (id : ℕ) (woken : Bool) (l : Lot) → IsSettled l → IsSettled (finish id woken l)
unfolding finish
finish-IsSettled id woken l t = record {
  tidy = finish-IsTidy id woken l t.tidy;
  waits = finish_as-waits id woken l (l.promise id) refl t.waits;
}

finish_all-IsSettled :
    (w : Bool) (ids : List ℕ) (l : Lot) → IsSettled l → IsSettled (finish_all w ids l)
unfolding finish_all for_each
finish_all-IsSettled w [] l t = t
finish_all-IsSettled w (x ∷ xs) l t =
    finish_all-IsSettled w xs (finish x w l) (finish-IsSettled x w l t)

fire-IsSettled : (id : ℕ) (l : Lot) → IsSettled l → IsSettled (fire id l)
unfolding fire
fire-IsSettled id l t =
    if-elim IsSettled (has id l.timers) _ _ (λ h. finish-IsSettled id false l t) (λ h. t)

pub abort-IsSettled : (l : Lot) → IsSettled l → IsSettled (abort l)
unfolding abort
abort-IsSettled l t =
    let shut = record l { aborted = true } in
    finish_all-IsSettled false l.listeners shut (record {
      tidy = record { timed = t.tidy.timed; heard = t.tidy.heard; fresh = t.tidy.fresh };
      waits = t.waits;
    })

-- An empty set of waiters stays empty.
pub finish_as-waiting :
    (id : ℕ) (woken : Bool) (l : Lot) (p : Promise)
    → l.waiting ≡ []
    → (finish_as id woken p l).waiting ≡ []
unfolding delete_where
finish_as-waiting id woken l absent e = e
finish_as-waiting id woken l pending e = ap (remove id) e
finish_as-waiting id woken l (resolved b) e = e

pub finish_all-waiting :
    (woken : Bool) (ids : List ℕ) (l : Lot) → l.waiting ≡ [] → (finish_all woken ids l).waiting ≡ []
unfolding finish_all for_each finish
finish_all-waiting woken [] l e = e
finish_all-waiting woken (x ∷ xs) l e =
    finish_all-waiting woken xs (finish x woken l) (finish_as-waiting x woken l (l.promise x) e)

unparked :
    (w b : Bool) (p : Promise)
    → b ≡ is_pending p
    → (if b then settled_as w p else p) ≡ settled_as w p
unparked w true p e = refl
unparked w false absent e = refl
unparked w false pending e = absurd (ground arith)
unparked w false (resolved b) e = refl

-- A promise after a kick: woken where it was pending.
pub kick-promise :
    (l : Lot) (i : ℕ) → IsSettled l → (kick l).promise i ≡ settled_as true (l.promise i)
unfolding kick
kick-promise l i t =
    finish_all-promise true l.waiting (record l { waiting = [] }) i
    ∙ unparked true (has i l.waiting) (l.promise i) (t.waits i)

pub kick-waiting : (l : Lot) → (kick l).waiting ≡ []
unfolding kick
kick-waiting l = finish_all-waiting true l.waiting (record l { waiting = [] }) refl

kick-IsSettled : (l : Lot) → IsSettled l → IsSettled (kick l)
unfolding kick
kick-IsSettled l t = record {
  tidy =
      finish_all-IsTidy true l.waiting (record l { waiting = [] })
        (record { timed = t.tidy.timed; heard = t.tidy.heard; fresh = t.tidy.fresh });
  waits = λ i.
      ap (has i) (kick-waiting l)
      ∙ sym (is_pending-settled_as true (l.promise i))
      ∙ sym (ap is_pending (kick-promise l i t));
}

-- A new waiter joins a list.
joined :
    (l : Lot) (xs : List ℕ)
    → Armed l xs
    → (i : ℕ) → has i (xs ++ l.next ∷ []) ≡ is_pending (set_promise l.next pending l i)
joined l xs a i = has-append i xs (l.next ∷ []) ∙ arm (i == l.next) (has i xs) (l.promise i) (a i)
  where
    arm :
        (b x : Bool) (p : Promise)
        → x ≡ is_pending p
        → (x || (b || false)) ≡ is_pending (if b then pending else p)
    arm true x p e = ground arith
    arm false x p e = ground (arith, e)

pub wait-IsSettled : (timeout : ℕ) (l : Lot) → IsSettled l → IsSettled (wait timeout l).0
unfolding wait
wait-IsSettled timeout l t =
    if-elim (λ (r : Lot × Waited). IsSettled r.0) (leb timeout 0 || l.aborted) _ _ (λ h. t)
      (λ h. record {
        tidy = record {
          timed = joined l l.timers t.tidy.timed;
          heard = joined l l.listeners t.tidy.heard;
          fresh = λ i le. ground (arith, t.tidy.fresh i (ground arith));
        };
        waits = joined l l.waiting t.waits;
      })

pub step-IsSettled : {l m : Lot} → Step l m → IsSettled l → IsSettled m
step-IsSettled {l} (waits timeout) = wait-IsSettled timeout l
step-IsSettled {l} kicks = kick-IsSettled l
step-IsSettled {l} (fires id) = fire-IsSettled id l
step-IsSettled {l} aborts = abort-IsSettled l

pub Reach-IsSettled : {l m : Lot} → Reach l m → IsSettled l → IsSettled m
Reach-IsSettled here t = t
Reach-IsSettled (next_step r s) t = step-IsSettled s (Reach-IsSettled r t)

-- A promise that is resolved stays as it is.
kept :
    (w b : Bool) (c : Bool) (p : Promise)
    → p ≡ resolved b
    → (if c then settled_as w p else p) ≡ resolved b
kept w b true p e = ap (settled_as w) e
kept w b false p e = e

wait-kept :
    (timeout : ℕ) (l : Lot) (i : ℕ) (b : Bool)
    → IsSettled l
    → l.promise i ≡ resolved b
    → (wait timeout l).0.promise i ≡ resolved b
unfolding wait
wait-kept timeout l i b t e =
    if-elim (λ (r : Lot × Waited). r.0.promise i ≡ resolved b) (leb timeout 0 || l.aborted) _ _
      (λ h. e)
      (λ h. elim (Bool-cases (i == l.next)) [
        | inl h' ↦ absurd (resolved_present (sym e ∙ t.tidy.fresh i (ground arith)))
        | inr h' ↦ ground (arith, e)
      ])
  where
    resolved_present : resolved b ≢ absent
    resolved_present e' = ground arith

fire-promise :
    (id : ℕ) (l : Lot) → IsSettled l → (fire id l).promise id ≡ settled_as false (l.promise id)
unfolding fire
fire-promise id l t =
    if-elim (λ (m : Lot). m.promise id ≡ settled_as false (l.promise id)) (has id l.timers) _ _
      (λ h. finish-promise id false l id ∙ ground arith)
      (λ h.
        sym (ap (λ b. if b then settled_as false (l.promise id) else l.promise id) h)
        ∙ unparked false (has id l.timers) (l.promise id) (t.tidy.timed id))

pub abort-promise :
    (l : Lot) (i : ℕ) → IsSettled l → (abort l).promise i ≡ settled_as false (l.promise i)
unfolding abort
abort-promise l i t =
    finish_all-promise false l.listeners (record l { aborted = true }) i
    ∙ unparked false (has i l.listeners) (l.promise i) (t.tidy.heard i)

fire-kept :
    (id : ℕ) (l : Lot) (i : ℕ) (b : Bool)
    → l.promise i ≡ resolved b
    → (fire id l).promise i ≡ resolved b
unfolding fire
fire-kept id l i b e =
    if-elim (λ (m : Lot). m.promise i ≡ resolved b) (has id l.timers) _ _
      (λ h. finish-promise id false l i ∙ kept false b (i == id) (l.promise i) e) (λ h. e)

pub step-kept :
    {l m : Lot}
    → Step l m
    → IsSettled l
    → (i : ℕ) (b : Bool) → l.promise i ≡ resolved b
    → m.promise i ≡ resolved b
step-kept {l} (waits timeout) t i b e = wait-kept timeout l i b t e
step-kept {l} kicks t i b e = kick-promise l i t ∙ ap (settled_as true) e
step-kept {l} (fires id) t i b e = fire-kept id l i b e
step-kept {l} aborts t i b e = abort-promise l i t ∙ ap (settled_as false) e

-- What a lot promises: the pending waiters are those that are registered, in all three places; the
-- next kick, timer or abort resolves them, and what is resolved is resolved once.
pub record SettlesOnce (l : Lot) : Type 0 where
  pub waiting_pending : (i : ℕ) → has i l.waiting ≡ is_pending (l.promise i)
  pub timers_pending : (i : ℕ) → has i l.timers ≡ is_pending (l.promise i)
  pub listeners_pending : (i : ℕ) → has i l.listeners ≡ is_pending (l.promise i)
  pub kick_wakes : (i : ℕ) → l.promise i ≡ pending → (kick l).promise i ≡ resolved true
  pub kick_empties : (kick l).waiting ≡ []
  pub timer_wakes : (i : ℕ) → l.promise i ≡ pending → (fire i l).promise i ≡ resolved false
  pub abort_wakes : (i : ℕ) → l.promise i ≡ pending → (abort l).promise i ≡ resolved false
  pub once :
      (m : Lot)
      → Step l m
      → (i : ℕ) (b : Bool) → l.promise i ≡ resolved b
      → m.promise i ≡ resolved b

-- After any calls and events, from an empty lot: a promise is pending exactly if its waiter is in
-- the set, has its timer and its listener; a kick resolves each pending promise with true and empties
-- the set, its own timer and the shutdown resolve it with false; and no call or event changes a
-- promise that is resolved.
pub Reach-SettlesOnce : (l : Lot) → Reach empty l → SettlesOnce l
Reach-SettlesOnce l r =
    let t = Reach-IsSettled r empty-IsSettled in
    record {
      waiting_pending = t.waits;
      timers_pending = t.tidy.timed;
      listeners_pending = t.tidy.heard;
      kick_wakes = λ i e. kick-promise l i t ∙ ap (settled_as true) e;
      kick_empties = kick-waiting l;
      timer_wakes = λ i e. fire-promise i l t ∙ ap (settled_as false) e;
      abort_wakes = λ i e. abort-promise l i t ∙ ap (settled_as false) e;
      once = λ m s i b e. step-kept s t i b e;
    }
