-- ===== src/Scheduler/Waiters/Settling.antt =====
-- gateway/src/scheduler/waiters.ts: what `finish` does to a promise and to the sets.
use nidora_ai_inference.Base.{
  ℕ, ◌≤◌, ◌==◌, ◌≡◌, refl, sym, ap, ◌∙◌, ◌≢◌, inl, inr, Bool, true, false, not, ◌&&◌, ◌||◌,
  if◌then◌else◌, Bool-cases, List, [], ◌∷◌, ◌++◌, arith, delete_where,
}
use nidora_ai_inference.Scheduler.Reaper.{for_each}
use nidora_ai_inference.Scheduler.Waiters.{
  Promise, absent, pending, resolved, Lot, has, remove, settle, finish_as, finish, finish_all,
}

abbrev pub is_pending : Promise → Bool
is_pending pending = true
is_pending absent = false
is_pending (resolved b) = false

has-remove : (i id : ℕ) (xs : List ℕ) → has i (remove id xs) ≡ (has i xs && not (i == id))
unfolding delete_where
has-remove i id [] = refl
has-remove i id (x ∷ xs) = ground (arith, has-remove i id xs)

pub has-append : (i : ℕ) (xs ys : List ℕ) → has i (xs ++ ys) ≡ (has i xs || has i ys)
has-append i [] ys = refl
has-append i (x ∷ xs) ys = ground (arith, has-append i xs ys)

-- What a resolution does to a promise.
abbrev pub settled_as : Bool → Promise → Promise
settled_as woken absent = absent
settled_as woken pending = resolved woken
settled_as woken (resolved b) = resolved b

finish_as-promise :
    (id : ℕ) (woken : Bool) (l : Lot) (p : Promise)
    → l.promise id ≡ p
    → (i : ℕ) → i ≡ id
    → (finish_as id woken p l).promise i ≡ settled_as woken p
finish_as-promise id woken l absent e i h = ap l.promise h ∙ e
finish_as-promise id woken l pending e i h = ground (arith, h)
finish_as-promise id woken l (resolved b) e i h = ap l.promise h ∙ e

finish_as-others :
    (id : ℕ) (woken : Bool) (l : Lot) (p : Promise) (i : ℕ)
    → (i == id) ≡ false
    → (finish_as id woken p l).promise i ≡ l.promise i
finish_as-others id woken l absent i h = refl
finish_as-others id woken l pending i h = ground (arith, h)
finish_as-others id woken l (resolved b) i h = refl

-- Only the promise that is finished changes, and only if it is pending.
pub finish-promise :
    (id : ℕ) (woken : Bool) (l : Lot) (i : ℕ)
    → (finish id woken l).promise i
      ≡ (if i == id then settled_as woken (l.promise i) else l.promise i)
unfolding finish
finish-promise id woken l i = elim (Bool-cases (i == id)) [
  | inl h ↦
      let same : i ≡ id = ground arith in
      finish_as-promise id woken l (l.promise id) refl i same
      ∙ ap (λ k. settled_as woken (l.promise k)) (sym same)
      ∙ sym (ap (λ b. if b then settled_as woken (l.promise i) else l.promise i) h)
  | inr h ↦
      finish_as-others id woken l (l.promise id) i h
      ∙ sym (ap (λ b. if b then settled_as woken (l.promise i) else l.promise i) h)
]

settled_as-settled_as : (w : Bool) (p : Promise) → settled_as w (settled_as w p) ≡ settled_as w p
settled_as-settled_as w absent = refl
settled_as-settled_as w pending = refl
settled_as-settled_as w (resolved b) = refl

twice_if :
    (w a b : Bool) (p : Promise)
    → (if b
        then settled_as w (if a then settled_as w p else p)
        else (if a then settled_as w p else p))
      ≡ (if a || b then settled_as w p else p)
twice_if w true true p = settled_as-settled_as w p
twice_if w true false p = refl
twice_if w false b p = refl

-- Each promise of the list is settled, and no other.
pub finish_all-promise :
    (woken : Bool) (ids : List ℕ) (l : Lot) (i : ℕ)
    → (finish_all woken ids l).promise i
      ≡ (if has i ids then settled_as woken (l.promise i) else l.promise i)
unfolding finish_all for_each
finish_all-promise woken [] l i = refl
finish_all-promise woken (x ∷ xs) l i =
    finish_all-promise woken xs (finish x woken l) i
    ∙ ap (λ p. if has i xs then settled_as woken p else p) (finish-promise x woken l i)
    ∙ twice_if woken (i == x) (has i xs) (l.promise i)

-- A list of armed waiters: those whose promise is pending.
abbrev pub Armed : Lot → List ℕ → Type 0
Armed l xs = (i : ℕ) → has i xs ≡ is_pending (l.promise i)

pub is_pending-settled_as : (w : Bool) (p : Promise) → is_pending (settled_as w p) ≡ false
is_pending-settled_as w absent = refl
is_pending-settled_as w pending = refl
is_pending-settled_as w (resolved b) = refl

-- `timers` and `listeners` follow the promises.
pub record IsTidy (l : Lot) : Type 0 where
  pub timed : Armed l l.timers
  pub heard : Armed l l.listeners
  pub fresh : (i : ℕ) → l.next ≤ i → l.promise i ≡ absent

disarmed :
    (w b x : Bool) (p : Promise)
    → x ≡ is_pending p
    → (x && not b) ≡ is_pending (if b then resolved w else p)
disarmed w true x p e = ground arith
disarmed w false x p e = ground (arith, e)

pub armed-settle :
    (id : ℕ) (w : Bool) (l : Lot) (xs : List ℕ) → Armed l xs → Armed (settle id w l) (remove id xs)
armed-settle id w l xs a i =
    has-remove i id xs ∙ disarmed w (i == id) (has i xs) (l.promise i) (a i)

pending_present : pending ≢ absent
pending_present e = ground arith

finish_as-IsTidy :
    (id : ℕ) (woken : Bool) (l : Lot) (p : Promise)
    → l.promise id ≡ p
    → IsTidy l
    → IsTidy (finish_as id woken p l)
finish_as-IsTidy id woken l absent e t = t
finish_as-IsTidy id woken l pending e t = record {
  timed = armed-settle id woken l l.timers t.timed;
  heard = armed-settle id woken l l.listeners t.heard;
  fresh = λ i le. elim (Bool-cases (i == id)) [
    | inl h ↦ absurd (pending_present (sym e ∙ ap l.promise (ground arith) ∙ t.fresh i le))
    | inr h ↦ ground (arith, t.fresh i le)
  ];
}
finish_as-IsTidy id woken l (resolved b) e t = t

pub finish-IsTidy : (id : ℕ) (woken : Bool) (l : Lot) → IsTidy l → IsTidy (finish id woken l)
unfolding finish
finish-IsTidy id woken l t = finish_as-IsTidy id woken l (l.promise id) refl t

pub finish_all-IsTidy : (w : Bool) (ids : List ℕ) (l : Lot) → IsTidy l → IsTidy (finish_all w ids l)
unfolding finish_all for_each
finish_all-IsTidy w [] l t = t
finish_all-IsTidy w (x ∷ xs) l t = finish_all-IsTidy w xs (finish x w l) (finish-IsTidy x w l t)
