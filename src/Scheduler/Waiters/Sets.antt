-- ===== src/Scheduler/Waiters/Sets.antt =====
-- gateway/src/scheduler/waiters.ts: the set of the waiters after each call, in the order of their calls.
use nidora_ai_inference.Base.{
  ℕ, suc, ◌<◌, ◌≤◌, ◌==◌, ◌≡◌, refl, sym, ap, ◌∙◌, Bool, true, false, if◌then◌else◌, if-elim, List,
  [], ◌∷◌, ◌++◌, All, All-append, All-delete_where, arith, delete_where,
}
use nidora_ai_inference.Scheduler.Waiters.{
  Promise, absent, pending, resolved, Lot, has, remove, finish_as, finish, fire, abort,
}
use nidora_ai_inference.Scheduler.Waiters.Settling.{is_pending, settled_as}
use nidora_ai_inference.Scheduler.Waiters.Once.{IsSettled, abort-IsSettled, abort-promise}

-- Waiters are numbered by their calls.
abbrev pub Ascending : List ℕ → Type 0
Ascending [] = Unit
Ascending (x ∷ xs) = All (λ y. x < y) xs × Ascending xs

pub Ascending-append :
    (xs : List ℕ) (n : ℕ) → Ascending xs → All (λ x. x < n) xs → Ascending (xs ++ n ∷ [])
Ascending-append [] n a h = (tt, tt)
Ascending-append (x ∷ xs) n (b, a) (p, h) =
    (All-append (λ y. x < y) xs (n ∷ []) b (p, tt), Ascending-append xs n a h)

pub Ascending-remove : (id : ℕ) (xs : List ℕ) → Ascending xs → Ascending (remove id xs)
unfolding delete_where
Ascending-remove id [] a = tt
Ascending-remove id (x ∷ xs) (b, a) =
    if-elim Ascending (x == id) _ _ (λ e. Ascending-remove id xs a)
      (λ e. (All-delete_where (λ y. x < y) (λ j. j == id) xs b, Ascending-remove id xs a))

pub remove-above : (id : ℕ) (xs : List ℕ) → All (λ y. id < y) xs → remove id xs ≡ xs
unfolding delete_where
remove-above id [] h = refl
remove-above id (x ∷ xs) (p, h) = ground (arith, remove-above id xs h)

-- Where the waiter stands.
abbrev pub index_of : ℕ → List ℕ → ℕ
index_of id [] = 0
index_of id (x ∷ xs) = if x == id then 0 else suc (index_of id xs)

pub remove-has : (id : ℕ) (xs : List ℕ) → has id xs ≡ false → remove id xs ≡ xs
unfolding delete_where
remove-has id [] h = refl
remove-has id (x ∷ xs) h = ground (arith, remove-has id xs)

has-none : (xs : List ℕ) → ((i : ℕ) → has i xs ≡ false) → xs ≡ []
has-none [] h = refl
has-none (x ∷ xs) h = absurd (ground (arith, h x))

finish_as-remove :
    (id : ℕ) (woken : Bool) (l : Lot) (p : Promise)
    → is_pending p ≡ true
    → (finish_as id woken p l).waiting ≡ remove id l.waiting
finish_as-remove id woken l absent e = cc
finish_as-remove id woken l pending e = refl
finish_as-remove id woken l (resolved b) e = cc

-- A timer takes its waiter out of the set.
pub fire-waiting : (id : ℕ) (l : Lot) → IsSettled l → (fire id l).waiting ≡ remove id l.waiting
unfolding fire finish
fire-waiting id l t =
    if-elim (λ (m : Lot). m.waiting ≡ remove id l.waiting) (has id l.timers) _ _
      (λ h. finish_as-remove id false l (l.promise id) (sym (t.tidy.timed id) ∙ h))
      (λ h. sym (remove-has id l.waiting (t.waits id ∙ sym (t.tidy.timed id) ∙ h)))

not_pending : (p : Promise) → is_pending (settled_as false p) ≡ false
not_pending absent = refl
not_pending pending = refl
not_pending (resolved b) = refl

-- An abort empties it.
pub abort-waiting : (l : Lot) → IsSettled l → (abort l).waiting ≡ []
abort-waiting l t = has-none (abort l).waiting (λ i.
    (abort-IsSettled l t).waits i ∙ ap is_pending (abort-promise l i t) ∙ not_pending (l.promise i))

-- The numbers of a set are below the next one.
pub below : (l : Lot) → IsSettled l → All (λ x. x < l.next) l.waiting
below l t = bounded l.waiting (λ i le. t.waits i ∙ ap is_pending (t.tidy.fresh i le))
  where
    bounded : (xs : List ℕ) → ((i : ℕ) → l.next ≤ i → has i xs ≡ false) → All (λ x. x < l.next) xs
    bounded [] h = tt
    bounded (x ∷ xs) h = (ground (arith, h x), bounded xs (λ i le. ground (arith, h i le)))
