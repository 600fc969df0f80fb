-- ===== src/Gateway/Parking.antt =====
-- gateway/src/scheduler/waiters.ts and the gateway: each call and event of the class Waiters has its
-- operation on the lists of parked and of woken polls.
use nidora_ai_inference.Base.{
  ℕ, zero, suc, ◌<◌, ◌==◌, ◌≡◌, refl, sym, ap, ◌∙◌, subst, inl, inr, Bool, true, false,
  if◌then◌else◌, if-elim, Bool-cases, List, [], ◌∷◌, ◌++◌, map, All, arith, leb, ◌||◌, delete_where,
}
use mathlib.Core.List.{append-nil, append_assoc}
use nidora_ai_inference.Scheduler.Config.{Config}
use nidora_ai_inference.Scheduler.Waiters.{
  Promise, absent, pending, resolved, Lot, has, remove, kick, fire, abort, Step, waits, kicks,
  fires, aborts, wait, empty, Reach, here, next_step, finish,
}
use nidora_ai_inference.Scheduler.Waiters.Settling.{
  is_pending, settled_as, has-append, finish-promise,
}
use nidora_ai_inference.Scheduler.Waiters.Once.{
  IsSettled, empty-IsSettled, Reach-IsSettled, kick-waiting, kick-promise, abort-promise,
}
use nidora_ai_inference.Scheduler.Waiters.Sets.{
  Ascending, Ascending-append, Ascending-remove, remove-above, below, index_of, fire-waiting,
  abort-waiting,
}
use nidora_ai_inference.Routes.State
use nidora_ai_inference.Routes.State.{Parked, Gateway}
use nidora_ai_inference.Gateway.{Runtime, times_out, remove_at, step}

map-remove_at {ℓ κ} :
    {A : Type ℓ} {B : Type κ} (f : A → B) (n : ℕ) (xs : List A)
    → map f (remove_at n xs) ≡ remove_at n (map f xs)
map-remove_at f n [] = refl
map-remove_at f zero (x ∷ xs) = refl
map-remove_at f (suc n) (x ∷ xs) = ap (λ ys. f x ∷ ys) (map-remove_at f n xs)

map-++ {ℓ κ} :
    {A : Type ℓ} {B : Type κ} (f : A → B) (xs ys : List A) → map f (xs ++ ys) ≡ map f xs ++ map f ys
map-++ f [] ys = refl
map-++ f (x ∷ xs) ys = ap (λ zs. f x ∷ zs) (map-++ f xs ys)

-- A waiter leaves the set where it stands in it.
remove-remove_at :
    (id : ℕ) (xs : List ℕ) → Ascending xs → remove id xs ≡ remove_at (index_of id xs) xs
unfolding delete_where
remove-remove_at id [] a = refl
remove-remove_at id (x ∷ xs) (b, a) = elim (Bool-cases (x == id)) [
  | inl h ↦
      ground (arith, h, remove-above id xs (subst (λ k. All (λ y. k < y) xs) (ground arith) b))
  | inr h ↦ ground (arith, h, remove-remove_at id xs a)
]

-- A promise that a kick has resolved.
abbrev is_woken : Promise → Bool
is_woken absent = false
is_woken pending = false
is_woken (resolved b) = b

is_woken-false :
    (c : Bool) (p : Promise) → is_woken (if c then settled_as false p else p) ≡ is_woken p
is_woken-false true absent = refl
is_woken-false true pending = refl
is_woken-false true (resolved b) = refl
is_woken-false false p = refl

is_woken-true : (p : Promise) → (is_woken p || is_pending p) ≡ is_woken (settled_as true p)
is_woken-true absent = refl
is_woken-true pending = refl
is_woken-true (resolved true) = refl
is_woken-true (resolved false) = refl

-- A timer wakes no waiter by a kick.
fire-woken : (id : ℕ) (l : Lot) (i : ℕ) → is_woken ((fire id l).promise i) ≡ is_woken (l.promise i)
unfolding fire
fire-woken id l i =
    if-elim (λ (m : Lot). is_woken (m.promise i) ≡ is_woken (l.promise i)) (has id l.timers) _ _
      (λ h. ap is_woken (finish-promise id false l i) ∙ is_woken-false (i == id) (l.promise i))
      (λ h. refl)

fire-unarmed : (id : ℕ) (l : Lot) → has id l.timers ≡ false → fire id l ≡ l
unfolding fire
fire-unarmed id l e = ap (λ b. if b then finish id false l else l) e

still :
    (b : Bool) (p : Promise)
    → (b ≡ true → p ≡ absent)
    → is_woken p ≡ is_woken (if b then pending else p)
still true p h = ap is_woken (h refl)
still false p h = refl

module _ (rt : Runtime) (config : Config) (polls : ℕ → Parked) where
  -- The first poll times out, once for each that is parked.
  drop_all : List Parked → Gateway → Gateway
  drop_all [] g = g
  drop_all (p ∷ ps) g = drop_all ps (step rt config (times_out 0) g)

  -- The operation of the gateway that a call or an event of the lot stands for.
  mirror : {l m : Lot} → Step l m → Gateway → Gateway
  mirror {l} (waits timeout) g =
      if leb timeout 0 || l.aborted then g else State.wait (polls l.next) g
  mirror kicks g = State.kick g
  mirror {l} (fires id) g =
      if has id l.timers then step rt config (times_out (index_of id l.waiting)) g else g
  mirror aborts g = drop_all g.waiting g

  -- A gateway that has run with the lot.
  pub mirrored : {l m : Lot} → Reach l m → Gateway → Gateway
  mirrored here g = g
  mirrored (next_step r s) g = mirror s (mirrored r g)

  -- The polls of the gateway h, which was g, are those of the lot.
  pub record Couples (g : Gateway) (l : Lot) (h : Gateway) : Type 0 where
    pub parked_polls : h.waiting ≡ map polls l.waiting
    pub woken : List ℕ
    pub woken_polls : h.woken ≡ g.woken ++ map polls woken
    pub woken_promises : (i : ℕ) → has i woken ≡ is_woken (l.promise i)
    pub in_order : Ascending l.waiting

  timed_out :
      (g h : Gateway) (l : Lot) (id : ℕ)
      → IsSettled l
      → Couples g l h
      → Couples g
          (fire id l)
          (if has id l.timers then step rt config (times_out (index_of id l.waiting)) h else h)
  unfolding step
  timed_out g h l id t c = elim (Bool-cases (has id l.timers)) [
    | inl e ↦
        subst (Couples g (fire id l))
          (sym (ap (λ b. if b then step rt config (times_out (index_of id l.waiting)) h else h) e))
          (record {
            parked_polls =
                ap (remove_at (index_of id l.waiting)) c.parked_polls
                ∙ sym (map-remove_at polls (index_of id l.waiting) l.waiting)
                ∙ ap (map polls)
                    (sym (fire-waiting id l t ∙ remove-remove_at id l.waiting c.in_order));
            woken = c.woken;
            woken_polls = c.woken_polls;
            woken_promises = λ i. c.woken_promises i ∙ sym (fire-woken id l i);
            in_order =
                subst Ascending (sym (fire-waiting id l t))
                  (Ascending-remove id l.waiting c.in_order);
          })
    | inr e ↦
        subst (Couples g (fire id l))
          (sym (ap (λ b. if b then step rt config (times_out (index_of id l.waiting)) h else h) e))
          (subst (λ m. Couples g m h) (sym (fire-unarmed id l e)) c)
  ]

  kicked :
      (g h : Gateway) (l : Lot) → IsSettled l → Couples g l h → Couples g (kick l) (State.kick h)
  unfolding State.kick
  kicked g h l t c = record {
    parked_polls = ap (map polls) (sym (kick-waiting l));
    woken = c.woken ++ l.waiting;
    woken_polls =
        ap (λ ps. ps ++ h.waiting) c.woken_polls
        ∙ append_assoc g.woken (map polls c.woken) h.waiting
        ∙ ap (λ ps. g.woken ++ (map polls c.woken ++ ps)) c.parked_polls
        ∙ ap (λ ps. g.woken ++ ps) (sym (map-++ polls c.woken l.waiting));
    woken_promises = λ i.
        has-append i c.woken l.waiting
        ∙ ap (λ b. b || has i l.waiting) (c.woken_promises i)
        ∙ ap (λ b. is_woken (l.promise i) || b) (t.waits i)
        ∙ is_woken-true (l.promise i)
        ∙ ap is_woken (sym (kick-promise l i t));
    in_order = subst Ascending (sym (kick-waiting l)) tt;
  }

  waited :
      (g h : Gateway) (l : Lot) (timeout : ℕ)
      → IsSettled l
      → Couples g l h
      → Couples g
          (wait timeout l).0
          (if leb timeout 0 || l.aborted then h else State.wait (polls l.next) h)
  unfolding wait State.wait
  waited g h l timeout t c = elim (Bool-cases (leb timeout 0 || l.aborted)) [
    | inl e ↦ rw e c
    | inr e ↦ rw e (record {
      parked_polls =
          ap (λ ps. ps ++ polls l.next ∷ []) c.parked_polls
          ∙ sym (map-++ polls l.waiting (l.next ∷ []));
      woken = c.woken;
      woken_polls = c.woken_polls;
      woken_promises = λ i.
          c.woken_promises i
          ∙ still (i == l.next) (l.promise i) (λ e'. t.tidy.fresh i (ground arith));
      in_order = Ascending-append l.waiting l.next c.in_order (below l t);
    })
  ]

  -- All that are parked time out.
  drop_all-lists :
      (ps : List Parked) (h : Gateway)
      → h.waiting ≡ ps
      → ((drop_all ps h).waiting ≡ []) × ((drop_all ps h).woken ≡ h.woken)
  unfolding drop_all step
  drop_all-lists [] h e = (e, refl)
  drop_all-lists (p ∷ ps) h e =
      drop_all-lists ps (step rt config (times_out 0) h) (ap (remove_at 0) e)

  aborted :
      (g h : Gateway) (l : Lot)
      → IsSettled l
      → Couples g l h
      → Couples g (abort l) (drop_all h.waiting h)
  aborted g h l t c =
      let (none_left, same_woken) = drop_all-lists h.waiting h refl in
      record {
        parked_polls = none_left ∙ ap (map polls) (sym (abort-waiting l t));
        woken = c.woken;
        woken_polls = same_woken ∙ c.woken_polls;
        woken_promises = λ i.
            c.woken_promises i
            ∙ sym (is_woken-false true (l.promise i))
            ∙ ap is_woken (sym (abort-promise l i t));
        in_order = subst Ascending (sym (abort-waiting l t)) tt;
      }

  mirror-Couples :
      (g h : Gateway) {l m : Lot} (s : Step l m)
      → IsSettled l
      → Couples g l h
      → Couples g m (mirror s h)
  unfolding mirror
  mirror-Couples g h {l} (waits timeout) t c = waited g h l timeout t c
  mirror-Couples g h {l} kicks t c = kicked g h l t c
  mirror-Couples g h {l} (fires id) t c = timed_out g h l id t c
  mirror-Couples g h {l} aborts t c = aborted g h l t c

  -- A gateway with no parked poll runs with a lot that was empty: a wait that parks parks its poll, a
  -- kick is a kick, a timer that is armed is the time-out of the poll where its waiter stands in the
  -- set, and the shutdown's abort is the time-out of all. After any calls and events the parked polls
  -- are those of the lot's waiters, in the order of their calls, and behind those that were woken
  -- before stand the polls of exactly the waiters whose promise is resolved with true.
  pub mirrored-Couples :
      (g : Gateway) (l : Lot) (r : Reach empty l) → g.waiting ≡ [] → Couples g l (mirrored r g)
  unfolding mirrored
  mirrored-Couples g l here e = record {
    parked_polls = e;
    woken = [];
    woken_polls = sym (append-nil g.woken);
    woken_promises = λ i. refl;
    in_order = tt;
  }
  mirrored-Couples g l (next_step {m} r s) e =
      mirror-Couples g (mirrored r g) s (Reach-IsSettled r empty-IsSettled)
        (mirrored-Couples g m r e)
