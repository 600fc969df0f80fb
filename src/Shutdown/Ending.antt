-- ===== src/Shutdown/Ending.antt =====
-- gateway/src/index.ts, `stop`: the timers and the polls once a signal has come, whatever happens then.
-- That `app.close()` resolves is Fastify's.
use nidora_ai_inference.Base.{
  ℕ, ◌≡◌, ◌≢◌, ◌⊎◌, inl, inr, refl, sym, ap, ◌∙◌, true, false, if-elim, arith,
}
use nidora_ai_inference.Scheduler.Waiters.{
  Promise, pending, has, abort, wait, at_once, kicks, aborts,
}
use nidora_ai_inference.Scheduler.Waiters.Settling.{is_pending}
use nidora_ai_inference.Scheduler.Waiters.Once.{IsSettled, empty-IsSettled, step-IsSettled}
use nidora_ai_inference.Scheduler.Waiters.Deaf.{
  IsDeaf, abort-aborted, kick-IsDeaf, wait-at_once, step-IsDeaf,
}
use nidora_ai_inference.Shutdown.{
  Process, stop, finish_stop, Happens, signals, parks, closes, Runs, begin, next,
}

record IsOrderly (p : Process) : Type 0 where
  settled : IsSettled p.lot
  deaf : p.closing ≡ true → IsDeaf p.lot × (p.reaping ≡ false) × (p.cleaning ≡ false)
  last : p.db_open ≡ false → p.closing ≡ true

stop-IsOrderly : (p : Process) → IsOrderly p → IsOrderly (stop p)
unfolding stop
stop-IsOrderly p o =
    if-elim IsOrderly p.closing _ _ (λ e. o)
      (λ e. record {
        settled = step-IsSettled kicks (step-IsSettled aborts o.settled);
        deaf = λ _. (kick-IsDeaf (abort p.lot) (abort-aborted p.lot), refl, refl);
        last = λ _. refl;
      })

Happens-IsOrderly : {p q : Process} → Happens p q → IsOrderly p → IsOrderly q
unfolding finish_stop
Happens-IsOrderly {p} (signals h) o = stop-IsOrderly p o
Happens-IsOrderly {p} (parks h s) o = record {
  settled = step-IsSettled s o.settled;
  deaf = λ e. let (d, r, c) = o.deaf e in (step-IsDeaf s d, r, c);
  last = o.last;
}
Happens-IsOrderly {p} (closes h e) o = record { settled = o.settled; deaf = o.deaf; last = λ _. e }

Runs-IsOrderly : {p : Process} → Runs p → IsOrderly p
Runs-IsOrderly begin = record {
  settled = empty-IsSettled;
  deaf = λ e. absurd (ground arith);
  last = λ e. absurd (ground arith);
}
Runs-IsOrderly (next r h) = Happens-IsOrderly h (Runs-IsOrderly r)

not_pending : (q : Promise) → false ≡ is_pending q → q ≢ pending
not_pending q e h = absurd (ground arith)

-- In every run of a process that started, with signals, calls and events of the parking lot and the end
-- of the shutdown in any order: once a signal has come, or the database is closed, both timers are
-- stopped, no promise of a poll is pending, and a further wait returns at once.
pub shutdown-ends :
    (p : Process)
    → Runs p
    → (p.closing ≡ true) ⊎ (p.db_open ≡ false)
    → (p.reaping ≡ false)
      × (p.cleaning ≡ false)
      × ((i : ℕ) → p.lot.promise i ≢ pending)
      × ((timeout : ℕ) → wait timeout p.lot ≡ (p.lot, at_once))
shutdown-ends p r h =
    let o = Runs-IsOrderly r in
    let closing : p.closing ≡ true = elim h [ inl e ↦ e | inr e ↦ o.last e ] in
    let (d, reaping, cleaning) = o.deaf closing in
    (
      reaping,
      cleaning,
      λ i. not_pending (p.lot.promise i) (sym (ap (has i) d.vacant) ∙ o.settled.waits i),
      λ timeout. wait-at_once timeout p.lot d.aborted,
    )
