-- ===== src/Scheduler/Reaper/Kept.antt =====
-- gateway/src/scheduler/reaper.ts: a sweep keeps what the statements of the store keep.
use nidora_ai_inference.Base.{
  ℕ, ◌-◌, ◌≡◌, refl, ap, inl, inr, true, List, [], ◌∷◌, map, arith, leb, if-elim, Bool-cases,
  update_where,
}
use nidora_ai_inference.Domain.Types.{Job}
use nidora_ai_inference.Store.Db.{Db}
use nidora_ai_inference.Store.Machine.{Turns, rest, once, Turns-trans, fails, requeues, cancels}
use nidora_ai_inference.Store.Kept.{Kept, All-any}
use nidora_ai_inference.Scheduler.Config.{Config}
use nidora_ai_inference.Scheduler.Reaper.{sweep, lost_detail, overdue_detail}
use nidora_ai_inference.Scheduler.Reaper.Rounds.{
  lease_is_over, is_overdue, cancel_is_stale, lease_rule, overdue_rule, cancel_rule, sweep_row,
}
use nidora_ai_inference.Scheduler.Reaper.Effect.{jobs-sweep}
use nidora_ai_inference.Scheduler.Reaper.Laws.{sweep_row-id}

lease_rule-Turns : (m now : ℕ) (r : Job) → Turns m r (lease_rule m now r)
unfolding lease_rule
lease_rule-Turns m now r =
    if-elim (Turns m r) (lease_is_over now r) _ _
      (λ e. elim (Bool-cases (leb m r.attempts)) [
        | inl h ↦ rw h (once (fails (lost_detail r) now (ground arith)))
        | inr h ↦ rw h (once (requeues (ground arith) (ground arith)))
      ])
      (λ e. rest)

overdue_rule-Turns : (m now : ℕ) (r : Job) → Turns m r (overdue_rule now r)
unfolding overdue_rule
overdue_rule-Turns m now r =
    if-elim (Turns m r) (is_overdue now r) _ _
      (λ e. once (fails (overdue_detail now r) now (ground arith))) (λ e. rest)

cancel_rule-Turns : (m before now : ℕ) (r : Job) → Turns m r (cancel_rule before now r)
unfolding cancel_rule
cancel_rule-Turns m before now r =
    if-elim (Turns m r) (cancel_is_stale before r) _ _ (λ e. once (cancels now (ground arith)))
      (λ e. rest)

-- The three rules of a sweep are transitions.
pub sweep_row-Turns :
    (config : Config) (now : ℕ) (r : Job) → Turns config.max_attempts r (sweep_row config now r)
unfolding sweep_row
sweep_row-Turns config now r =
    let m : ℕ = config.max_attempts in
    let r1 = lease_rule m now r in
    let r2 = overdue_rule now r1 in
    Turns-trans (lease_rule-Turns m now r) (
      Turns-trans (overdue_rule-Turns m now r1)
        (cancel_rule-Turns m (now - config.cancel_grace_ms) now r2))

update_where-map : (f : Job → Job) (rows : List Job) → update_where (λ r. true) f rows ≡ map f rows
unfolding update_where
update_where-map f [] = refl
update_where-map f (r ∷ rows) = ap (◌∷◌ (f r)) (update_where-map f rows)

pub sweep-kept :
    (config : Config) (I : Kept config.max_attempts) (now : ℕ) (db : Db)
    → I.On db.jobs
    → I.On (sweep config now db).0.jobs
sweep-kept config I now db s =
    rw
      (
        jobs-sweep config now db (I.sound db.jobs s),
        ← update_where-map (sweep_row config now) db.jobs,
      )
      (I.update (λ r. true) (sweep_row config now) db.jobs (sweep_row-id config now)
        (All-any (λ r. true ≡ true → Turns config.max_attempts r (sweep_row config now r))
          (λ r h. sweep_row-Turns config now r) db.jobs)
        s)
