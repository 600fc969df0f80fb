-- ===== src/Routes/Health/Load.antt =====
-- gateway/src/routes/health.ts: the figures of the fleet and of the queue.
use nidora_ai_inference.Base.{
  ℕ, ◌+◌, ◌-◌, ◌≤◌, ◌≡◌, refl, ◌∙◌, inl, inr, Bool, true, false, ◌&&◌, Bool-cases, List, [], ◌∷◌,
  any, arith, length, Str, str_eq, str_eq_comm, column_is, column_is_sound, count_where,
  select_where, length-order_by, length-select_where, some, leb, if-elim, order_by_desc,
  insert_by_desc, any-insert_by_desc, any-order_by_desc, any-select_where, any-false,
}
use nidora_ai_inference.Domain.Types.{is_in_progress, in_progress, same_status, Job, Pod}
use nidora_ai_inference.Store.Db.{Db}
use nidora_ai_inference.Store.Queries.{counts, list_by_pod}
use nidora_ai_inference.Store.Pods.{is_pod, list_connected}
use nidora_ai_inference.Scheduler.Config.{Config}
use nidora_ai_inference.Scheduler.Claim.{free_slots}
use nidora_ai_inference.Scheduler.Reaper.{for_each}
use nidora_ai_inference.Routes.Health.{FleetSnapshot, in_flight_on, count_pod, fleet, one_if_true}

-- No two rows of the pods table share an id.
abbrev pub DistinctPods : List Pod → Type 0
DistinctPods [] = Unit {0}
DistinctPods (p ∷ ps) = (any (is_pod p.pod_id) ps ≡ false) × DistinctPods ps

abbrev on_pod : Str → Job → Bool
on_pod id j = column_is j.pod_id id && same_status in_progress j.state

-- The jobs in progress on the pods of a list.
busy : List Pod → List Job → ℕ
busy [] js = 0
busy (p ∷ ps) js = count_where (on_pod p.pod_id) js + busy ps js

busy-nil : (ps : List Pod) → busy ps [] ≡ 0
unfolding busy count_where
busy-nil [] = refl
busy-nil (p ∷ ps) = omega (arith, busy-nil ps)

busy-elsewhere :
    (id : Str) (ps : List Pod) (j : Job) (js : List Job)
    → any (is_pod id) ps ≡ false
    → column_is j.pod_id id ≡ true
    → busy ps (j ∷ js) ≡ busy ps js
unfolding busy count_where
busy-elsewhere id [] j js n h = refl
busy-elsewhere id (p ∷ ps) j js n h =
    let e : j.pod_id ≡ some id = column_is_sound j.pod_id id h in
    let other : str_eq id p.pod_id ≡ false = str_eq_comm id p.pod_id ∙ ground arith in
    ground (arith, busy-elsewhere id ps j js)

busy-cons :
    (ps : List Pod) (j : Job) (js : List Job)
    → DistinctPods ps
    → busy ps (j ∷ js) ≤ one_if_true (is_in_progress j.state) + busy ps js
unfolding busy count_where
busy-cons [] j js d = ground arith
busy-cons (p ∷ ps) j js (n, d) = elim (Bool-cases (column_is j.pod_id p.pod_id)) [
  | inl h ↦ ground (arith, busy-elsewhere p.pod_id ps j js n h)
  | inr h ↦ ground (arith, busy-cons ps j js d)
]

busy-le :
    (ps : List Pod) (js : List Job)
    → DistinctPods ps
    → busy ps js ≤ count_where (λ j. is_in_progress j.state) js
unfolding count_where
busy-le ps [] d = rw (busy-nil ps) (omega arith)
busy-le ps (j ∷ js) d = ground (arith, busy-cons ps j js d, busy-le ps js d)

module _ (db : Db) where
  in_flight_on-count : (p : Pod) → in_flight_on db p ≡ count_where (on_pod p.pod_id) db.jobs
  unfolding in_flight_on list_by_pod
  in_flight_on-count p =
      length-order_by _ (select_where (on_pod p.pod_id) db.jobs)
      ∙ length-select_where (on_pod p.pod_id) db.jobs

  -- The free slots of a list of pods.
  pub free : List Pod → ℕ
  free [] = 0
  free (p ∷ ps) = free_slots p (in_flight_on db p) + free ps

  abbrev Adds : List Pod → FleetSnapshot → FleetSnapshot → Type 0
  Adds ps s t =
      (t.connected ≡ s.connected)
      × (t.ready + t.draining ≤ s.ready + s.draining + length ps)
      × (t.slots_busy ≡ s.slots_busy + busy ps db.jobs)
      × (t.slots_total ≡ s.slots_total + (busy ps db.jobs + free ps))

  for_each-Adds : (ps : List Pod) (s : FleetSnapshot) → Adds ps s (for_each (count_pod db) ps s)
  unfolding for_each count_pod busy free
  for_each-Adds [] s = ground arith
  for_each-Adds (p ∷ ps) s =
      ground (arith, for_each-Adds ps (count_pod db p s), in_flight_on-count p)

DistinctPods-insert :
    (p : Pod) (ps : List Pod)
    → any (is_pod p.pod_id) ps ≡ false
    → DistinctPods ps
    → DistinctPods (insert_by_desc (λ q. q.last_seen_at) p ps)
unfolding insert_by_desc
DistinctPods-insert p [] n d = (refl, tt)
DistinctPods-insert p (q ∷ qs) n (m, d) =
    if-elim DistinctPods (leb q.last_seen_at p.last_seen_at) _ _ (λ e. (n, (m, d)))
      (λ e. (
        any-insert_by_desc (is_pod q.pod_id) (λ r. r.last_seen_at) p qs
            ∙ ground (arith, str_eq_comm p.pod_id q.pod_id),
        DistinctPods-insert p qs (ground arith) d,
      ))

DistinctPods-order :
    (ps : List Pod) → DistinctPods ps → DistinctPods (order_by_desc (λ q. q.last_seen_at) ps)
unfolding order_by_desc
DistinctPods-order [] d = tt
DistinctPods-order (p ∷ ps) (n, d) =
    DistinctPods-insert p (order_by_desc (λ q. q.last_seen_at) ps)
      (any-order_by_desc (is_pod p.pod_id) (λ q. q.last_seen_at) ps ∙ n) (DistinctPods-order ps d)

DistinctPods-select :
    (hit : Pod → Bool) (ps : List Pod) → DistinctPods ps → DistinctPods (select_where hit ps)
unfolding select_where
DistinctPods-select hit [] d = tt
DistinctPods-select hit (p ∷ ps) (n, d) =
    if-elim DistinctPods (hit p) _ _
      (λ e. (
        any-select_where (is_pod p.pod_id) hit ps ∙ any-false (is_pod p.pod_id) hit ps n,
        DistinctPods-select hit ps d,
      ))
      (λ e. DistinctPods-select hit ps d)

list_connected-DistinctPods :
    (since : ℕ) (db : Db) → DistinctPods db.pods → DistinctPods (list_connected since db)
unfolding list_connected
list_connected-DistinctPods since db d =
    DistinctPods-order (select_where (λ p. leb since p.last_seen_at) db.pods)
      (DistinctPods-select (λ p. leb since p.last_seen_at) db.pods d)

-- In the snapshot of the fleet, where no two pods share an id: the ready and the draining pods are at
-- most the connected ones together, the busy slots are at most the jobs in progress, and all slots are
-- the busy ones with those that a claim of some connected pod could fill.
pub fleet_adds_up :
    (config : Config) (now : ℕ) (db : Db)
    → DistinctPods db.pods
    → let s = fleet config now db in
      (s.ready + s.draining ≤ s.connected)
      × (s.slots_busy ≤ (counts db).running)
      × (s.slots_total ≡ s.slots_busy + free db (list_connected (now - config.pod_stale_ms) db))
unfolding fleet counts
fleet_adds_up config now db d =
    let ps : List Pod = list_connected (now - config.pod_stale_ms) db in
    let (a, b, c, t) = for_each-Adds db ps (record {
      connected = length ps;
      ready = 0;
      draining = 0;
      slots_total = 0;
      slots_busy = 0;
    }) in
    (
      omega arith,
      omega (arith, busy-le ps db.jobs (list_connected-DistinctPods _ db d)),
      omega arith,
    )
