-- ===== src/Store/Pods/Registration.antt =====
-- gateway/src/db/pods.ts: the poll that registers its pod.
use nidora_ai_inference.Base.{
  ℕ, ◌≡◌, refl, false, Option, none, some, List, [], ◌∷◌, arith, if-elim, str_eq_refl, find,
}
use nidora_ai_inference.Domain.Types.{Pod}
use nidora_ai_inference.Store.Db.{Db}
use nidora_ai_inference.Store.Pods.{PodHeartbeat, is_pod, get, upsert, touched, touch}

find-upsert :
    (hb : PodHeartbeat) (now : ℕ) (ps : List Pod)
    → find (is_pod hb.pod_id) (upsert hb now ps) ≡ some (touched hb now ps)
unfolding find upsert touched
find-upsert hb now [] = ground (arith, str_eq_refl hb.pod_id)
find-upsert hb now (p ∷ ps) = ground (arith, find-upsert hb now ps)

-- The flags and counts that a row carries over, and what a new row starts with.
abbrev pub carried : {A : Type 0} → (Pod → A) → A → Option Pod → A
carried column start none = start
carried column start (some p) = column p

touched-seen :
    (hb : PodHeartbeat) (now : ℕ) (ps : List Pod)
    → ((touched hb now ps).last_seen_at ≡ now)
      × ((touched hb now ps).sglang_ready ≡ hb.sglang_ready)
      × ((touched hb now ps).model_path ≡ hb.model_path)
unfolding touched
touched-seen hb now [] = (refl, refl, refl)
touched-seen hb now (p ∷ ps) =
    if-elim
      (λ (q : Pod).
        (q.last_seen_at ≡ now)
        × (q.sglang_ready ≡ hb.sglang_ready)
        × (q.model_path ≡ hb.model_path))
      (is_pod hb.pod_id p) _ _ (λ e. (refl, refl, refl)) (λ e. touched-seen hb now ps)

touched-carried :
    (hb : PodHeartbeat) (now : ℕ) (ps : List Pod)
    → let old = find (is_pod hb.pod_id) ps in
      ((touched hb now ps).draining ≡ carried (λ p. p.draining) false old)
      × ((touched hb now ps).jobs_completed ≡ carried (λ p. p.jobs_completed) 0 old)
      × ((touched hb now ps).jobs_failed ≡ carried (λ p. p.jobs_failed) 0 old)
      × ((touched hb now ps).first_seen_at ≡ carried (λ p. p.first_seen_at) now old)
unfolding touched find
touched-carried hb now [] = (refl, refl, refl, refl)
touched-carried hb now (p ∷ ps) = ground (arith, touched-carried hb now ps)

-- After a poll the pod that `touch` returns is the one that a look-up finds. It has the reported
-- readiness and model and the time of the poll; its drain flag, its two counters and the time it
-- was first seen are those of its row before the poll, or false, 0, 0 and now where it had none.
pub get-touch :
    (hb : PodHeartbeat) (now : ℕ) (db : Db)
    → let (db', pod) = touch hb now db in
      let old = get hb.pod_id db in
      (get hb.pod_id db' ≡ some pod)
      × (pod.last_seen_at ≡ now)
      × (pod.sglang_ready ≡ hb.sglang_ready)
      × (pod.model_path ≡ hb.model_path)
      × (pod.draining ≡ carried (λ p. p.draining) false old)
      × (pod.jobs_completed ≡ carried (λ p. p.jobs_completed) 0 old)
      × (pod.jobs_failed ≡ carried (λ p. p.jobs_failed) 0 old)
      × (pod.first_seen_at ≡ carried (λ p. p.first_seen_at) now old)
unfolding touch get
get-touch hb now db =
    let (a, b, c) = touched-seen hb now db.pods in
    let (d, e, f, g) = touched-carried hb now db.pods in
    (find-upsert hb now db.pods, a, b, c, d, e, f, g)
