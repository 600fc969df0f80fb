-- ===== src/Routes/Pods/Listing.antt =====
-- gateway/src/routes/pods.ts, GET /v1/pods: the pods that it shows as connected.
use nidora_ai_inference.Base.{
  ℕ, ◌-◌, ◌≡◌, refl, ◌∙◌, List, [], ◌∷◌, map, leb, arith, select_where, select_where-order_by_desc,
}
use nidora_ai_inference.Domain.Types.{Pod}
use nidora_ai_inference.Store.Db.{Db}
use nidora_ai_inference.Store.Pods.{list, list_connected}
use nidora_ai_inference.Scheduler.Config.{Config}
use nidora_ai_inference.Routes.Pods.{pod_entry, list_pods}

-- An age within the limit is a time behind the cut-off, also where the clock is below the limit.
age-cut_off : (now seen stale : ℕ) → leb (now - seen) stale ≡ leb (now - stale) seen
age-cut_off now seen stale = ground arith

entries-connected :
    (config : Config) (db : Db) (ps : List Pod)
    → map (λ e. e.pod) (select_where (λ e. e.connected) (map (pod_entry config db) ps))
      ≡ select_where (λ p. leb (db.clock - config.pod_stale_ms) p.last_seen_at) ps
unfolding select_where pod_entry
entries-connected config db [] = refl
entries-connected config db (p ∷ ps) =
    rw (age-cut_off db.clock p.last_seen_at config.pod_stale_ms)
      (ground (arith, entries-connected config db ps))

-- The pods that the operator's listing shows as connected are the ones that the health check, the
-- model listing and the admission of a video count, in the same order.
pub list_pods-connected :
    (config : Config) (db : Db)
    → map (λ e. e.pod) (select_where (λ e. e.connected) (list_pods config db))
      ≡ list_connected (db.clock - config.pod_stale_ms) db
unfolding list_pods list list_connected
list_pods-connected config db =
    entries-connected config db (list db)
    ∙ select_where-order_by_desc (λ p. p.last_seen_at) (db.clock - config.pod_stale_ms) db.pods
