-- ===== src/Routes/Agent/Poll/Kept.antt =====
-- gateway/src/routes/agent.ts, POST /v1/agent/poll, keeps what the statements of the store keep.
use nidora_ai_inference.Base.{
  ℕ, ◌+◌, ◌≡◌, inl, inr, true, Option, none, some, List, [], ◌∷◌, arith, Option-cases, Str, truthy,
}
use nidora_ai_inference.Domain.Types.{Number}
use nidora_ai_inference.Store.Db.{Db}
use nidora_ai_inference.Routes.State.{Parked, Gateway}
use nidora_ai_inference.Store.Pods.{touch}
use nidora_ai_inference.Store.Kept.{Kept, renew_lease-kept}
use nidora_ai_inference.Scheduler.Config.{Config}
use nidora_ai_inference.Scheduler.Claim.{Claiming, claim_for_pod}
use nidora_ai_inference.Scheduler.Claim.Kept.{claim_for_pod-kept}
use nidora_ai_inference.Routes.Agent.Poll.{
  InFlightReport, PollBody, Renewing, str, valid_progress, renew_one, renew_given, renew_all,
  settle, register, renewals, prepare, poll_as, poll, poll_woken,
}

module _ {m : ℕ} (I : Kept m) (expires : ℕ) where
  renew_one-kept :
      (id lease : Str) (progress : Option Number) (upstream : Option Str) (r : Renewing)
      → I.On r.db.jobs
      → I.On (renew_one expires id lease progress upstream r).db.jobs
  unfolding renew_one
  renew_one-kept id lease progress upstream r s =
      ground
        (arith, renew_lease-kept I r.db s id lease expires (valid_progress progress) (str upstream))

  renew_given-kept :
      (item : InFlightReport) (id lease : Option Str) (r : Renewing)
      → I.On r.db.jobs
      → I.On (renew_given expires item id lease r).db.jobs
  unfolding renew_given
  renew_given-kept item none lease r s = s
  renew_given-kept item (some id) none r s = s
  renew_given-kept item (some id) (some lease) r s =
      renew_one-kept id lease item.progress item.upstream_id r s

  renew_all-kept :
      (items : List InFlightReport) (r : Renewing)
      → I.On r.db.jobs
      → I.On (renew_all expires items r).db.jobs
  unfolding renew_all
  renew_all-kept [] r s = s
  renew_all-kept (item ∷ items) r s =
      renew_all-kept items (renew_given expires item (str item.job_id) (str item.lease_id) r)
        (renew_given-kept item (str item.job_id) (str item.lease_id) r s)

module _ (uuid : ℕ → Str) (config : Config) {m : ℕ} (I : Kept m)
    (named : (n : ℕ) → truthy (uuid n) ≡ true) where
  settle-kept :
      (body : PollBody) (g : Gateway) (p : Parked) (c : Claiming)
      → I.On c.db.jobs
      → I.On (settle uuid config body g p c).0.db.jobs
  unfolding settle
  settle-kept body g p c s = ground arith

  register-kept :
      (pod_id : Str) (body : PollBody) (g : Gateway)
      → I.On g.db.jobs
      → I.On (register uuid config pod_id body g).0.jobs
  unfolding register touch
  register-kept pod_id body g s = s

  renewals-kept :
      (body : PollBody) (now : ℕ) (db : Db)
      → I.On db.jobs
      → I.On (renewals uuid config body now db).db.jobs
  unfolding renewals
  renewals-kept body now db s =
      renew_all-kept I (now + config.lease_ttl_ms) body.in_flight
        (record { db = db; orphan = []; cancel = []; still_owned = [] }) s

  poll_as-kept :
      (pod_id : Str) (body : PollBody) (g : Gateway)
      → I.On g.db.jobs
      → I.On (poll_as uuid config pod_id body g).0.db.jobs
  unfolding poll_as
  poll_as-kept pod_id body g s =
      let (db, pod) = register uuid config pod_id body g in
      let r = renewals uuid config body g.db.clock db in
      let p = prepare uuid config pod_id pod r in
      settle-kept body g p (claim_for_pod uuid pod p.slots config.lease_ttl_ms g.db.clock r.db) (
        claim_for_pod-kept uuid I named pod p.slots config.lease_ttl_ms g.db.clock r.db
          (renewals-kept body g.db.clock db (register-kept pod_id body g s)))

  pub poll-kept :
      (body : PollBody) (g : Gateway) → I.On g.db.jobs → I.On (poll uuid config body g).0.db.jobs
  unfolding poll
  poll-kept body g s = elim (Option-cases (str body.pod_id)) [
    | inl e ↦ rw (e, poll) s
    | inr (pod_id, e) ↦ rw (e, poll) (poll_as-kept pod_id body g s)
  ]

  pub poll_woken-kept :
      (p : Parked) (g : Gateway) → I.On g.db.jobs → I.On (poll_woken uuid config p g).0.db.jobs
  unfolding poll_woken
  poll_woken-kept p g s =
      claim_for_pod-kept uuid I named p.pod p.slots config.lease_ttl_ms g.db.clock g.db s
