-- ===== src/Routes/Agent/Fence.antt =====
-- gateway/src/routes/agent.ts: the lease fence of the three handlers that serve one job.
use nidora_ai_inference.Base.{
  ℕ, ◌≡◌, ◌≢◌, true, false, Option, some, arith, Str, column_is, column_is_sound,
}
use nidora_ai_inference.Domain.Types.{Job}
use nidora_ai_inference.Store.Db.{get}
use nidora_ai_inference.Routes.State.{Gateway}
use nidora_ai_inference.Scheduler.Config.{Config}
use nidora_ai_inference.Routes.Agent.Files.{current_lease, lease_is_stale}
use nidora_ai_inference.Routes.Agent.Files.{input, artifact}
use nidora_ai_inference.Routes.Agent.Result.{ResultBody, result}

current_lease-other :
    (lease : Str) (job : Job) → job.lease_id ≢ some lease → current_lease lease job ≡ false
unfolding current_lease
current_lease-other lease job n =
    ground
      (arith, λ (e : column_is job.lease_id lease ≡ true). n (column_is_sound job.lease_id lease e))

-- For a job that is there: whoever names a lease that is not the one in its row gets 409 from the input, the artifact
-- and the result handler, whatever else he sends, and the gateway stays as it was.
pub handlers-stale :
    (config : Config) (id lease : Str) (filename : Option Str) (declared : Option ℕ)
    (body : ResultBody) (g : Gateway) (job : Job)
    → get id g.db ≡ some job
    → job.lease_id ≢ some lease
    → (input id lease g ≡ lease_is_stale)
      × (artifact config id lease filename declared g ≡ (g, some lease_is_stale))
      × (result config id lease body g ≡ (g, lease_is_stale))
unfolding input artifact result
handlers-stale config id lease filename declared body g job p n =
    let other = current_lease-other lease job n in
    (ground (arith, p, other), ground (arith, p, other), ground (arith, p, other))
