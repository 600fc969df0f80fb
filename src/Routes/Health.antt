-- ===== src/Routes/Health.antt =====
-- gateway/src/routes/health.ts: the load of the queue and of the fleet. The clock does not go back, so
-- that no age is negative.
pub mod Load
use nidora_ai_inference.Base.{
  ℕ, zero, suc, ◌+◌, ◌-◌, ◌/◌, Bool, not, ◌&&◌, if◌then◌else◌, Option, none, some, length, Str,
}
use nidora_ai_inference.Domain.Types.{in_progress, Pod}
use nidora_ai_inference.Store.Db.{Db}
use nidora_ai_inference.Store.Queries.{counts, list_by_pod}
use nidora_ai_inference.Store.Pods.{list_connected}
use nidora_ai_inference.Scheduler.Config.{Config}
use nidora_ai_inference.Scheduler.Claim.{free_slots}
use nidora_ai_inference.Scheduler.Reaper.{for_each}

pub record FleetSnapshot : Type 0 where
  pub connected : ℕ
  pub ready : ℕ
  pub draining : ℕ
  pub slots_total : ℕ
  pub slots_busy : ℕ

abbrev pub one_if_true : Bool → ℕ
one_if_true b = if b then 1 else 0

-- The jobs in flight on a pod.
unfoldable pub in_flight_on : Db → Pod → ℕ
in_flight_on db pod = length (list_by_pod pod.pod_id in_progress db)

-- The body of the loop over the connected pods.
unfoldable pub count_pod : Db → Pod → FleetSnapshot → FleetSnapshot
unfolding in_flight_on
count_pod db pod s =
    let in_flight = in_flight_on db pod in
    record s {
      draining = s.draining + one_if_true pod.draining;
      ready = s.ready + one_if_true (pod.sglang_ready && not pod.draining);
      slots_busy = s.slots_busy + in_flight;
      slots_total = s.slots_total + (free_slots pod in_flight + in_flight);
    }

unfoldable pub fleet : Config → ℕ → Db → FleetSnapshot
unfolding count_pod for_each
fleet config now db =
    let connected = list_connected (now - config.pod_stale_ms) db in
    for_each (count_pod db) connected (record {
      connected = length connected;
      ready = 0;
      draining = 0;
      slots_total = 0;
      slots_busy = 0;
    })

pub record Health : Type 0 where
  pub version : Str
  pub time : ℕ
  pub queue_depth : ℕ
  pub queued : ℕ
  pub running : ℕ
  pub oldest_queued_age_s : ℕ
  pub pods : FleetSnapshot

-- `counts.oldest_queued_at ? Math.round((now - counts.oldest_queued_at) / 1000) : 0`
oldest_age : Option ℕ → ℕ → ℕ
oldest_age none now = 0
oldest_age (some zero) now = 0
oldest_age (some (suc t)) now = (now - suc t + 500) / 1000

-- GET /health
unfoldable pub health : Str → Config → Db → Health
unfolding fleet oldest_age
health version config db =
    let c = counts db in
    record {
      version = version;
      time = db.clock / 1000;
      queue_depth = c.queued + c.running;
      queued = c.queued;
      running = c.running;
      oldest_queued_age_s = oldest_age c.oldest_queued_at db.clock;
      pods = fleet config db.clock db;
    }
