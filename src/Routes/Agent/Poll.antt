-- ===== src/Routes/Agent/Poll.antt =====
-- gateway/src/routes/agent.ts, POST /v1/agent/poll: register, heartbeat, renew and claim. The handler
-- has two parts, before and after its one await. Shutdown is left out.
pub mod Kept
pub mod Renewal
use nidora_ai_inference.Base.{
  ℕ, ◌+◌, ◌/◌, ◌^◌, max, Bool, true, false, not, ◌&&◌, Option, none, some, List, [], ◌∷◌, ◌++◌, ltb,
  if◌then◌else◌, length, any, Str, text, str_eq,
}
use nidora_ai_inference.Domain.Types.{in_progress, Number, in_unit_range, Job, Pod}
use nidora_ai_inference.Store.Db.{Db, get}
use nidora_ai_inference.Store.Jobs.{in_flight, renew_lease}
use nidora_ai_inference.Store.Queries.{list_by_pod}
use nidora_ai_inference.Routes.State.{Parked, Gateway, wait, Reply, sent, rejected, raised}
use nidora_ai_inference.Domain.Errors.{missing_parameter, api_error}
use nidora_ai_inference.Store.Pods.{PodHeartbeat, touch}
use nidora_ai_inference.Scheduler.Config.{Config}
use nidora_ai_inference.Ids.{new_session_id}
use nidora_ai_inference.Scheduler.Claim.{Assignment, Claiming, free_slots, claim_for_pod}

-- An entry of `in_flight`. A value of another type than the expected one is `none`. An entry that is
-- null, on which the handler throws, is left out.
pub record InFlightReport : Type 0 where
  pub job_id : Option Str
  pub lease_id : Option Str
  pub progress : Option Number
  pub upstream_id : Option Str

pub record PollBody : Type 0 where
  pub pod_id : Option Str
  pub agent_version : Option Str
  pub max_in_flight : Option Number
  pub model_path : Option Str
  pub lora_path : Option Str
  pub gpu : Option Str
  pub sglang_ready : Bool
  pub in_flight : List InFlightReport
  pub wait_s : Option Number

pub record PollResponse : Type 0 where
  pub session_id : Str
  pub lease_ttl_s : ℕ
  pub poll_wait_s : ℕ
  pub assign : List Assignment
  pub cancel : List Str
  pub orphan : List Str
  pub drain : Bool

-- `str(value)`.
abbrev pub str : Option Str → Option Str
str none = none
str (some []) = none
str (some (c ∷ cs)) = some (c ∷ cs)

-- `Math.max(1, Math.floor(n))`, 1 for what is no number.
unfoldable pub slots_offered : Option Number → ℕ
slots_offered none = 1
slots_offered (some n) = if n.negative then 1 else max 1 (n.num / 2 ^ n.scale)

abbrev valid_progress : Option Number → Option Number
valid_progress none = none
valid_progress (some p) = if in_unit_range p then some p else none

abbrev pub member : Str → List Str → Bool
member s = any (λ t. str_eq t s)

-- `[...new Set(xs)]`: each value once, where it came first.
unfoldable pub add_once : List Str → Str → List Str
add_once seen s = if member s seen then seen else seen ++ s ∷ []

unfoldable pub dedup_onto : List Str → List Str → List Str
unfolding add_once
dedup_onto seen [] = seen
dedup_onto seen (x ∷ xs) = dedup_onto (add_once seen x) xs

-- The variables of the renewal loop.
pub record Renewing : Type 0 where
  pub db : Db
  pub orphan : List Str
  pub cancel : List Str
  pub still_owned : List Str

abbrev wants_cancel : Option Job → Bool
wants_cancel none = false
wants_cancel (some j) = j.cancel_requested

-- The body of the loop for a job and a lease that are both given.
renew_one : ℕ → Str → Str → Option Number → Option Str → Renewing → Renewing
unfolding add_once
renew_one expires job_id lease progress upstream r =
    let (db', renewed) =
      renew_lease job_id lease expires (valid_progress progress) (str upstream) r.db in
    if renewed
    then record r {
      db = db';
      still_owned = add_once r.still_owned job_id;
      cancel = if wants_cancel (get job_id db') then r.cancel ++ job_id ∷ [] else r.cancel;
    }
    else record r { db = db'; orphan = r.orphan ++ job_id ∷ [] }

renew_given : ℕ → InFlightReport → Option Str → Option Str → Renewing → Renewing
unfolding renew_one
renew_given expires item none lease r = r
renew_given expires item (some job_id) none r = r
renew_given expires item (some job_id) (some lease) r =
    renew_one expires job_id lease item.progress item.upstream_id r

unfoldable pub renew_all : ℕ → List InFlightReport → Renewing → Renewing
unfolding renew_given
renew_all expires [] r = r
renew_all expires (item ∷ items) r =
    renew_all expires items (renew_given expires item (str item.job_id) (str item.lease_id) r)

-- The pod's other jobs that a client has cancelled.
unfoldable pub lost_cancels : List Str → List Job → List Str
lost_cancels owned [] = []
lost_cancels owned (j ∷ js) =
    let rest = lost_cancels owned js in
    if not (member j.id owned) && j.cancel_requested then j.id ∷ rest else rest

abbrev heartbeat : Str → Str → PollBody → PodHeartbeat
heartbeat pod_id session body = record {
  pod_id = pod_id;
  session_id = session;
  agent_version = str body.agent_version;
  model_path = str body.model_path;
  lora_path = str body.lora_path;
  gpu = str body.gpu;
  max_in_flight = slots_offered body.max_in_flight;
  sglang_ready = body.sglang_ready;
}

-- Is `waitMs`, the requested wait clamped to the configured one, above 0?
abbrev waits : Config → Option Number → Bool
waits config none = ltb 0 config.max_poll_wait_ms
waits config (some s) = not s.negative && (ltb 0 s.num && ltb 0 config.max_poll_wait_ms)

abbrev pub round_s : ℕ → ℕ
round_s ms = (ms + 500) / 1000

unfoldable pub respond : Config → Parked → List Assignment → PollResponse
unfolding dedup_onto
respond config p assign = record {
  session_id = p.pod.session_id;
  lease_ttl_s = round_s config.lease_ttl_ms;
  poll_wait_s = round_s config.max_poll_wait_ms;
  assign = assign;
  cancel = dedup_onto [] p.cancel;
  orphan = p.orphan;
  drain = p.pod.draining;
}

abbrev is_nil {ℓ} : {A : Type ℓ} → List A → Bool
is_nil [] = true
is_nil (x ∷ xs) = false

-- What a poll comes to before its await: a reply, or a place in the parking lot.
pub data Polled : Type 0 where
  replied : Reply PollResponse → Polled
  parked : Polled

abbrev answer : Config → Parked → Claiming → Reply PollResponse
answer config p c = if c.thrown then raised else sent 200 (respond config p c.assigned)

module _ (uuid : ℕ → Str) (config : Config) where
  -- Behind the first claim.
  settle : PollBody → Gateway → Parked → Claiming → Gateway × Polled
  unfolding wait
  settle body g p c =
      let g' = record g { db = c.db } in
      if not c.thrown
        && (is_nil c.assigned
            && (ltb 0 p.slots && (not p.pod.draining && waits config body.wait_s)))
      then (wait p g', parked)
      else (g', replied (answer config p c))

  -- Registration, behind which the renewals run.
  register : Str → PollBody → Gateway → Db × Pod
  register pod_id body g =
      touch (heartbeat pod_id (new_session_id uuid g.db.drawn) body) g.db.clock
        (record g.db { drawn = g.db.drawn + 1 })

  renewals : PollBody → ℕ → Db → Renewing
  unfolding renew_all
  renewals body now db =
      renew_all (now + config.lease_ttl_ms) body.in_flight
        (record { db = db; orphan = []; cancel = []; still_owned = [] })

  -- The variables of the handler before its first claim.
  prepare : Str → Pod → Renewing → Parked
  unfolding lost_cancels
  prepare pod_id pod r = record {
    pod = pod;
    slots = free_slots pod (length r.still_owned);
    cancel = r.cancel ++ lost_cancels r.still_owned (list_by_pod pod_id in_progress r.db);
    orphan = r.orphan;
  }

  poll_as : Str → PollBody → Gateway → Gateway × Polled
  unfolding settle register renewals prepare
  poll_as pod_id body g =
      let now : ℕ = g.db.clock in
      let (db, pod) = register pod_id body g in
      let r = renewals body now db in
      let p = prepare pod_id pod r in
      settle body g p (claim_for_pod uuid pod p.slots config.lease_ttl_ms now r.db)

  unfoldable pub poll : PollBody → Gateway → Gateway × Polled
  unfolding poll_as
  poll body g = elim (str body.pod_id) [
    | none ↦
        (g, replied (rejected 400 (api_error 400 (some missing_parameter) (some (text "pod_id")))))
    | some pod_id ↦ poll_as pod_id body g
  ]

  -- A parked poll that a kick woke: it claims once more, with the pod and the slots that it read
  -- before it parked.
  unfoldable pub poll_woken : Parked → Gateway → Gateway × Reply PollResponse
  poll_woken p g =
      let c = claim_for_pod uuid p.pod p.slots config.lease_ttl_ms g.db.clock g.db in
      (record g { db = c.db }, answer config p c)

  -- A parked poll whose time ran out.
  unfoldable pub poll_timed_out : Parked → Gateway → Gateway × Reply PollResponse
  poll_timed_out p g = (g, sent 200 (respond config p []))
