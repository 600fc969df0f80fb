-- ===== src/Scheduler/Claim.antt =====
-- gateway/src/scheduler/claim.ts: what a pod may take, and the claim loop of its poll.
pub mod Laws
pub mod Kept
use mathlib.Core.Option
use nidora_ai_inference.Base.{
  ℕ, ◌+◌, ◌-◌, ◌/◌, Bool, true, false, not, ◌||◌, Option, none, some, List, [], ◌∷◌, ◌++◌, map, leb,
  if◌then◌else◌, is_some, length, Str, text, column_is,
}
use nidora_ai_inference.Domain.Types.{Number, Job, Pod}
use nidora_ai_inference.Store.Db.{Db}
use nidora_ai_inference.Store.Jobs.{in_flight, claim}
use nidora_ai_inference.Store.Queries.{list_queued}
use nidora_ai_inference.Domain.Models.{ModelSpec, get_model}
use nidora_ai_inference.Store.Pods.{pod_model}
use nidora_ai_inference.Ids.{new_lease_id}

-- The form fields of the SGLang request; `seed` is left out of the form when it is null.
pub record SglangFields : Type 0 where
  pub prompt : Str
  pub negative_prompt : Str
  pub size : Str
  pub seconds : Number
  pub num_inference_steps : ℕ
  pub guidance_scale : Number
  pub seed : Option Number

pub record Assignment : Type 0 where
  pub job_id : Str
  pub lease_id : Str
  pub model : Str
  pub deadline_at : ℕ
  pub input_url : Str
  pub input_sha256 : Option Str
  pub input_bytes : Option ℕ
  pub endpoint : Str
  pub fields : SglangFields

unfoldable pub free_slots : Pod → ℕ → ℕ
free_slots pod in_flight =
    if pod.draining || not pod.sglang_ready then 0 else pod.max_in_flight - in_flight

assignment_of : Job → Str → ModelSpec → Assignment
assignment_of job lease spec = record {
  job_id = job.id;
  lease_id = lease;
  model = job.model;
  deadline_at = job.deadline_at;
  input_url = text "/v1/agent/jobs/" ++ (job.id ++ text "/input");
  input_sha256 = job.input_sha256;
  input_bytes = job.input_bytes;
  endpoint = spec.endpoint;
  fields = record {
    prompt = job.params.prompt;
    negative_prompt = job.params.negative_prompt;
    size = job.params.size;
    seconds = job.params.seconds;
    num_inference_steps = job.params.num_inference_steps;
    guidance_scale = job.params.guidance_scale;
    seed = job.params.seed;
  };
}

-- `none` is the exception for a model that the registry does not know.
unfoldable pub assignment_for : Job → Str → Option Assignment
unfolding assignment_of
assignment_for job lease = Option.map (assignment_of job lease) (get_model (some job.model))

-- The variables of the claim loop; `thrown` is set when an exception has left it.
pub record Claiming : Type 0 where
  pub db : Db
  pub assigned : List Assignment
  pub thrown : Bool

abbrev start_claiming : Db → Claiming
start_claiming db = record { db = db; assigned = []; thrown = false }

-- `job.model !== pod.model`, negated.
abbrev pub serves : Pod → Job → Bool
serves pod job = column_is (pod_model pod) job.model

-- `assignments.push(assignmentFor(job, leaseId))`
push_assignment : Db → List Assignment → Option Assignment → Claiming
push_assignment db assigned none = record { db = db; assigned = assigned; thrown = true }
push_assignment db assigned (some a) = record {
  db = db;
  assigned = assigned ++ a ∷ [];
  thrown = false;
}

-- The section's parameter is the n-th id that `randomUUID()` returns.
module _ (uuid : ℕ → Str) where
  -- The part of the loop's body behind its guards: draw a lease, claim, build the assignment.
  take_job : Pod → ℕ → ℕ → Job → Claiming → Claiming
  unfolding push_assignment
  take_job pod lease_ttl now job c =
      let lease = new_lease_id uuid c.db.drawn in
      let (db', won) =
        claim job.id pod.pod_id lease (now + lease_ttl) now
          (record c.db { drawn = c.db.drawn + 1 }) in
      if won
      then push_assignment db' c.assigned (assignment_for job lease)
      else record c { db = db' }

  -- One round of the loop. After `break` or an exception the remaining rounds do nothing.
  claim_round : Pod → ℕ → ℕ → ℕ → Job → Claiming → Claiming
  unfolding take_job
  claim_round pod slots lease_ttl now job c =
      if c.thrown || leb slots (length c.assigned)
      then c
      else if not (serves pod job)
      then c
      else if not (is_some (get_model (some job.model)))
      then c
      else take_job pod lease_ttl now job c

  claim_loop : Pod → ℕ → ℕ → ℕ → List Job → Claiming → Claiming
  claim_loop pod slots lease_ttl now [] c = c
  claim_loop pod slots lease_ttl now (job ∷ jobs) c =
      claim_loop pod slots lease_ttl now jobs (claim_round pod slots lease_ttl now job c)

  unfoldable pub claim_for_pod : Pod → ℕ → ℕ → ℕ → Db → Claiming
  unfolding claim_loop claim_round
  claim_for_pod pod slots lease_ttl now db =
      if leb slots 0
      then start_claiming db
      else claim_loop pod slots lease_ttl now (list_queued 100 db) (start_claiming db)
