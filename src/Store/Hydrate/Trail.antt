-- ===== src/Store/Hydrate/Trail.antt =====
-- gateway/src/db/jobs.ts, `addEvent` and `events`: the rows of the trail, by their names.
use nidora_ai_inference.Base.{ℕ, Option, some, [], ◌∷◌, Str, text}
use nidora_ai_inference.Domain.Types.{JobEventKind, JobEvent}
use nidora_ai_inference.Store.Schema.{Row, integer, characters, value_of}
use nidora_ai_inference.Store.Hydrate.{characters_of, integer_of, or_null, ◌>>=◌}

unfoldable pub kind_name : JobEventKind → Str
kind_name JobEventKind.created = text "created"
kind_name JobEventKind.assigned = text "assigned"
kind_name JobEventKind.progress = text "progress"
kind_name JobEventKind.uploaded = text "uploaded"
kind_name JobEventKind.completed = text "completed"
kind_name JobEventKind.failed = text "failed"
kind_name JobEventKind.requeued = text "requeued"
kind_name JobEventKind.lease_expired = text "lease_expired"
kind_name JobEventKind.deadline_exceeded = text "deadline_exceeded"
kind_name JobEventKind.cancel_requested = text "cancel_requested"
kind_name JobEventKind.cancelled = text "cancelled"
kind_name JobEventKind.recovered = text "recovered"

-- The values of the INSERT of `addEvent`.
unfoldable pub event_values : JobEvent → Row
event_values e =
    (text "job_id", characters e.job_id)
    ∷ (text "ts", integer e.ts)
    ∷ (text "kind", characters (kind_name e.kind))
    ∷ (text "pod_id", or_null e.pod_id)
    ∷ (text "detail", or_null e.detail)
    ∷ []

-- What a client is shown of an event.
pub record EventRow : Type 0 where
  pub ts : ℕ
  pub kind : Str
  pub pod_id : Option Str
  pub detail : Option Str

-- `SELECT ts, kind, pod_id, detail`
unfoldable pub event_row : Row → Option EventRow
event_row r = do
  ts ← integer_of (value_of (text "ts") r)
  kind ← characters_of (value_of (text "kind") r)
  some (record {
    ts = ts;
    kind = kind;
    pod_id = characters_of (value_of (text "pod_id") r);
    detail = characters_of (value_of (text "detail") r);
  })
