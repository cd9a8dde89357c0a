-- ===== src/Audit/Handlers.antt =====
-- packages/audit-system/src/grpc/audit.impl.ts: the handlers over the service. What a caught exception
-- writes to the error output, and the fields that are only copied into a reply, are left out. An
-- unset number is zero and an unset text is empty, as gRPC has them.
use secure_claw.Base.{
  ℕ, zero, suc, String, Bool, false, Option, none, some, List, [], ◌∷◌, ◌==◌, if◌then◌else◌,
}
use secure_claw.Base.Json.{Json, JsonCodec, str, obj, end, field}
use secure_claw.Sanitizer.Service.{Outcome, returns, throws}
use secure_claw.Audit.{EventRow, Db, AuditEnv}
use secure_claw.Audit.Rules.{LoggedEvent}
use secure_claw.Audit.Events.{
  LogEventParams, LogEventResult, QueryParams, log_event, query_events, truthy,
}
use secure_claw.Audit.Costs.{CostSummaryResult, get_cost_summary}

pub record LogEventRequest : Type 0 where
  pub event_type : String
  pub session_id : String
  pub user_id : String
  pub payload_json : String
  pub severity : String

pub record LogEventReply : Type 0 where
  pub event_id : ℕ
  pub success : Bool

-- a payload that is no JSON is kept as a text
abbrev pub payload_of : String → Option Json → Json
payload_of text none = obj (field "raw" (str text) end)
payload_of text (some payload) = payload

unfoldable pub log_params : JsonCodec → LogEventRequest → LogEventParams
log_params codec req = record {
  event_type = req.event_type;
  session_id = truthy (some req.session_id);
  user_id = truthy (some req.user_id);
  payload = payload_of req.payload_json (codec.parse req.payload_json);
  severity = if req.severity == "" then "INFO" else req.severity;
}

abbrev pub reply_of : Outcome LogEventResult → LogEventReply
reply_of (throws message) = record { event_id = 0; success = false }
reply_of (returns result) = record { event_id = result.event_id; success = result.success }

unfoldable pub log_event_handler : AuditEnv → ℕ → ℕ → LogEventRequest → Db → Db × LogEventReply
unfolding log_event log_params
log_event_handler env now read_at req db =
    let (stored, outcome) = log_event env now read_at (log_params env.codec req) db in
    (stored, reply_of outcome)

pub record QueryEventsRequest : Type 0 where
  pub session_id : String
  pub from_unix_ms : ℕ
  pub to_unix_ms : ℕ
  pub event_types : List String
  pub limit : ℕ

abbrev or_default : ℕ → ℕ → ℕ
or_default zero d = d
or_default (suc n) d = suc n

abbrev set_number : ℕ → Option ℕ
set_number zero = none
set_number (suc n) = some (suc n)

abbrev set_list : List String → Option (List String)
set_list [] = none
set_list (t ∷ ts) = some (t ∷ ts)

unfoldable pub query_params : QueryEventsRequest → QueryParams
query_params req = record {
  session_id = truthy (some req.session_id);
  from_unix_ms = set_number req.from_unix_ms;
  to_unix_ms = set_number req.to_unix_ms;
  event_types = set_list req.event_types;
  limit = some (or_default req.limit 100);
}

-- the events that are written to the stream, or the error that ends it
unfoldable pub query_events_handler :
    AuditEnv
    → (List EventRow → List EventRow)
    → QueryEventsRequest
    → Db
    → Outcome (List LoggedEvent)
unfolding query_events query_params
query_events_handler env newest_first req db = query_events env newest_first (query_params req) db

-- A day that is not given is today.
unfoldable pub cost_summary_handler : AuditEnv → String → ℕ → ℕ → Db → CostSummaryResult
unfolding get_cost_summary
cost_summary_handler env user_id day_unix_ms now db =
    get_cost_summary env user_id (or_default day_unix_ms now) db
