-- ===== src/Audit/Client/Log.antt =====
-- What reaches the audit service of an event that the agent reports.
use secure_claw.Base.{
  ℕ, suc, length, List, if_cases, String, ◌≡◌, refl, ap, ◌∙◌, true, false, not, ◌&&◌, Option, none,
  some, arith, ◌==◌, if◌then◌else◌, or_else,
}
use secure_claw.Base.Json.{Json, JsonCodec}
use secure_claw.Sanitizer.Service.{Outcome, returns, throws}
use secure_claw.Audit.{Db, AuditEnv, is_event_severity}
use secure_claw.Audit.Rules.{AlertFinding}
use secure_claw.Audit.Events.{LogEventParams, LogEventResult, truthy, build_alert_context, event_of}
use secure_claw.Audit.Events.Alerts.{refuses_alert, with_event, is_returned, log_event-Returns}
use secure_claw.Audit.Events.Finds.{ReturnsWith, log_event-ReturnsWith}
use secure_claw.Audit.Handlers.{
  LogEventRequest, LogEventReply, payload_of, log_params, log_event_handler, reply_of,
}
use secure_claw.Audit.Client.{log_request}

truthy-or_else : (o : Option String) → truthy (some (or_else o "")) ≡ truthy o
truthy-or_else none = refl
truthy-or_else (some s) = refl

-- the event that the service is asked to log
abbrev pub sent : LogEventParams → LogEventParams
sent params = record params {
  session_id = truthy params.session_id;
  user_id = truthy params.user_id;
}

abbrev rebuilt : LogEventParams → Option String → Option String → Json → String → LogEventParams
rebuilt params session_id user_id payload severity = record {
  event_type = params.event_type;
  session_id = session_id;
  user_id = user_id;
  payload = payload;
  severity = severity;
}

-- If `JSON.parse` reads back what `JSON.stringify` writes of the payload, and the severity is not
-- the empty text, then the event that the client sends is the one that the handler hands to the
-- service, but for a session id or a user id that is the empty text and is then missing.
pub log_params-log_request :
    (codec : JsonCodec) (params : LogEventParams)
    → codec.parse (codec.stringify params.payload) ≡ some params.payload
    → (params.severity == "") ≡ false
    → log_params codec (log_request codec params) ≡ sent params
unfolding log_params log_request
log_params-log_request codec params reads_back known =
    let text = codec.stringify params.payload in
    let kept : (if params.severity == "" then "INFO" else params.severity) ≡ params.severity =
      ground arith in
    ap
      (λ session_id.
        rebuilt params session_id (truthy (some (or_else params.user_id "")))
          (payload_of text (codec.parse text))
          (if params.severity == "" then "INFO" else params.severity))
      (truthy-or_else params.session_id)
    ∙ (ap
          (λ user_id.
            rebuilt params (truthy params.session_id) user_id (payload_of text (codec.parse text))
              (if params.severity == "" then "INFO" else params.severity))
          (truthy-or_else params.user_id)
        ∙ (ap
              (λ o.
                rebuilt params (truthy params.session_id) (truthy params.user_id)
                  (payload_of text o) (if params.severity == "" then "INFO" else params.severity))
              reads_back
            ∙ ap (rebuilt params (truthy params.session_id) (truthy params.user_id) params.payload)
                kept))

success-reply_of :
    (event_id : ℕ) (findings : List AlertFinding) (o : Outcome LogEventResult)
    → ReturnsWith event_id findings o
    → reply_of o ≡ record { event_id = event_id; success = true }
success-reply_of event_id findings o e = ap reply_of e

failure-reply_of :
    (o : Outcome LogEventResult)
    → is_returned o ≡ false
    → reply_of o ≡ record { event_id = 0; success = false }
failure-reply_of (throws message) h = refl
failure-reply_of (returns result) h = absurd (ground arith)

-- The agent is told the id of the row of its event if the severity is known and no rule with the
-- severity WARN or ERROR has a finding, and otherwise that the event was not logged, although with a
-- known severity its row is in the log.
pub log_event_handler-Reply :
    (env : AuditEnv) (now read_at : ℕ) (req : LogEventRequest) (db : Db)
    → let params = log_params env.codec req in
      (log_event_handler env now read_at req db).1 ≡ (
        if is_event_severity params.severity
          && not (
              refuses_alert
                (event_of params now db)
                (build_alert_context env read_at params.session_id (with_event env params now db)))
        then record { event_id = suc (length db.audit_events); success = true }
        else record { event_id = 0; success = false })
unfolding log_event_handler
log_event_handler-Reply env now read_at req db =
    let params = log_params env.codec req in
    if_cases {A = LogEventReply} (λ reply. (log_event_handler env now read_at req db).1 ≡ reply) _
      (λ good.
        success-reply_of (suc (length db.audit_events)) _ _
          (log_event-ReturnsWith env now read_at params db (ground arith) (ground arith)))
      (λ bad. failure-reply_of _ (log_event-Returns env now read_at params db ∙ bad))
