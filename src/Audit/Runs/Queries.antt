-- ===== src/Audit/Runs/Queries.antt =====
-- Queries of a database that calls of the service lead to.
use secure_claw.Base.{◌≡◌, List, All, or_else}
use secure_claw.Sanitizer.Service.{returns}
use secure_claw.Audit.{EventRow, Db, AuditEnv, empty_db}
use secure_claw.Audit.Rules.{LoggedEvent}
use secure_claw.Audit.Events.{QueryParams, matches, select_events, query_events}
use secure_claw.Audit.Events.Query.{
  SortsByTime, Selects, HasJson, ReadsBack, Parses, parse_rows-Parses, select_events-Selects,
  select-All,
}
use secure_claw.Audit.Runs.{After, After-IsValid}

-- A query of a reachable database never throws, if `JSON.parse` reads back what `JSON.stringify`
-- wrote into the log's rows and the sort is one by time: it returns the events of the rows that it selects, which
-- match its parameters, are the newest ones that do and at most as many as its limit.
pub query_events-Selects :
    (env : AuditEnv) (newest_first : List EventRow → List EventRow) (params : QueryParams) (db : Db)
    → All (ReadsBack env.codec) db.audit_events
    → SortsByTime newest_first
    → After env empty_db db
    → (events : List LoggedEvent) × (selected omitted : List EventRow) × (query_events env
          newest_first params db
        ≡ returns events)
      × Parses env.codec selected events
      × Selects (or_else params.limit 100) (matches params) db.audit_events selected omitted
unfolding query_events
query_events-Selects env newest_first params db reads_back sorts reached =
    let (ids, severities, payloads, critical, costs) = After-IsValid env reached in
    let (events, returned, parsed) =
      parse_rows-Parses env.codec (select_events newest_first params db.audit_events)
        (select-All (ReadsBack env.codec) newest_first params db.audit_events sorts reads_back)
        (select-All (HasJson env.codec) newest_first params db.audit_events sorts payloads) in
    let (omitted, selects) = select_events-Selects newest_first params db.audit_events sorts in
    (events, select_events newest_first params db.audit_events, omitted, returned, parsed, selects)
