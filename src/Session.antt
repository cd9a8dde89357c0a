-- ===== src/Session.antt =====
-- packages/agent-runtime/src/session: the context of a session, and the session manager.
pub mod Context
pub mod Manager
