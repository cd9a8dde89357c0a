-- ===== src/Tools.antt =====
-- packages/agent-runtime/src/tools: the tool policy and the approval gate.
pub mod Policy
pub mod Approval
