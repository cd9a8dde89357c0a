-- ===== src/Tests.antt =====
-- Each property at a concrete input, and runs of the definitions.
mod Fixtures
mod Agents
mod Tools
mod Sanitizing
mod Vaults
mod Sorting
mod Audits
mod Urls
mod Evolving
mod Memories
