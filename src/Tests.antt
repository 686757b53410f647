-- ===== src/Tests.antt =====
-- The tests: each theorem of the development applied to concrete data.
mod Audits
mod Demo
mod EndToEnd
mod Releases
mod Forge
mod Dispatcher
mod Ledgers
mod Policies
mod Queues
