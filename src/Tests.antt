-- ===== src/Tests.antt =====
-- Runs of the models at concrete inputs, and the theorems at concrete data.
mod Data
mod Network
mod Helpers
mod Vms
mod Machines
mod Clients
mod Lifecycle
mod Lifetimes
mod Progress
mod Conflicts
mod Orphans
mod Ids
mod Startup
