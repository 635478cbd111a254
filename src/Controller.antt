-- ===== src/Controller.antt =====
-- internal/controller/v1alpha1: the reconciler of Machine resources.
pub mod Status
pub mod Create
pub mod Progress
pub mod Terminate
pub mod Run
pub mod Reconcile
pub mod Setup
pub mod VmCalls
pub mod Reads
pub mod Footprint
pub mod Silent
pub mod Lifecycle
pub mod History
pub mod Calls
