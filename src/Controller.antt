-- ===== src/Controller.antt =====
-- pkg/controller: the controllers that keep the status of a CRD.
pub mod Client
pub mod Naming
pub mod Establishing
pub mod Approval
pub mod Finalizing
pub mod Lasting
mod Tests
