-- ===== src/Provider.antt =====
-- internal/providercontract: the provider-neutral generation boundary.
pub mod Budget
pub mod Errors
pub mod Contract
pub mod Dispatch
pub mod Manifest
pub mod FakeState
pub mod Fake
mod Examples
