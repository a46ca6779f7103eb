-- ===== src/E2e.antt =====
-- The end-to-end scripts: programs that drive a live stack over HTTP and assert on its answers.
pub mod Contained
pub mod EconomicExchange
pub mod Marketplace
pub mod References
pub mod Authority
pub mod OrdinaryGovernance
pub mod ConsentRetention
pub mod MultiSource
pub mod Uuid7
pub mod Independence
pub mod Login
pub mod ValueGovernance
pub mod Audit
pub mod Ledger
pub mod Isolation
pub mod Listing
pub mod SevenKeys
pub mod Boundary
pub mod Safety
mod Tests
