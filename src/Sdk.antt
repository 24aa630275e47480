-- ===== src/Sdk.antt =====
-- The SDK layer, dms/sdk: the requests and results, the contracts, and the services.
pub mod Types
pub mod Cursors
pub mod Contracts
pub mod World
pub mod Streams
pub mod Documents
pub mod Keeping
pub mod Upload
pub mod Reconciliation
pub mod Batches
pub mod Access
pub mod Reset
pub mod Facade
pub mod Copying
