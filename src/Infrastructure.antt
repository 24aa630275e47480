-- ===== src/Infrastructure.antt =====
-- The adapters, dms/infrastructure, over the libraries that they call.
pub mod Operations
pub mod Storage
pub mod Metadata
