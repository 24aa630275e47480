-- ===== src/Examples.antt =====
-- Concrete stores and the theorems at concrete inputs.
pub mod Memory
pub mod Client
mod Storage
pub mod Codec
pub mod Order
pub mod Database
pub mod Assembly
mod Documents
mod Contents
pub mod Streams
mod Copying
mod Recovery
pub mod Uploads
pub mod Rows
mod Keys
mod Listings
mod Batches
mod Access
