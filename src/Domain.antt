-- ===== src/Domain.antt =====
-- The domain layer, dms/domain: the models, the errors that the SDK raises, calls that may raise,
-- and the interfaces of the stores.
pub mod Value
pub mod Models
pub mod Errors
pub mod Exec
pub mod Interfaces
pub mod Laws
pub mod Order
pub mod OperationLaws
