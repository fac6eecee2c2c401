-- ===== src/Capital.antt =====
-- apps/capital-service/src/capital: the reservations of capital.
pub mod Reservations
pub mod Ceiling
pub mod Gate
pub mod Limits
pub mod Retry
pub mod Sweeper
pub mod Uniqueness
