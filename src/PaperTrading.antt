-- ===== src/PaperTrading.antt =====
-- apps/paper-trading-service/src/paper: paper trades and their reservations of virtual capital.
pub mod Reserving
pub mod Trades
pub mod Trading
pub mod AutoDrive
pub mod Weights
pub mod Changes
pub mod Booked
pub mod Bookings
pub mod Histories
pub mod Settled
