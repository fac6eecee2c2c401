-- ===== src/Portfolio.antt =====
-- The parts of portfolio-service.
pub mod Decimal
pub mod Positions
