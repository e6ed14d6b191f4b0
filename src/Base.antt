-- ===== src/Base.antt =====
-- The names that the other modules share.
pub mod Core
pub mod Text
pub mod Outcome
