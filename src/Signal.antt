-- ===== src/Signal.antt =====
-- How both copy engines read a source fill and price its copy:
-- backend/app/services/copy_signal_service.py.
pub mod Parts
pub mod Pricing
pub mod Coins
