-- ===== src/Source.antt =====
-- How a wallet's fills are joined to the trades that its score is computed from:
-- backend/app/services/source_trade_reconstruction_service.py.
pub mod Order
pub mod Trade
pub mod Wallet
pub mod Rebuild
