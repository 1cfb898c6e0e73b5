-- ===== src/Score.antt =====
-- How a source wallet is scored: backend/app/services/wallet_score_service.py.
pub mod Rules
pub mod Wallet
