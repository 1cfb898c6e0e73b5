-- ===== src/Paper.antt =====
-- The paper engine's market mechanics and accounts:
-- backend/app/services/paper_execution_simulator.py, backend/app/services/paper_risk_service.py and
-- backend/app/services/copy_risk_rules.py.
pub mod Book
pub mod Margin
pub mod Account
pub mod Loss
