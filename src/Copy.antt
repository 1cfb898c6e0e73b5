-- ===== src/Copy.antt =====
-- The rules of copying that paper and live share: backend/app/services/copy_decision.py.
pub mod Entry
pub mod Close
