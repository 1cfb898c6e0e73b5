-- ===== src/Live.antt =====
-- Live trading: what an order is, how its attempts are kept, and how an account stops its entries.
pub mod Fill
pub mod Intent
pub mod Order
pub mod Reject
pub mod Safety
pub mod Work
