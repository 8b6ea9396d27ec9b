-- ===== src/Fleet.antt =====
-- The fleet of agents as the dashboard judges it.
pub mod Agent
pub mod Compliance
pub mod Denials
pub mod Attention
