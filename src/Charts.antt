-- ===== src/Charts.antt =====
-- frontend/src/charts: the chart system.
pub mod Number
pub mod Types
pub mod Datasets
pub mod History
pub mod Shape
pub mod Registry
