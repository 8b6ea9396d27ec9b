-- ===== src/Charts/Shape.antt =====
-- frontend/src/charts/shape.ts: data shaping for charts.
pub mod Time
pub mod Aggregate
pub mod Hierarchy
pub mod Series
pub mod Headline
pub mod Matrix
pub mod Build
