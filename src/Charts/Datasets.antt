-- ===== src/Charts/Datasets.antt =====
-- frontend/src/charts/datasets.ts: the recorded histories and the choice of what a chart shows.
pub mod Catalog
pub mod Resolve
pub mod Keeping
