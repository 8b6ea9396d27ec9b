-- ===== src/Dashboard.antt =====
-- The dashboard: frontend/src/lib/dashboardGrid.ts, dashboardTemplates.ts and dashboardWidgets.tsx,
-- and the state of frontend/src/pages/Dashboard.tsx.
pub mod Area
pub mod Grid
pub mod Templates
pub mod Widgets
pub mod Layout
pub mod Random
pub mod Saving
