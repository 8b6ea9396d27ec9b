-- ===== src/Tests.antt =====
-- Runs of the modelled functions on concrete inputs, and the theorems at such inputs.
mod Charts
mod Matrix
mod Identifiers
mod Denials
mod Build
mod Random
mod History
mod Texts
mod Dashboard
mod Fleet
mod Editing
mod Saving
mod Navigation
