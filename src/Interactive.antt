-- ===== src/Interactive.antt =====
-- The interactive graphs (scripts/generate_interactive_graphs.py): what is drawn, before it becomes HTML.
pub mod Numbers
mod Critical
mod Outliers
mod Keyed
mod Records
mod Points
mod Layouts
mod Loaders
mod Colors
mod Variants
mod Assign
mod Traces
mod Versions
mod Main
mod Tests
