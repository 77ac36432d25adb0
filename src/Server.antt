-- ===== src/Server.antt =====
-- crates/server: the helper binary that runs beside the source database.
pub mod Error
pub mod Keys
pub mod Tsv
pub mod Walk
pub mod DryRun
