-- ===== src/Client/Json.antt =====
-- crates/client/src/json_config.rs: configs as JSON, an alternative to the config language.
pub mod Config
pub mod Values
pub mod Sections
pub mod State
pub mod Resolver
pub mod Patterns
pub mod Imports
