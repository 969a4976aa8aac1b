-- ===== src/Config.antt =====
-- config.go.
pub mod Fields
pub mod Validate
pub mod Parse
pub mod Cli
pub mod Valid
pub mod Sample
mod Tests
