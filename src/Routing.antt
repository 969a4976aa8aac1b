-- ===== src/Routing.antt =====
-- routing.go.
pub mod Policy
pub mod Engine
pub mod Find
mod Tests
