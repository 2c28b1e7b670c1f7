-- ===== src/Tools.antt =====
-- The package tools: the allow-list of tools, what an agent may use of it, and the built-in tools.
pub mod Spec
pub mod Registry
pub mod Runtime
pub mod Arguments
pub mod Filesystem
pub mod Http
pub mod Code
pub mod Search
pub mod Git
pub mod Database
pub mod Docker
pub mod Standard
mod Tests
