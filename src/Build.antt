-- ===== src/Build.antt =====
-- magefile.go: the targets of the build.
pub mod Hooks
pub mod Directories
pub mod Start
pub mod Suite
pub mod Sorted
pub mod Queue
pub mod Settings
pub mod Platforms
pub mod Targets
pub mod Linters
pub mod Sources
pub mod Checks
