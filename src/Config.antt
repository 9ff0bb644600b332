-- ===== src/Config.antt =====
-- pkg/config/config.go: the configuration, its text form, the overrides and the checks.
pub mod Numbers
pub mod Settings
pub mod Parser
pub mod Loading
pub mod Trimming
pub mod RoundTrip
pub mod Checked
pub mod Layers
pub mod Bounds
pub mod Numerals
