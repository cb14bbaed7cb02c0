-- ===== src/ConfigFlow.antt =====
-- custom_components/centralite/config_flow.py: the steps that make a config entry, and its options.
pub mod Draft
pub mod Steps
pub mod Buttons
pub mod Disabled
pub mod Import
pub mod Typed
pub mod Selected
pub mod Limits
pub mod Checks
pub mod Scan
pub mod Names
pub mod Tests
