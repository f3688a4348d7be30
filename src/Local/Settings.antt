-- ===== src/Local/Settings.antt =====
-- The settings of the local camera client: names, handlers, set_setting and reset_settings of
-- src/mav_client/camera_local_client.cpp.
pub mod Keys
pub mod Render
pub mod Ai
pub mod Handlers
pub mod Operations
pub mod Reset
pub mod Written
pub mod InStep
pub mod Defaults
pub mod Functions
pub mod Targets
pub mod Shown
pub mod Restore
