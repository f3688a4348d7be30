-- ===== src/Local.antt =====
-- The local camera client: src/mav_client/camera_local_client.cpp and camera_local_client.h.
pub mod Device
pub mod State
pub mod Capture
pub mod SdCard
pub mod Settings
pub mod Information
pub mod DeviceFiles
pub mod Preview
pub mod Startup
pub mod Session
pub mod Tests
