-- ===== src/Rpc.antt =====
-- The wire format of the camera service: messages, and their conversions from and to the types of
-- the camera plugin (src/mav_server/plugins/camera/camera_service_impl.h).
pub mod Types
pub mod Enums
pub mod Records
pub mod RoundTrip
pub mod Tests
