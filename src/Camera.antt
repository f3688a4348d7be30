-- ===== src/Camera.antt =====
-- The camera of the server: src/mav_server/plugins/camera.
pub mod Types
pub mod Field
pub mod Compare
pub mod Print
mod Tests
