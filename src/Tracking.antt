-- ===== src/Tracking.antt =====
-- The tracking server: src/tracking/tracking_server.cpp and tracking_server.h.
pub mod Lines
pub mod Frame
pub mod Control
pub mod Server
mod Tests
