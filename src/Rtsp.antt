-- ===== src/Rtsp.antt =====
-- src/rtsp: RTSP messages.
pub mod Request
pub mod Response
