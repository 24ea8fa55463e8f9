-- ===== src/Session.antt =====
-- include/rtspserver/server/RTSPSession.hpp and src/server/RTSPSession.cpp: one client connection.
pub mod State
pub mod Outbox
pub mod Receive
pub mod Handlers
pub mod Sending
pub mod Pacer
pub mod FileSource
