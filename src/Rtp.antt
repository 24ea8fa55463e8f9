-- ===== src/Rtp.antt =====
-- src/rtp: RTP packets, the H.264 packetizer, and the sender.
pub mod Packet
pub mod Packetizer
pub mod Sender
