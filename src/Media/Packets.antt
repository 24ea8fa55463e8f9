-- ===== src/Media/Packets.antt =====
-- include/rtspserver/media/IMediaSource.hpp: what a media source gives. The reference that keeps the
-- buffer alive and the duration, which nothing reads, are left out.
use rtsp_server.Prelude.{ℕ, Bool, List}
use rtsp_server.Prelude.Bits.{Bytes}

-- The NAL views of one access unit, as their bytes.
pub record VideoPacket : Type 0 where
  pub nals : List Bytes
  pub rtp_timestamp : ℕ
  pub is_key_frame : Bool

pub record AudioPacket : Type 0 where
  pub payload : Bytes
  pub rtp_timestamp : ℕ
