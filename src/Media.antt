-- ===== src/Media.antt =====
-- include/rtspserver/media and src/media: NAL units and the media source.
pub mod AnnexB
pub mod Extradata
pub mod Packets
pub mod Ffmpeg
pub mod Source
