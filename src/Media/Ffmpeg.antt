-- ===== src/Media/Ffmpeg.antt =====
-- What `MediaSource` calls of FFmpeg: `F` is the state of an open container, `B` that of a bitstream
-- filter. A packet is passed by its contents; its reference counts are not modelled.
use rtsp_server.Prelude.{ℕ, Bool, Option}
use rtsp_server.Prelude.Bits.{Bytes}
use rtsp_server.Prelude.Numbers.{ℤ, negsuc}
use rtsp_server.Doubles.{Doubles}

-- `AVRational`.
pub record Rational : Type 0 where
  pub num : ℕ
  pub den : ℕ

-- `AVPacket`, in the fields that are read.
pub record AvPacket : Type 0 where
  pub stream_index : ℕ
  pub pts : ℤ
  pub dts : ℤ
  pub payload : Bytes
  pub is_key : Bool

-- `AV_NOPTS_VALUE`, -2^63.
abbrev pub no_pts : ℤ
no_pts = negsuc 9223372036854775807

-- `AVStream` with its `AVCodecParameters`; no extradata is the empty text.
pub record AvStream : Type 0 where
  pub is_h264 : Bool
  pub time_base : Rational
  pub avg_frame_rate : Rational
  pub width : ℕ
  pub height : ℕ
  pub sample_rate : ℕ
  pub channels : ℕ
  pub extradata : Bytes

pub data Kind : Type 0 where
  video audio : Kind

-- What `av_bsf_receive_packet` returns: a packet, EAGAIN, EOF or another error.
pub data Received : Type 0 where
  packet : AvPacket → Received
  needs_input at_end failed : Received

-- A result `none` is a null pointer, a negative index or an error code, and a `Bool` is false for an
-- error code.
pub record Ffmpeg (D F B : Type 0) : Type 0 where
  pub doubles : Doubles D
  pub open_input : Bytes → Option F
  pub find_stream_info : F → F
  pub find_best_stream : Kind → F → Option ℕ
  -- `streams[index]`, at -1 for `none`.
  pub streams : F → Option ℕ → AvStream
  pub duration : F → ℤ
  pub read_frame : F → Option AvPacket × F
  pub seek_frame : Option ℕ → ℤ → F → Bool × F
  -- `av_rescale_q` and `av_q2d`.
  pub rescale : ℤ → Rational → Rational → ℤ
  pub q2d : Rational → D
  -- `make_bsf_context`, and `av_bsf_init` with the stream's parameters.
  pub make_bsf : Option B
  pub init_bsf : AvStream → B → Option B
  -- The packet, or the null pointer that flushes.
  pub send_packet : Option AvPacket → B → Bool × B
  pub receive_packet : B → Received × B
  pub flush : B → B
  -- Whether memory suffices for the packet of the video and that of the audio, and for a clone.
  pub alloc_packet : Kind → Bool
  -- The same for the packet with which `seekToSeconds` probes.
  pub alloc_probe : Bool
  pub clone_packet : AvPacket → Option AvPacket
