-- ===== src/Media/Source.antt =====
-- src/media/MediaSource.cpp and include/rtspserver/media/MediaSource.hpp: a file read by FFmpeg, its
-- fields, its helpers and its closing. `int64_t` is ℤ, since the times of a file do not overflow it.
pub mod Opening
pub mod Reading
pub mod Seeking
pub mod Rounds
pub mod Reads
pub mod Validity
pub mod Safety
pub mod Errors
pub mod Termination
pub mod Steady
pub mod Peek
pub mod Times
pub mod Positions
pub mod Sound
pub mod Frames
use rtsp_server.Prelude.{
  ℕ, zero, suc, ◌+◌, ◌-◌, ◌%◌, Bool, true, false, not, ◌&&◌, ◌||◌, [], ◌∷◌, ◌++◌, List, Option,
  none, some, map, ltb, leb, ◌==◌, length, if◌then◌else◌,
}
use rtsp_server.Prelude.Bits.{Bytes, u32}
use rtsp_server.Prelude.Numbers.{ℤ, pos, negsuc, ◌-ℤ◌, ltb_ℤ}
use rtsp_server.Sdp.{H264StreamInfo, AudioStreamInfo, no_audio}
use rtsp_server.Media.AnnexB.{split_view, slice}
use rtsp_server.Media.Extradata.{parse_extradata}
use rtsp_server.Media.Packets.{VideoPacket, AudioPacket}
use rtsp_server.Media.Ffmpeg.{
  Rational, AvPacket, AvStream, Kind, no_pts, Received, packet, needs_input, at_end, failed, Ffmpeg,
}

-- The fields of the object; `pkt` and `audio_pkt` say whether the packets are allocated, and an
-- index is `none` for -1.
pub record Source (D F B : Type 0) : Type 0 where
  pub fmt_ctx : Option F
  pub bsf_ctx : Option B
  pub pkt : Bool
  pub video_idx : Option ℕ
  pub time_base : Rational
  pub stream_info : H264StreamInfo D
  pub audio_info : AudioStreamInfo
  pub audio_idx : Option ℕ
  pub audio_time_base : Rational
  pub audio_first_pts : ℤ
  pub audio_rtp_offset : ℕ
  pub audio_pkt : Bool
  pub audio_queue : List AudioPacket
  pub rtp_offset : ℕ
  pub first_pts : ℤ
  pub bsf_at_eof : Bool
  pub prefetch_vp : Option VideoPacket

-- How a call that reads ends: with its result, not within the fuel, or at a null pointer.
pub data Read (A S : Type 0) : Type 0 where
  ended : A → S → Read A S
  runs_on crashes : Read A S

-- One round of its loop.
pub data Round (S : Type 0) : Type 0 where
  ends : Option VideoPacket → S → Round S
  goes_on : S → Round S
  fails : Round S

abbrev pub is_no_pts : ℤ → Bool
is_no_pts (pos n) = false
is_no_pts (negsuc n) = n == 9223372036854775807

-- `pts`, or `dts` where there is none.
unfoldable pub pts_of : AvPacket → ℤ
pts_of p = if is_no_pts p.pts then p.dts else p.pts

-- `static_cast<uint32_t>` of an `int64_t`.
unfoldable pub to_u32 : ℤ → ℕ
to_u32 (pos n) = u32 n
to_u32 (negsuc n) = 4294967295 - n % 4294967296

abbrev pub is_some {ℓ} : {A : Type ℓ} → Option A → Bool
is_some none = false
is_some (some x) = true

-- The bytes of the views that `splitView` makes.
abbrev pub views_of : Bytes → Option (List (ℕ × ℕ)) → List Bytes
views_of buf none = []
views_of buf (some vs) = map (λ v. slice buf v.0 v.1) vs

abbrev pub map_option : {A : Type 0} → (A → A) → Option A → Option A
map_option f none = none
map_option f (some x) = some (f x)

abbrev pub is_index : Option ℕ → ℕ → Bool
is_index none n = false
is_index (some i) n = n == i

-- `AV_TIME_BASE`.
abbrev pub av_time_base : ℕ
av_time_base = 1000000

abbrev pub hz : ℕ → Rational
hz rate = record { num = 1; den = rate }

module _ {D F B : Type 0} where
  unfoldable pub close : Source D F B → Source D F B
  close s = record s {
    audio_pkt = false;
    audio_queue = [];
    pkt = false;
    bsf_ctx = none;
    fmt_ctx = none;
    video_idx = none;
    audio_idx = none;
    first_pts = no_pts;
    audio_first_pts = no_pts;
    rtp_offset = 0;
    audio_rtp_offset = 0;
    audio_info = no_audio;
    bsf_at_eof = false;
  }

  unfoldable pub dequeue_audio :
      Option ℕ → List AudioPacket → Source D F B → Option AudioPacket × Source D F B
  dequeue_audio none q s = (none, s)
  dequeue_audio (some i) [] s = (none, s)
  dequeue_audio (some i) (ap ∷ aps) s = (some ap, record s { audio_queue = aps })

  unfoldable pub read_audio_packet : Source D F B → Option AudioPacket × Source D F B
  read_audio_packet s = dequeue_audio s.audio_idx s.audio_queue s

module _ {D F B : Type 0} (ff : Ffmpeg D F B) where
  -- The members' default values.
  abbrev pub create : Source D F B
  create = record {
    fmt_ctx = none;
    bsf_ctx = none;
    pkt = false;
    video_idx = none;
    time_base = hz 90000;
    stream_info = record {
      sps = [];
      pps = [];
      width = 0;
      height = 0;
      frame_rate = ff.doubles.of_u32 25;
      duration_secs = ff.doubles.zero_d;
    };
    audio_info = no_audio;
    audio_idx = none;
    audio_time_base = hz 44100;
    audio_first_pts = no_pts;
    audio_rtp_offset = 0;
    audio_pkt = false;
    audio_queue = [];
    rtp_offset = 0;
    first_pts = no_pts;
    bsf_at_eof = false;
    prefetch_vp = none;
  }
