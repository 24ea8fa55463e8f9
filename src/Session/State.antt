-- ===== src/Session/State.antt =====
-- The fields of `RTSPSession`, and what the session uses of the rest of the world.
-- A `time_point` is a number of nanoseconds, zero for the default value. `ssrc_` and the session's
-- identifiers are chosen at random by the constructor, so they are arguments of `init`.
use rtsp_server.Prelude.{ℕ, Bool, true, false, [], List, Option, none}
use rtsp_server.Prelude.Bits.{Bytes}
use rtsp_server.Prelude.Numbers.{ℤ, pos}
use rtsp_server.Media.Packets.{VideoPacket, AudioPacket}
use rtsp_server.Rtsp.Request.{Request}
use rtsp_server.Rtp.Sender.{Sender, Sockets}
use rtsp_server.Sdp.{H264StreamInfo, AudioStreamInfo}
use rtsp_server.Doubles.{Doubles}

pub data State : Type 0 where
  init ready playing paused : State

-- What a call returns, or the state in which an exception left the session.
pub data Outcome (S : Type 0) : Type 0 where
  returned : S → Outcome S
  threw : S → Outcome S

abbrev pub state_of : {S : Type 0} → Outcome S → S
state_of (returned s) = s
state_of (threw s) = s

-- `M` is the state of a media source and `D` the type of doubles.
pub record Session (M D : Type 0) : Type 0 where
  pub state : State
  pub session_id : Bytes
  pub client_ip : Bytes
  pub media_root : Bytes
  pub media_source : Option M
  pub describe_done : Bool
  pub rtp_sender : Option Sender
  pub audio_rtp_sender : Option Sender
  pub use_tcp : Bool
  pub rtp_channel : ℤ
  pub rtcp_channel : ℤ
  pub audio_rtp_channel : ℤ
  pub audio_rtcp_channel : ℤ
  pub transport_ready : Bool
  pub audio_transport_ready : Bool
  pub pacer_in_flight : Bool
  pub wall_start : ℤ
  pub pause_start : ℤ
  pub first_frame : Bool
  pub loop_video_offset : ℕ
  pub audio_loop_offset : ℕ
  pub pending_vp : Option VideoPacket
  pub pending_ap : Option AudioPacket
  pub last_video_rtp : ℕ
  pub last_frame_dur : Option ℕ
  pub resume_waiting_for_idr : Bool
  pub last_keyframe_npt : D
  pub last_npt : D
  pub npt_end : D
  pub rtp_seq : ℕ
  pub ssrc : ℕ
  pub audio_rtp_seq : ℕ
  pub audio_ssrc : ℕ
  pub outbox : List Bytes
  pub outbox_bytes : ℕ
  pub wbuf : Option Bytes
  pub woff : ℕ
  pub epollout_armed : Bool
  pub close_after_write : Bool
  pub recv_buf : Bytes
  pub cmd_queue : List Request
  -- Whether the kernel's interest list has EPOLLOUT for the connection.
  pub epoll_out : Bool
  -- The RTP packets that have been handed to the UDP senders, oldest first.
  pub video_sent : List Bytes
  pub audio_sent : List Bytes

-- `int` members that are set once.
abbrev pub payload_type : ℕ
payload_type = 96

abbrev pub audio_payload_type : ℕ
audio_payload_type = 97

-- The template's default parameters.
abbrev pub k_outbox_hwm : ℕ
k_outbox_hwm = 5242880

abbrev pub k_max_recv_buf : ℕ
k_max_recv_buf = 16384

-- `IMediaSource`, the file system, the sockets and the clock.
pub record Env (M D : Type 0) : Type 0 where
  pub doubles : Doubles D
  -- `std::make_unique<MediaSource>()` and `open`.
  pub open_source : Bytes → Option M
  pub stream_info : M → H264StreamInfo D
  pub audio_info : M → AudioStreamInfo
  pub read_packet : M → Option VideoPacket × M
  pub read_audio_packet : M → Option AudioPacket × M
  pub seek : ℕ → M → M
  pub seek_to_seconds : D → M → M
  pub rtp_offset : M → ℕ
  pub audio_rtp_offset : M → ℕ
  pub adjust_rtp_offset : ℕ → M → M
  pub peek_next : M → ℕ × M
  -- `operator/` of paths, `weakly_canonical` and `exists` (`none` for an exception), and `relative`
  -- (`none` for an error code).
  pub path_append : Bytes → Bytes → Bytes
  pub weakly_canonical : Bytes → Option Bytes
  pub relative : Bytes → Bytes → Option Bytes
  pub exists : Bytes → Option Bool
  pub sockets : Sockets
  pub clock_now : ℤ
  -- The text of `RTSPResponse::timestamp`.
  pub date : Bytes

module _ {M D : Type 0} (d : Doubles D) where
  -- The constructor, with the random identifiers.
  abbrev pub create : Bytes → Bytes → Bytes → ℕ → ℕ → Session M D
  create ip root id ssrc audio_ssrc = record {
    state = init;
    session_id = id;
    client_ip = ip;
    media_root = root;
    media_source = none;
    describe_done = false;
    rtp_sender = none;
    audio_rtp_sender = none;
    use_tcp = false;
    rtp_channel = pos 0;
    rtcp_channel = pos 1;
    audio_rtp_channel = pos 2;
    audio_rtcp_channel = pos 3;
    transport_ready = false;
    audio_transport_ready = false;
    pacer_in_flight = false;
    wall_start = pos 0;
    pause_start = pos 0;
    first_frame = true;
    loop_video_offset = 0;
    audio_loop_offset = 0;
    pending_vp = none;
    pending_ap = none;
    last_video_rtp = 0;
    last_frame_dur = none;
    resume_waiting_for_idr = false;
    last_keyframe_npt = d.zero_d;
    last_npt = d.zero_d;
    npt_end = d.minus_one;
    rtp_seq = 0;
    ssrc = ssrc;
    audio_rtp_seq = 0;
    audio_ssrc = audio_ssrc;
    outbox = [];
    outbox_bytes = 0;
    wbuf = none;
    woff = 0;
    epollout_armed = false;
    close_after_write = false;
    recv_buf = [];
    cmd_queue = [];
    epoll_out = false;
    video_sent = [];
    audio_sent = [];
  }
