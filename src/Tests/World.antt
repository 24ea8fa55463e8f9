-- ===== src/Tests/World.antt =====
-- A small world for the tests: whole numbers for doubles, a list of frames for a source.
use rtsp_server.Prelude.{
  ℕ, ◌+◌, ◌*◌, ◌/◌, true, false, [], ◌∷◌, ◌++◌, List, Option, none, some, ltb, leb, if◌then◌else◌,
}
use rtsp_server.Prelude.Bits.{Bytes}
use rtsp_server.Prelude.Text.{codes}
use rtsp_server.Prelude.Numbers.{ℤ, pos, pos_part}
use rtsp_server.Doubles.{Doubles}
use rtsp_server.Sdp.{no_audio}
use rtsp_server.Rtp.Sender.{Sender, Sockets, fresh, udp}
use rtsp_server.Rtsp.Request.{Request, Headers}
use rtsp_server.Media.Packets.{VideoPacket}
use rtsp_server.Session.State.{State, Session, Env, create}

abbrev pub whole : Doubles ℕ
whole = record {
  zero_d = 0;
  minus_one = 0;
  of_u32 = λ n. n;
  to_u32 = λ n. n;
  of_i64 = pos_part;
  to_i64 = pos;
  to_float = λ n. n;
  add = λ a b. a + b;
  mul = λ a b. a * b;
  div = λ a b. a / b;
  max_d = λ a b. if ltb a b then b else a;
  lt = ltb;
  le = leb;
  to_ns = λ n. pos (n * 1000000000);
  fixed3 = λ n. codes "0.000";
  stod = λ s. some 0;
}

abbrev pub Frames : Type 0
Frames = List VideoPacket

abbrev pub key_frame : VideoPacket
key_frame = record {
  nals = (101 ∷ 1 ∷ 2 ∷ []) ∷ (1 ∷ 3 ∷ []) ∷ [];
  rtp_timestamp = 0;
  is_key_frame = true;
}

abbrev pub plain_frame : VideoPacket
plain_frame = record { nals = (65 ∷ 1 ∷ []) ∷ []; rtp_timestamp = 3000; is_key_frame = false }

abbrev pub next_frame : Frames → Option VideoPacket × Frames
next_frame [] = (none, [])
next_frame (f ∷ fs) = (some f, fs)

abbrev pub sockets : Sockets
sockets = record {
  udp_socket = some 9;
  inet_pton = λ ip. true;
  connect = λ fd ip port. true;
  local_port = λ fd. some 50000;
}

-- A world in which every path is inside the root, and every file opens.
abbrev pub world_at : ℤ → Env Frames ℕ
world_at now = record {
  doubles = whole;
  open_source = λ path. some (key_frame ∷ []);
  stream_info = λ m. record {
    sps = 103 ∷ [];
    pps = 104 ∷ [];
    width = 640;
    height = 480;
    frame_rate = 25;
    duration_secs = 0;
  };
  audio_info = λ m. no_audio;
  read_packet = next_frame;
  read_audio_packet = λ m. (none, m);
  seek = λ offset m. m;
  seek_to_seconds = λ secs m. m;
  rtp_offset = λ m. 0;
  audio_rtp_offset = λ m. 0;
  adjust_rtp_offset = λ delta m. m;
  peek_next = λ m. (0, m);
  path_append = λ a b. a ++ b;
  weakly_canonical = λ p. some p;
  relative = λ p root. some p;
  exists = λ p. some true;
  sockets = sockets;
  clock_now = now;
  date = codes "Mon, 01 Jan 2024 00:00:00 GMT";
}

abbrev pub world : Env Frames ℕ
world = world_at (pos 1000)

abbrev pub created : Session Frames ℕ
created = create whole (codes "10.0.0.2") (codes "/videos/") (codes "42") 7 8

abbrev pub request : Bytes → Headers → Request
request method headers = record {
  method = method;
  url = codes "rtsp://h/a.mp4";
  version = codes "RTSP/1.0";
  headers = headers;
  body = [];
}

abbrev pub cseq_header : Headers
cseq_header = (codes "cseq", codes "3") ∷ []

abbrev pub connected_sender : Sender
connected_sender = record fresh { mode = udp; ready = true; udp_fd = some 9 }

-- Over UDP, with a frame to come.
abbrev pub streaming : State → Session Frames ℕ
streaming st = record created {
  state = st;
  media_source = some (plain_frame ∷ key_frame ∷ []);
  describe_done = true;
  rtp_sender = some connected_sender;
  transport_ready = true;
}
