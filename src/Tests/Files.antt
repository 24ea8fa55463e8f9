-- ===== src/Tests/Files.antt =====
-- A small file for the tests: a list of frames, and a filter that holds one packet.
use rtsp_server.Prelude.{
  ℕ, ◌*◌, ◌/◌, ◌≡◌, refl, Bool, true, false, [], ◌∷◌, List, Option, none, some,
}
use rtsp_server.Prelude.Numbers.{pos, ◌-ℤ◌}
use rtsp_server.Media.Packets.{VideoPacket}
use rtsp_server.Media.Ffmpeg.{
  AvPacket, AvStream, Kind, video, audio, Received, packet, needs_input, at_end, Ffmpeg,
}
use rtsp_server.Media.AnnexB.{split_view, scan_all, scan, start_code_length}
use rtsp_server.Media.Source.{Source, ended, create, hz, to_u32, pts_of}
use rtsp_server.Media.Source.Reading.{
  read_packet, read_from, read_loop, round, round_of, after_receive, demux, after_frame, take_frame,
  at_container_end, process_packet, frame_of, anchor_pts, to_rtp_timestamp, pass_over, collect,
  audio_packet,
}
use rtsp_server.Media.Source.Seeking.{seek, seek_open, flush_filter, to_audio_rate}
use rtsp_server.Media.Source.Rounds.{Opened}
use rtsp_server.Tests.World.{whole}

-- All frames, and those that are left.
abbrev pub Tape : Type 0
Tape = List AvPacket × List AvPacket

-- The packet in the filter, and whether it is flushed.
abbrev pub Filter : Type 0
Filter = Option AvPacket × Bool

abbrev pub next : Tape → Option AvPacket × Tape
next (all, []) = (none, (all, []))
next (all, p ∷ ps) = (some p, (all, ps))

abbrev pub give : Option AvPacket → Filter → Bool × Filter
give none (held, e) = (true, (held, true))
give (some p) (held, e) = (true, (some p, e))

abbrev pub get : Filter → Received × Filter
get (some p, e) = (packet p, (none, e))
get (none, true) = (at_end, (none, true))
get (none, false) = (needs_input, (none, false))

-- Stream 0 is the video and stream 1 the audio.
abbrev pub best : Kind → Tape → Option ℕ
best video t = some 0
best audio t = some 1

abbrev pub stream_at : Option ℕ → AvStream
stream_at i = record {
  is_h264 = true;
  time_base = hz 90000;
  avg_frame_rate = record { num = 25; den = 1 };
  width = 640;
  height = 480;
  sample_rate = 48000;
  channels = 2;
  extradata = 1 ∷ 66 ∷ 0 ∷ 30 ∷ 255 ∷ 225 ∷ 0 ∷ 1 ∷ 103 ∷ 1 ∷ 0 ∷ 1 ∷ 104 ∷ [];
}

abbrev pub frame : ℕ → ℕ → AvPacket
frame index time = record {
  stream_index = index;
  pts = pos time;
  dts = pos time;
  payload = 0 ∷ 0 ∷ 1 ∷ 101 ∷ time ∷ [];
  is_key = true;
}

-- Audio between two frames of the video.
abbrev pub tape : List AvPacket
tape = frame 0 7 ∷ frame 1 8 ∷ frame 0 47 ∷ []

abbrev pub ffmpeg_of : Option Tape → Ffmpeg ℕ Tape Filter
ffmpeg_of file = record {
  doubles = whole;
  open_input = λ path. file;
  find_stream_info = λ f. f;
  find_best_stream = best;
  streams = λ f i. stream_at i;
  duration = λ f. pos 80000;
  read_frame = next;
  seek_frame = λ i t f. (true, (f.0, f.0));
  rescale = λ t a b. t;
  q2d = λ r. 0;
  make_bsf = some (none, false);
  init_bsf = λ st b. some b;
  send_packet = give;
  receive_packet = get;
  flush = λ b. (none, false);
  alloc_packet = λ k. true;
  alloc_probe = true;
  clone_packet = λ p. some p;
}

abbrev pub ffmpeg : Ffmpeg ℕ Tape Filter
ffmpeg = ffmpeg_of (some (tape, tape))

-- A file that cannot be opened.
abbrev pub no_file : Ffmpeg ℕ Tape Filter
no_file = ffmpeg_of none

-- After `open`.
abbrev pub opened : Source ℕ Tape Filter
opened = record (create ffmpeg) {
  fmt_ctx = some (tape, tape);
  bsf_ctx = some (none, false);
  pkt = true;
  video_idx = some 0;
  audio_idx = some 1;
  audio_pkt = true;
  audio_info = record { present = true; sample_rate = 48000; channels = 2; asc = [] };
}

-- After the first frame of the video.
abbrev pub one_read : Source ℕ Tape Filter
one_read = record opened { fmt_ctx = some (tape, frame 1 8 ∷ frame 0 47 ∷ []); first_pts = pos 7 }

abbrev pub all_read : Source ℕ Tape Filter
all_read = record one_read {
  fmt_ctx = some (tape, []);
  audio_first_pts = pos 8;
  audio_queue = record { payload = 0 ∷ 0 ∷ 1 ∷ 101 ∷ 8 ∷ []; rtp_timestamp = 0 } ∷ [];
}

-- After the end of the file.
abbrev pub flushed_out : Source ℕ Tape Filter
flushed_out = record all_read { bsf_ctx = some (none, true); bsf_at_eof = true }

abbrev pub shown : ℕ → ℕ → VideoPacket
shown time stamp = record {
  nals = (101 ∷ time ∷ []) ∷ [];
  rtp_timestamp = stamp;
  is_key_frame = true;
}

pub first_read : read_packet ffmpeg 9 opened ≡ ended (some (shown 7 0)) one_read
unfolding read_packet read_from read_loop round round_of after_receive demux after_frame take_frame
    process_packet frame_of anchor_pts split_view scan_all scan start_code_length to_rtp_timestamp
    to_u32 pts_of ◌-ℤ◌
first_read = refl

pub second_read : read_packet ffmpeg 9 one_read ≡ ended (some (shown 47 40)) all_read
unfolding read_packet read_from read_loop round round_of after_receive demux after_frame take_frame
    process_packet frame_of anchor_pts split_view scan_all scan start_code_length to_rtp_timestamp
    to_u32 pts_of ◌-ℤ◌ pass_over collect audio_packet
second_read = refl

pub no_read : read_packet ffmpeg 9 all_read ≡ ended none flushed_out
unfolding read_packet read_from read_loop round round_of after_receive demux after_frame take_frame
    process_packet frame_of anchor_pts split_view scan_all scan start_code_length to_rtp_timestamp
    to_u32 pts_of ◌-ℤ◌ at_container_end
no_read = refl

-- From the start, with another offset.
abbrev pub read_again : ℕ → Source ℕ Tape Filter
read_again n = record one_read { rtp_offset = n; audio_rtp_offset = n / 90000 * 48000 }

pub again_read :
    read_packet ffmpeg 9 (seek ffmpeg 9000 flushed_out)
    ≡ ended (some (shown 7 9000)) (read_again 9000)
unfolding read_packet read_from read_loop round round_of after_receive demux after_frame take_frame
    process_packet frame_of anchor_pts split_view scan_all scan start_code_length to_rtp_timestamp
    to_u32 pts_of ◌-ℤ◌ seek seek_open flush_filter to_audio_rate
again_read = refl

pub opened-Opened : Opened opened
opened-Opened = record { has_container = refl; has_packet = refl; has_video = refl }
