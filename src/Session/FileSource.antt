-- ===== src/Session/FileSource.antt =====
-- A session over `MediaSource`: the operations of `IMediaSource` as `std::make_unique<MediaSource>()`
-- gives them to RTSPSession.cpp. What the session uses besides comes from any other environment.
pub mod Promises
use rtsp_server.Prelude.{ℕ, Bool, true, false, Option, none, some}
use rtsp_server.Prelude.Bits.{Bytes}
use rtsp_server.Media.Packets.{VideoPacket}
use rtsp_server.Media.Ffmpeg.{Ffmpeg}
use rtsp_server.Media.Source.{Source, Read, ended, runs_on, crashes, create, read_audio_packet}
use rtsp_server.Media.Source.Reading.{read_packet, peek_next}
use rtsp_server.Media.Source.Seeking.{sought, seek, seek_to_seconds, adjust_rtp_offset}
use rtsp_server.Media.Source.Opening.{open_path}
use rtsp_server.Session.State.{Env}

-- The result of a call that ends.
abbrev pub result : {A S : Type 0} → A → S → Read A S → A × S
result a s (ended b t) = (b, t)
result a s runs_on = (a, s)
result a s crashes = (a, s)

abbrev pub if_open : {S : Type 0} → Bool × S → Option S
if_open (false, s) = none
if_open (true, s) = some s

module _ {M D F B : Type 0} (ff : Ffmpeg D F B) (fuel : ℕ) (world : Env M D) where
  -- `fuel` bounds the rounds of one `readPacket`.
  abbrev pub file_env : Env (Source D F B) D
  file_env = record {
    doubles = ff.doubles;
    open_source = λ path. if_open (open_path ff path (create ff));
    stream_info = λ m. m.stream_info;
    audio_info = λ m. m.audio_info;
    read_packet = λ m. result none m (read_packet ff fuel m);
    read_audio_packet = λ m. read_audio_packet m;
    seek = λ n m. seek ff n m;
    seek_to_seconds = λ secs m. sought m (seek_to_seconds ff secs m);
    rtp_offset = λ m. m.rtp_offset;
    audio_rtp_offset = λ m. m.audio_rtp_offset;
    adjust_rtp_offset = λ delta m. adjust_rtp_offset ff delta m;
    peek_next = λ m. result 0 m (peek_next ff fuel m);
    path_append = world.path_append;
    weakly_canonical = world.weakly_canonical;
    relative = world.relative;
    exists = world.exists;
    sockets = world.sockets;
    clock_now = world.clock_now;
    date = world.date;
  }
