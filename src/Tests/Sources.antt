-- ===== src/Tests/Sources.antt =====
-- The media source on a small file.
use rtsp_server.Prelude.{
  ℕ, ◌<◌, ◌≤◌, ◌≡◌, ◌≢◌, refl, false, [], ◌∷◌, Option, some, length, arith, inl,
}
use rtsp_server.Media.Packets.{VideoPacket}
use rtsp_server.Media.Ffmpeg.{AvPacket}
use rtsp_server.Media.Source.{Source, ended, crashes, create}
use rtsp_server.Media.Source.Reading.{read_packet, peek_next}
use rtsp_server.Media.Source.Seeking.{sought, seek, seek_to_seconds}
use rtsp_server.Media.Source.Opening.{open_path, open_container}
use rtsp_server.Media.Source.Validity.{IsValid}
use rtsp_server.Media.Source.Safety.{at_first, called, opens, reads_safely}
use rtsp_server.Media.Source.Errors.{Inert, failed_open}
use rtsp_server.Media.Source.Termination.{Finite, read_packet_total}
use rtsp_server.Media.Source.Peek.{Gives, peek_next-read_packet, stale_frame}
use rtsp_server.Media.Source.Times.{Rescales}
use rtsp_server.Session.State.{playing, Session, create as new_session}
use rtsp_server.Session.Pacer.{ends, admit, read_frame, track}
use rtsp_server.Session.FileSource.{file_env}
use rtsp_server.Session.FileSource.Promises.{loop_continues}
use rtsp_server.Tests.World.{whole, world}
use rtsp_server.Tests.Files.{
  Tape, Filter, next, ffmpeg, no_file, opened, one_read, all_read, flushed_out, shown, first_read,
  no_read, read_again, again_read, opened-Opened,
}

failed : (open_path no_file [] (create no_file)).0 ≡ false
unfolding open_path open_container
failed = refl

failed_open_example : Inert no_file (open_path no_file [] (create no_file)).1
failed_open_example = failed_open no_file [] (create no_file) refl failed

reads_safely_example :
    IsValid (open_path ffmpeg [] (create ffmpeg)).1
    × (read_packet ffmpeg 9 (open_path ffmpeg [] (create ffmpeg)).1 ≢ crashes)
    × (peek_next ffmpeg 9 (open_path ffmpeg [] (create ffmpeg)).1 ≢ crashes)
    × (seek_to_seconds ffmpeg 1 (open_path ffmpeg [] (create ffmpeg)).1 ≢ crashes)
reads_safely_example = reads_safely ffmpeg (called at_first (opens [])) refl 9 1

next_shrinks : (f : Tape) (p : AvPacket) → (next f).0 ≡ some p → length (next f).1.1 < length f.1
next_shrinks (all, []) p e = absurd (cc)
next_shrinks (all, q ∷ ps) p e = omega arith

next_at_most : (f : Tape) → length (next f).1.1 ≤ length f.1
next_at_most (all, []) = omega arith
next_at_most (all, q ∷ ps) = omega arith

tape-Finite : Finite ffmpeg (λ f. length f.1)
tape-Finite = record { shrinks = next_shrinks; at_most = next_at_most }

read_packet_total_example :
    (o : Option VideoPacket) × (t : Source ℕ Tape Filter) × (read_packet ffmpeg 5 opened
      ≡ ended o t)
read_packet_total_example =
    read_packet_total ffmpeg (λ f. length f.1) tape-Finite opened (inl opened-Opened) 5
      (omega arith)

peek_next-read_packet_example :
    (u : Source ℕ Tape Filter) × (peek_next ffmpeg 9 opened ≡ ended 0 u)
    × (read_packet ffmpeg 3 u ≡ ended (some (shown 7 0)) one_read)
peek_next-read_packet_example =
    peek_next-read_packet ffmpeg 9 3 opened one_read (shown 7 0) opened-Opened first_read

stale_frame_example :
    (u : Source ℕ Tape Filter) × (peek_next ffmpeg 9 opened ≡ ended 0 u)
    × ((secs later : ℕ)
        → Gives ffmpeg
            (some (shown 7 0))
            (read_packet ffmpeg later (sought u (seek_to_seconds ffmpeg secs u))))
    × ((n later : ℕ) → Gives ffmpeg (some (shown 7 0)) (read_packet ffmpeg later (seek ffmpeg n u)))
stale_frame_example = stale_frame ffmpeg 9 opened one_read (shown 7 0) opened-Opened first_read

rescale-Rescales : Rescales ffmpeg
rescale-Rescales = record { zero_lem = λ a b. refl }

-- A session at the end of the file; a frame at 1800 was sent, and then one at 5400.
abbrev finished : Session (Source ℕ Tape Filter) ℕ
finished = record (new_session whole [] [] [] 7 8) {
  state = playing;
  media_source = some all_read;
  last_video_rtp = 1800;
}

loop_continues_example :
    (again : Session (Source ℕ Tape Filter) ℕ) × (read_frame
        (file_env ffmpeg 9 world)
        all_read
        (track (file_env ffmpeg 9 world) all_read (shown 47 5400) finished)
      ≡ ends again)
    × (again.media_source ≡ some (seek ffmpeg 9000 flushed_out))
    × (read_frame (file_env ffmpeg 9 world) (seek ffmpeg 9000 flushed_out) again
        ≡ admit
            (file_env ffmpeg 9 world)
            (shown 7 9000)
            (record again { media_source = some (read_again 9000) }))
    × ((shown 7 9000).rtp_timestamp ≡ 9000)
loop_continues_example =
    loop_continues ffmpeg 9 world all_read flushed_out (read_again 9000) (shown 47 5400)
      (shown 7 9000) finished rescale-Rescales
      (record { has_container = refl; has_packet = refl; has_video = refl }) refl (ground arith)
      (omega arith) (omega arith) no_read again_read
