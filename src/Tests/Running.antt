-- ===== src/Tests/Running.antt =====
-- The program from its arguments to its end, and the clock of a session.
use rtsp_server.Prelude.{ℕ, ◌≡◌, refl, true, false, [], ◌∷◌, some}
use rtsp_server.Prelude.Text.{codes, bytes_eq}
use rtsp_server.Prelude.Numbers.{pos, negsuc, ltb_ℤ, ◌+ℤ◌, ◌-ℤ◌}
use rtsp_server.Media.Packets.{VideoPacket}
use rtsp_server.Utils.UniqueFd.{reset, valid}
use rtsp_server.Media.Source.{Source, ended, to_u32, pts_of}
use rtsp_server.Media.Source.Reading.{
  read_packet, read_from, read_loop, round, round_of, after_receive, demux, after_frame, take_frame,
  process_packet, frame_of, anchor_pts, to_rtp_timestamp,
}
use rtsp_server.Media.Source.Seeking.{
  seek_to_seconds, seek_from, seek_at, seek_in, after_seek, land, land_with, probe, flush_filter,
}
use rtsp_server.Media.Source.Times.{Rescales}
use rtsp_server.Media.Source.Positions.{Place, first_after_position}
use rtsp_server.Media.AnnexB.{split_view, scan_all, scan, start_code_length}
use rtsp_server.Session.State.{playing, Session, create as new_session}
use rtsp_server.Session.Handlers.Play.{restart, seek_and_reset}
use rtsp_server.Session.FileSource.{file_env}
use rtsp_server.Session.Outbox.Wakeup.{
  waits, rests, pushed, Shared, shared, Step, Reached, at_first, then_steps, pushes, claims, arms,
  push_wakes, lost_wakeup,
}
use rtsp_server.Session.Pacer.{clock_rate, media_secs, send_time}
use rtsp_server.Reactor.Startup.{
  Kernel, construct, set_up, run_parts, open_server, listen_on, open_epoll, open_wake, open_signals,
  open_logic, open_pacer, open_timer, open_pacer_epoll, destruct, threads,
}
use rtsp_server.Reactor.Startup.Ownership.{descriptors, closed_once}
use rtsp_server.Reactor.Startup.Signals.{waits_for_signalfd, signal_to_worker}
use rtsp_server.Tests.World.{whole, world, streaming}
use rtsp_server.Tests.Files.{Tape, Filter, ffmpeg, one_read, opened, opened-Opened, shown}

-- What the kernel answers when the clock cannot be made.
abbrev no_clock : Kernel
no_clock = record {
  socket = pos 3;
  inet_pton = true;
  bind = true;
  listen = true;
  epoll_create = pos 4;
  wake_eventfd = pos 5;
  signalfd = pos 6;
  logic_eventfd = pos 7;
  pacer_eventfd = pos 8;
  timerfd_create = negsuc 0;
  pacer_epoll_create = pos 9;
}

abbrev healthy : Kernel
healthy = record no_clock { timerfd_create = pos 10 }

closed_once_example :
    destruct (set_up [] no_clock (construct 4 false)).0
    ≡ descriptors (set_up [] no_clock (construct 4 false)).0.answers
closed_once_example = closed_once [] no_clock 4 false

sets_up : (set_up [] healthy (construct 4 false)).1 ≡ true
unfolding construct set_up run_parts open_server listen_on open_epoll open_wake open_signals
    open_logic open_pacer open_timer open_pacer_epoll reset valid bytes_eq
sets_up = refl

signal_to_worker_example :
    let t = threads (set_up [] healthy (construct 4 false)).0 in
    (t.dispatcher ≡ true) × (waits_for_signalfd t ≡ false)
signal_to_worker_example = signal_to_worker [] healthy 3 sets_up

-- The first frame after a seek to the first second: the video goes on at its time 7.
abbrev landed : Source ℕ Tape Filter
landed = record one_read { rtp_offset = 7 }

abbrev sought_first : Source ℕ Tape Filter
sought_first = record opened { rtp_offset = 7 }

seeks_first : seek_to_seconds ffmpeg 1 opened ≡ ended 0 sought_first
unfolding to_u32 pts_of seek_to_seconds seek_from seek_at seek_in after_seek land land_with probe
    flush_filter
seeks_first = refl

landed_read : read_packet ffmpeg 9 sought_first ≡ ended (some (shown 7 7)) landed
unfolding read_packet read_from read_loop round round_of after_receive demux after_frame take_frame
    process_packet frame_of anchor_pts split_view scan_all scan start_code_length to_rtp_timestamp
    to_u32 pts_of ◌-ℤ◌ seek_to_seconds seek_from seek_at seek_in after_seek land land_with probe
    flush_filter
landed_read = refl

zero-Rescales : Rescales ffmpeg
zero-Rescales = record { zero_lem = λ a b. refl }

first_after_position_example : Place ffmpeg 0 7
first_after_position_example =
    first_after_position ffmpeg 1 0 9 zero-Rescales opened-Opened refl seeks_first landed_read

-- A frame that is due two seconds after the start of the clock.
abbrev late_frame : VideoPacket
late_frame = record { nals = (65 ∷ 1 ∷ []) ∷ []; rtp_timestamp = 180000; is_key_frame = false }

before_due : ltb_ℤ (pos 30000000) (send_time world late_frame (streaming playing)) ≡ true
unfolding send_time media_secs clock_rate ◌+ℤ◌
before_due = refl

at_due : ltb_ℤ (pos 2000000000) (send_time world late_frame (streaming playing)) ≡ false
unfolding send_time media_secs clock_rate ◌+ℤ◌
at_due = refl

push_wakes_example : (true ≡ true) × (true ≡ true)
push_wakes_example =
    push_wakes (then_steps (then_steps at_first (pushes (codes "RTSP"))) claims) arms (λ e. cc) refl
      refl

lost_wakeup_example :
    Reached (shared waits rests false false (codes "RTSP" ∷ []))
    × ((t : Shared)
        → Step (shared waits rests false false (codes "RTSP" ∷ [])) t
        → t.pusher ≡ pushed)
lost_wakeup_example = lost_wakeup (codes "RTSP")

abbrev starting : Session (Source ℕ Tape Filter) ℕ
starting = record (new_session whole [] [] [] 7 8) { media_source = some opened }

abbrev restarted : Session (Source ℕ Tape Filter) ℕ
restarted =
    restart (file_env ffmpeg 9 world) 0 (seek_and_reset (file_env ffmpeg 9 world) 1 false starting)
