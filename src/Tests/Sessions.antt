-- ===== src/Tests/Sessions.antt =====
-- One connection.
use rtsp_server.Prelude.{
  ℕ, zero, suc, ◌+◌, ◌≡◌, refl, arith, inr, true, false, [], ◌∷◌, ◌++◌, List, none, some, length,
  take, drop,
}
use rtsp_server.Prelude.Bits.{Bytes, u16, size_mod}
use rtsp_server.Prelude.Text.{codes, bytes_eq, find, find_from, starts_with}
use rtsp_server.Utils.StringUtils.{trim, url_path}
use rtsp_server.Prelude.Numbers.{ℤ, pos, stoul, ◌+ℤ◌, ◌-ℤ◌}
use rtsp_server.Rtsp.Request.{Request}
use rtsp_server.Session.State.{playing, Session, state_of}
use rtsp_server.Session.Outbox.{sent, again, push_outbox, send_response, on_writable}
use rtsp_server.Session.Outbox.Accounting.{Inv, unsent, on_writable_lem}
use rtsp_server.Session.Outbox.Watermark.{push_frames, Cut, push_frames-Cut}
use rtsp_server.Session.Receive.{content_length, parse_loop, blank_line}
use rtsp_server.Session.Receive.Progress.{NoWrap, parse_loop_total, content_length_hangs}
use rtsp_server.Session.Handlers.{handle_request, handle_pause}
use rtsp_server.Session.Handlers.Play.{handle_play, is_set}
use rtsp_server.Session.Handlers.Media.{handle_describe, open_media, escape_check, escapes}
use rtsp_server.Session.Handlers.Transitions.{Settled}
use rtsp_server.Session.Handlers.Transitions.Answers.{handle_request-Settled}
use rtsp_server.Session.Handlers.Clock.{Pacing, pause-play}
use rtsp_server.Session.Sending.{nal_list, send_nals}
use rtsp_server.Session.Pacer.{drain, stream}
use rtsp_server.Session.Pacer.AccessUnits.{unit_payloads, access_unit}
use rtsp_server.Session.Pacer.Packets.{Udp, send_nals_lem}
use rtsp_server.Session.Pacer.Drain.{Drains, drain_lem}
use rtsp_server.Session.Pacer.Keyframes.{Starts, stream-Starts}
use rtsp_server.Tests.World.{
  Frames, world, world_at, created, streaming, request, cseq_header, key_frame, plain_frame,
  connected_sender,
}

abbrev setup_headers : List (Bytes × Bytes)
setup_headers =
    (codes "cseq", codes "3")
    ∷ (codes "transport", codes "RTP/AVP;unicast;client_port=5000-5001")
    ∷ []

handle_request-Settled_example :
    Settled
      (request (codes "SETUP") setup_headers)
      (streaming playing)
      (handle_request world (request (codes "SETUP") setup_headers) (streaming playing))
handle_request-Settled_example =
    handle_request-Settled world (request (codes "SETUP") setup_headers) (streaming playing)

abbrev commands : List Request
commands = request (codes "OPTIONS") cseq_header ∷ request (codes "PAUSE") cseq_header ∷ []

drain_lem_example :
    Drains world commands (streaming playing) (drain world commands (streaming playing))
drain_lem_example = drain_lem world commands (streaming playing)

described_source :
    (state_of (handle_describe world (request (codes "DESCRIBE") cseq_header) created)).media_source
    ≡ some (key_frame ∷ [])
unfolding handle_describe open_media send_response bytes_eq url_path find find_from escape_check
    escapes push_outbox
described_source = refl

pause-play_example :
    Pacing
      (handle_play (world_at (pos 9)) (request (codes "PLAY") cseq_header) (
        handle_pause
          (world_at (pos 5))
          (request (codes "PAUSE") cseq_header)
          (record (streaming playing) { first_frame = false })))
      playing
      (pos 0 +ℤ (pos 9 -ℤ pos 5))
      (pos 0)
      false
      (some (plain_frame ∷ key_frame ∷ []))
      none
pause-play_example =
    pause-play (world_at (pos 5)) (world_at (pos 9)) (request (codes "PAUSE") cseq_header)
      (request (codes "PLAY") cseq_header) (record (streaming playing) { first_frame = false }) refl
      (unfold is_set in refl) refl

streaming-Udp : Udp (streaming playing)
streaming-Udp = record { datagrams = refl; connected = (connected_sender, refl) }

send_nals_lem_example :
    ((send_nals (nal_list (103 ∷ []) (104 ∷ []) key_frame) 0 (streaming playing)).video_sent
      ≡ access_unit 0 0 7 (unit_payloads (nal_list (103 ∷ []) (104 ∷ []) key_frame)))
    × ((send_nals (nal_list (103 ∷ []) (104 ∷ []) key_frame) 0 (streaming playing)).rtp_seq
        ≡ u16 (0 + length (unit_payloads (nal_list (103 ∷ []) (104 ∷ []) key_frame))))
send_nals_lem_example =
    send_nals_lem (103 ∷ []) (104 ∷ []) key_frame (streaming playing) streaming-Udp (omega arith)

stream-Starts_example :
    Starts world (streaming playing) (stream world 5 (pos 100) (streaming playing))
stream-Starts_example = stream-Starts world 5 (pos 100) (streaming playing) refl

-- A response of three bytes, of which the first has been written.
abbrev writing : Session Frames ℕ
writing = record created {
  wbuf = some (1 ∷ 2 ∷ 3 ∷ []);
  woff = 1;
  outbox = (4 ∷ 5 ∷ []) ∷ [];
  outbox_bytes = 2;
  epollout_armed = true;
  epoll_out = true;
}

writing-Inv : Inv writing
writing-Inv = record {
  counted = refl;
  armed_flag = refl;
  armed = inr refl;
  armed_buffer = inr refl;
}

on_writable_lem_example :
    Inv (on_writable (sent 2 ∷ sent 1 ∷ again ∷ []) writing).0
    × (unsent writing
        ≡ (on_writable (sent 2 ∷ sent 1 ∷ again ∷ []) writing).2
          ++ unsent (on_writable (sent 2 ∷ sent 1 ∷ again ∷ []) writing).0)
on_writable_lem_example =
    on_writable_lem (sent 2 ∷ sent 1 ∷ again ∷ []) writing writing-Inv (λ e. ground (arith, e))

abbrev two_frames : List (ℤ × Bytes)
two_frames = (pos 0, 8 ∷ 9 ∷ []) ∷ (pos 0, 7 ∷ []) ∷ []

push_frames-Cut_example : Cut 2 two_frames writing (push_frames two_frames writing)
push_frames-Cut_example =
    push_frames-Cut 2 two_frames writing (omega arith, (omega arith, omega arith)) (omega arith)

-- A client that has sent nothing but the first byte of a frame.
first_byte-NoWrap : (n : ℕ) → NoWrap (drop n (b'$' ∷ []))
unfolding find starts_with
first_byte-NoWrap zero i e = ground (arith, e)
first_byte-NoWrap (suc zero) i e = ground (arith, e)
first_byte-NoWrap (suc (suc n)) i e = ground (arith, e)

parse_loop_total_example : (r : Bytes × List Request) × (parse_loop 2 (b'$' ∷ []) [] ≡ some r)
parse_loop_total_example = parse_loop_total (b'$' ∷ []) [] (λ n l. first_byte-NoWrap n)

-- A header block of 42 bytes that announces a body of 2^64 - 42.
abbrev wrapping : Bytes
wrapping = 13 ∷ 10 ∷ (codes "Content-Length:18446744073709551574" ++ (13 ∷ 10 ∷ 13 ∷ 10 ∷ []))

wrapping-find : find blank_line (b'A' ∷ wrapping) ≡ some 38
unfolding find
wrapping-find = refl

wrapping-content_length : 38 + 4 + content_length (take (38 + 4) (b'A' ∷ wrapping)) ≡ size_mod
unfolding content_length find find_from stoul trim
wrapping-content_length = refl

content_length_hangs_example : parse_loop 7 (b'A' ∷ wrapping) [] ≡ none
content_length_hangs_example =
    content_length_hangs b'A' wrapping 38 (λ e. omega (arith, e)) wrapping-find
      wrapping-content_length 7 []
