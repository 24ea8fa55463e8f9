-- ===== src/Session/Pacer.antt =====
-- `pacerTick`: the commands that wait, and then one video frame and the audio that is due.
-- The tick and `Clock::now()` have one clock, but the tick's `now` is read before it starts.
pub mod AccessUnits
pub mod Packets
pub mod Drain
pub mod Keyframes
pub mod Audio
pub mod Thrown
use rtsp_server.Prelude.{
  ℕ, zero, suc, ◌+◌, Bool, true, false, not, ◌&&◌, ◌||◌, [], ◌∷◌, List, none, some, ltb, ◌==◌,
  if◌then◌else◌,
}
use rtsp_server.Prelude.Bits.{u32, sub32}
use rtsp_server.Prelude.Text.{codes, bytes_eq}
use rtsp_server.Prelude.Numbers.{ℤ, pos, ◌+ℤ◌, ◌-ℤ◌, ltb_ℤ}
use rtsp_server.Rtsp.Request.{Request}
use rtsp_server.Media.Packets.{VideoPacket, AudioPacket}
use rtsp_server.Session.State.{State, playing, paused, Outcome, returned, threw, Session, Env}
use rtsp_server.Session.Sending.{nal_list, is_empty, value_or, send_nals, send_one_audio}
use rtsp_server.Session.Handlers.{handle_request}
use rtsp_server.Session.Handlers.Setup.{has_source}
use rtsp_server.Session.Handlers.Play.{is_set}

-- Whether the rest of the tick is left out.
pub data Step (S : Type 0) : Type 0 where
  ends : S → Step S
  goes_on : S → Step S

module _ {M D : Type 0} (env : Env M D) where
  -- 1. The commands, oldest first; true after TEARDOWN, which ends the tick.
  unfoldable pub drain : List Request → Session M D → Outcome (Session M D × Bool)
  drain [] s = returned (s, false)
  drain (req ∷ rest) s = elim (handle_request env req (record s { cmd_queue = rest })) [
    | threw s' ↦ threw (s', true)
    | returned s' ↦ elim (bytes_eq req.method (codes "TEARDOWN")) [
      | true ↦ returned (s', true)
      | false ↦ drain rest s'
    ]
  ]

  -- 2. What is done when nothing plays.
  unfoldable pub idle : ℤ → State → Session M D → Session M D
  idle now paused s = record s { pause_start = if is_set s.pause_start then s.pause_start else now }
  idle now _ s = record s { pending_vp = none }

  unfoldable pub streams : State → Session M D → Bool
  streams playing s = has_source env s && s.transport_ready
  streams _ s = false

  -- 3. and 4. The clock after a pause, and a frame from before a seek.
  unfoldable pub settle : ℤ → Session M D → Session M D
  settle now s =
      let shifted = s.wall_start +ℤ (now -ℤ s.pause_start) in
      record s {
        wall_start = if is_set s.pause_start && not s.first_frame then shifted else s.wall_start;
        pause_start = pos 0;
        pending_vp = if s.first_frame then none else s.pending_vp;
      }

  -- 4b. The gate on the next key frame.
  unfoldable pub gate : Session M D → Step (Session M D)
  gate s = elim s.resume_waiting_for_idr [
    | false ↦ goes_on s
    | true ↦ elim s.pending_vp [
      | none ↦ goes_on s
      | some vp ↦
          if vp.is_key_frame
          then goes_on (record s { resume_waiting_for_idr = false })
          else ends (record s { pending_vp = none })
    ]
  ]

  -- The end of the stream: the source starts again, with its timestamps going on.
  unfoldable pub loop_back : M → Session M D → Session M D
  loop_back m s = record s {
    media_source = some (env.seek (u32 (s.last_video_rtp + value_or s.last_frame_dur)) m);
    first_frame = true;
    loop_video_offset = 0;
    audio_loop_offset = 0;
    last_video_rtp = 0;
    resume_waiting_for_idr = false;
    npt_end = env.doubles.minus_one;
    pending_ap = none;
  }

  unfoldable pub clock_rate : D
  clock_rate = env.doubles.of_u32 90000

  unfoldable pub past_end : VideoPacket → Session M D → Bool
  past_end vp s =
      let d = env.doubles in
      d.lt d.zero_d s.npt_end && d.le s.npt_end (d.div (d.of_u32 vp.rtp_timestamp) clock_rate)

  -- What becomes of a frame that was read.
  unfoldable pub admit : VideoPacket → Session M D → Step (Session M D)
  admit vp s =
      let s' = record s { resume_waiting_for_idr = false } in
      if is_empty vp.nals || ((s.first_frame || s.resume_waiting_for_idr) && not vp.is_key_frame)
      then ends s
      else if past_end vp s'
      then ends (record s' { state = paused })
      else goes_on (record s' { pending_vp = some vp })

  -- 5. A frame to send: the one that is held, or the next of the source.
  unfoldable pub read_frame : M → Session M D → Step (Session M D)
  read_frame m s = elim s.pending_vp [
    | some vp ↦ goes_on s
    | none ↦
        let r = env.read_packet m in
        elim r.0 [
          | none ↦ ends (loop_back r.1 s)
          | some vp ↦ admit vp (record s { media_source = some r.1 })
        ]
  ]

  -- 6. The anchor of the clock.
  unfoldable pub anchor : ℤ → M → VideoPacket → Session M D → Session M D
  anchor now m vp s =
      let d = env.doubles in
      let rate = (env.audio_info m).sample_rate in
      let offset =
        d.to_u32 (d.mul (d.div (d.of_u32 vp.rtp_timestamp) clock_rate) (d.of_u32 rate)) in
      if s.first_frame
      then record s {
        wall_start = now;
        loop_video_offset = vp.rtp_timestamp;
        audio_loop_offset = if rate == 0 then s.audio_loop_offset else offset;
        first_frame = false;
      }
      else s

  -- 7. `media_secs`, and the time at which the frame is due.
  unfoldable pub media_secs : VideoPacket → Session M D → D
  media_secs vp s =
      env.doubles.div (env.doubles.of_u32 (sub32 vp.rtp_timestamp s.loop_video_offset)) clock_rate

  unfoldable pub send_time : VideoPacket → Session M D → ℤ
  send_time vp s = s.wall_start +ℤ env.doubles.to_ns (media_secs vp s)

  -- 8b. What the session knows of the frame that was sent.
  unfoldable pub track : M → VideoPacket → Session M D → Session M D
  track m vp s =
      let d = env.doubles in
      let npt = d.add (d.div (d.of_u32 (env.rtp_offset m)) clock_rate) (media_secs vp s) in
      record s {
        last_keyframe_npt = if vp.is_key_frame then npt else s.last_keyframe_npt;
        last_npt = npt;
        last_frame_dur =
            if not (s.last_video_rtp == 0) && ltb s.last_video_rtp vp.rtp_timestamp
            then some (sub32 vp.rtp_timestamp s.last_video_rtp)
            else s.last_frame_dur;
        last_video_rtp = vp.rtp_timestamp;
        pending_vp = none;
      }

  -- 9. Audio.
  unfoldable pub audio_due : ℤ → ℕ → AudioPacket → Session M D → Bool
  audio_due now rate ap s =
      let d = env.doubles in
      let secs = d.div (d.of_u32 (sub32 ap.rtp_timestamp s.audio_loop_offset)) (d.of_u32 rate) in
      not (ltb_ℤ now (s.wall_start +ℤ d.to_ns secs))

  -- The loop over the source's audio packets, one for each unit of fuel.
  unfoldable pub audio_loop : ℕ → ℤ → ℕ → M → Session M D → Session M D
  audio_loop zero now rate m s = record s { media_source = some m }
  audio_loop (suc fuel) now rate m s =
      let r = env.read_audio_packet m in
      elim r.0 [
        | none ↦ record s { media_source = some r.1 }
        | some ap ↦ elim (audio_due now rate ap s) [
          | false ↦ record s { media_source = some r.1; pending_ap = some ap }
          | true ↦ audio_loop fuel now rate r.1 (send_one_audio ap s)
        ]
      ]

  unfoldable pub held_audio : ℤ → ℕ → Session M D → Session M D
  held_audio now rate s = elim s.pending_ap [
    | none ↦ s
    | some ap ↦
        if audio_due now rate ap s then record (send_one_audio ap s) { pending_ap = none } else s
  ]

  unfoldable pub send_audio : ℕ → ℤ → M → Session M D → Session M D
  send_audio fuel now m s =
      let rate = (env.audio_info m).sample_rate in
      let s' = held_audio now rate s in
      if s.audio_transport_ready && not (rate == 0)
      then elim s'.pending_ap [ some ap ↦ s' | none ↦ audio_loop fuel now rate m s' ]
      else s

  -- 8. The frame, when it is due.
  unfoldable pub send_frame : ℕ → ℤ → M → VideoPacket → Session M D → Session M D
  send_frame fuel now m vp s =
      let info = env.stream_info m in
      let sent = send_nals (nal_list info.sps info.pps vp) vp.rtp_timestamp s in
      send_audio fuel now m (track m vp sent)

  unfoldable pub pace : ℕ → ℤ → M → VideoPacket → Session M D → Session M D
  pace fuel now m vp s =
      let s' = anchor now m vp s in
      if ltb_ℤ now (send_time vp s') then s' else send_frame fuel now m vp s'

  -- 5. to 9., with the frame that is held.
  unfoldable pub pace_held : ℕ → ℤ → Session M D → Session M D
  pace_held fuel now s = elim s.media_source [
    | none ↦ s
    | some m ↦ elim s.pending_vp [ none ↦ s | some vp ↦ pace fuel now m vp s ]
  ]

  unfoldable pub after_read : ℕ → ℤ → Step (Session M D) → Session M D
  after_read fuel now (ends s) = s
  after_read fuel now (goes_on s) = pace_held fuel now s

  unfoldable pub after_gate : ℕ → ℤ → M → Step (Session M D) → Session M D
  after_gate fuel now m (ends s) = s
  after_gate fuel now m (goes_on s) = after_read fuel now (read_frame m s)

  -- 2. to 9.
  unfoldable pub stream : ℕ → ℤ → Session M D → Session M D
  stream fuel now s =
      if streams s.state s
      then elim s.media_source [ none ↦ s | some m ↦ after_gate fuel now m (gate (settle now s)) ]
      else idle now s.state s

  abbrev pub after_drain : ℕ → ℤ → Outcome (Session M D × Bool) → Outcome (Session M D)
  after_drain fuel now (threw (s, b)) = threw s
  after_drain fuel now (returned (s, true)) = returned s
  after_drain fuel now (returned (s, false)) = returned (stream fuel now s)

  -- `fuel` bounds the audio packets of one tick.
  unfoldable pub pacer_tick : ℕ → ℤ → Session M D → Outcome (Session M D)
  pacer_tick fuel now s = after_drain fuel now (drain s.cmd_queue s)
