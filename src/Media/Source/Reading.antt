-- ===== src/Media/Source/Reading.antt =====
-- src/media/MediaSource.cpp: `readPacket` and `peekNextVideoRTPTimestamp`.
use rtsp_server.Prelude.{
  ℕ, zero, suc, ◌+◌, Bool, true, [], ◌∷◌, ◌++◌, Option, none, some, if◌then◌else◌,
}
use rtsp_server.Prelude.Bits.{u32}
use rtsp_server.Prelude.Numbers.{ℤ, ◌-ℤ◌}
use rtsp_server.Media.AnnexB.{split_view}
use rtsp_server.Media.Packets.{VideoPacket, AudioPacket}
use rtsp_server.Media.Ffmpeg.{AvPacket, Received, packet, needs_input, at_end, failed, Ffmpeg}
use rtsp_server.Media.Source.{
  Source, Read, ended, runs_on, crashes, Round, ends, goes_on, fails, is_no_pts, pts_of, to_u32,
  views_of, is_index, hz,
}

module _ {D F B : Type 0} (ff : Ffmpeg D F B) where
  unfoldable pub to_rtp_timestamp : ℤ → Source D F B → ℕ
  to_rtp_timestamp pts s = u32 (to_u32 (ff.rescale pts s.time_base (hz 90000)) + s.rtp_offset)

  -- The frame, from the clone of `pkt_`; none without the memory.
  unfoldable pub frame_of : ℤ → Bool → Option AvPacket → Source D F B → Option VideoPacket
  frame_of pts key none s = none
  frame_of pts key (some q) s = some (record {
    nals = views_of q.payload (split_view q.payload);
    rtp_timestamp = to_rtp_timestamp (pts -ℤ s.first_pts) s;
    is_key_frame = key;
  })

  -- The first time stamp after an opening or a seek is kept.
  unfoldable pub anchor_pts : ℤ → Source D F B → Source D F B
  anchor_pts pts s = record s { first_pts = if is_no_pts s.first_pts then pts else s.first_pts }

  -- `processPacket`, of the packet in `pkt_`.
  unfoldable pub process_packet : AvPacket → Source D F B → Option VideoPacket × Source D F B
  process_packet p s =
      let s' = anchor_pts (pts_of p) s in (frame_of (pts_of p) p.is_key (ff.clone_packet p) s', s')

  -- The packet that is collected of an audio frame.
  unfoldable pub audio_packet : AvPacket → Source D F B → AudioPacket
  audio_packet p s =
      let ts =
        ff.rescale (pts_of p -ℤ s.audio_first_pts) s.audio_time_base
          (hz s.audio_info.sample_rate) in
      record { payload = p.payload; rtp_timestamp = u32 (to_u32 ts + s.audio_rtp_offset) }

  unfoldable pub collect : AvPacket → Source D F B → Source D F B
  collect p s =
      let s' = record s {
        audio_first_pts = if is_no_pts s.audio_first_pts then pts_of p else s.audio_first_pts;
      } in
      record s' { audio_queue = s.audio_queue ++ audio_packet p s' ∷ [] }

  -- A frame that is not of the video.
  unfoldable pub pass_over : AvPacket → Source D F B → Source D F B
  pass_over p s = if is_index s.audio_idx p.stream_index then collect p s else s

  -- A frame of the video: to the filter, if there is one.
  unfoldable pub take_frame : AvPacket → Option B → Source D F B → Round (Source D F B)
  take_frame p none s = ends (process_packet p s).0 (process_packet p s).1
  take_frame p (some b) s =
      let r = ff.send_packet (some p) b in
      let s' = record s { bsf_ctx = some r.1 } in if r.0 then goes_on s' else ends none s'

  -- The end of the container, where the filter is flushed.
  unfoldable pub at_container_end : Option B → Source D F B → Round (Source D F B)
  at_container_end none s = ends none s
  at_container_end (some b) s =
      goes_on (record s { bsf_ctx = some (ff.send_packet none b).1; bsf_at_eof = true })

  -- What follows `av_read_frame`.
  unfoldable pub after_frame : Option AvPacket → Source D F B → Round (Source D F B)
  after_frame none s = at_container_end s.bsf_ctx s
  after_frame (some p) s =
      if is_index s.video_idx p.stream_index
      then take_frame p s.bsf_ctx s
      else goes_on (pass_over p s)

  unfoldable pub demux : Option F → Source D F B → Round (Source D F B)
  demux none s = fails
  demux (some f) s = let r = ff.read_frame f in after_frame r.0 (record s { fmt_ctx = some r.1 })

  unfoldable pub after_receive : Received → Source D F B → Round (Source D F B)
  after_receive (packet p) s = ends (process_packet p s).0 (process_packet p s).1
  after_receive at_end s = ends none s
  after_receive failed s = ends none s
  after_receive needs_input s = if s.bsf_at_eof then ends none s else demux s.fmt_ctx s

  -- The loop's body, with the filter.
  unfoldable pub round_of : Option B → Source D F B → Round (Source D F B)
  round_of none s = demux s.fmt_ctx s
  round_of (some b) s =
      let r = ff.receive_packet b in after_receive r.0 (record s { bsf_ctx = some r.1 })

  unfoldable pub round : Source D F B → Round (Source D F B)
  round s = round_of s.bsf_ctx s

  -- The loop: one round for each unit of fuel.
  unfoldable pub read_loop : ℕ → Source D F B → Read (Option VideoPacket) (Source D F B)
  read_loop zero s = runs_on
  read_loop (suc fuel) s = elim (round s) [
    | fails ↦ crashes
    | ends o s' ↦ ended o s'
    | goes_on s' ↦ read_loop fuel s'
  ]

  -- With what was prefetched.
  unfoldable pub read_from :
      ℕ → Option VideoPacket → Source D F B → Read (Option VideoPacket) (Source D F B)
  read_from fuel (some vp) s = ended (some vp) (record s { prefetch_vp = none })
  read_from fuel none s = if s.pkt then read_loop fuel s else ended none s

  unfoldable pub read_packet : ℕ → Source D F B → Read (Option VideoPacket) (Source D F B)
  read_packet fuel s = read_from fuel s.prefetch_vp s

  -- The frame that was read is kept.
  unfoldable pub keep_frame : Read (Option VideoPacket) (Source D F B) → Read ℕ (Source D F B)
  keep_frame (ended none s) = ended 0 s
  keep_frame (ended (some vp) s) = ended vp.rtp_timestamp (record s { prefetch_vp = some vp })
  keep_frame runs_on = runs_on
  keep_frame crashes = crashes

  unfoldable pub peek_open : ℕ → Option VideoPacket → Source D F B → Read ℕ (Source D F B)
  peek_open fuel (some vp) s = ended vp.rtp_timestamp s
  peek_open fuel none s = keep_frame (read_packet fuel s)

  unfoldable pub peek_from : ℕ → Option F → Source D F B → Read ℕ (Source D F B)
  peek_from fuel none s = ended 0 s
  peek_from fuel (some f) s = peek_open fuel s.prefetch_vp s

  unfoldable pub peek_next : ℕ → Source D F B → Read ℕ (Source D F B)
  peek_next fuel s = peek_from fuel s.fmt_ctx s
