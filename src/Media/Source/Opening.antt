-- ===== src/Media/Source/Opening.antt =====
-- `MediaSource::open`: true, with the container open, or false.
use rtsp_server.Prelude.{
  ℕ, Bool, true, false, not, ◌&&◌, [], ◌∷◌, Option, none, some, leb, ◌==◌, length, if◌then◌else◌,
}
use rtsp_server.Prelude.Bits.{Bytes}
use rtsp_server.Prelude.Numbers.{pos, ltb_ℤ}
use rtsp_server.Sdp.{H264StreamInfo, no_audio}
use rtsp_server.Media.Extradata.{parse_extradata}
use rtsp_server.Media.Ffmpeg.{AvStream, video, audio, Ffmpeg}
use rtsp_server.Media.Source.{Source, close, is_no_pts, av_time_base}

-- AVCC extradata.
abbrev pub is_avcc : Bytes → Bool
is_avcc [] = false
is_avcc (c ∷ s) = leb 4 (length (c ∷ s)) && c == 1

-- The audio's configuration, if there are at least two bytes of it.
abbrev pub asc_of : Bytes → Bytes → Bytes
asc_of old extra = if leb 2 (length extra) then extra else old

module _ {D F B : Type 0} (ff : Ffmpeg D F B) where
  abbrev with_parameters : Bytes × Bytes → H264StreamInfo D → H264StreamInfo D
  with_parameters p info = record info { sps = p.0; pps = p.1 }

  -- Dimensions, rate, duration and parameter sets.
  unfoldable pub describe_stream : F → AvStream → Source D F B → Source D F B
  describe_stream f st s =
      let d = ff.doubles in
      let info = s.stream_info in
      let rate = st.avg_frame_rate in
      let parsed = parse_extradata (info.sps, info.pps) st.extradata in
      record s {
        time_base = st.time_base;
        stream_info = with_parameters parsed.0 (record info {
          width = st.width;
          height = st.height;
          frame_rate =
              if not (rate.den == 0) && not (rate.num == 0)
              then d.to_float (ff.q2d rate)
              else info.frame_rate;
          duration_secs =
              if not (is_no_pts (ff.duration f)) && ltb_ℤ (pos 0) (ff.duration f)
              then d.div (d.of_i64 (ff.duration f)) (d.of_u32 av_time_base)
              else info.duration_secs;
        });
      }

  -- After `av_bsf_init`.
  unfoldable pub filter_ready : Option B → Source D F B → Bool × Source D F B
  filter_ready none s = (false, record s { bsf_ctx = none; fmt_ctx = none })
  filter_ready (some b) s = (true, record s { bsf_ctx = some b })

  -- The filter to Annex B.
  unfoldable pub init_filter : AvStream → Option B → Source D F B → Bool × Source D F B
  init_filter st none s = (false, record s { fmt_ctx = none })
  init_filter st (some b) s = filter_ready (ff.init_bsf st b) s

  unfoldable pub install_filter : AvStream → Source D F B → Bool × Source D F B
  install_filter st s = if is_avcc st.extradata then init_filter st ff.make_bsf s else (true, s)

  unfoldable pub open_audio : F → Option ℕ → Source D F B → Source D F B
  open_audio f none s = record s { audio_idx = none }
  open_audio f (some i) s =
      let st = ff.streams f (some i) in
      let s' = record s { audio_time_base = st.time_base; audio_pkt = ff.alloc_packet audio } in
      if ff.alloc_packet audio
      then record s' {
        audio_idx = some i;
        audio_info = record {
          present = true;
          sample_rate = st.sample_rate;
          channels = st.channels;
          asc = asc_of s.audio_info.asc st.extradata;
        };
      }
      else record s' { audio_idx = none; audio_info = no_audio }

  -- From the packet on.
  unfoldable pub open_packets : F → Bool × Source D F B → Bool × Source D F B
  open_packets f (false, s) = (false, s)
  open_packets f (true, s) =
      if ff.alloc_packet video
      then (true, open_audio f (ff.find_best_stream audio f) (record s { pkt = true }))
      else (false, close s)

  -- With the index of the video stream.
  unfoldable pub open_video : F → Option ℕ → Source D F B → Bool × Source D F B
  open_video f none s = (false, record s { video_idx = none; fmt_ctx = none })
  open_video f (some i) s =
      let st = ff.streams f (some i) in
      let s' = record s { video_idx = some i } in
      if st.is_h264
      then open_packets f (install_filter st (describe_stream f st s'))
      else (false, record s' { fmt_ctx = none })

  -- With the container, on the object after `close`.
  unfoldable pub open_container : Option F → Source D F B → Bool × Source D F B
  open_container none s = (false, s)
  open_container (some f) s =
      let f' = ff.find_stream_info f in
      open_video f' (ff.find_best_stream video f') (record s { fmt_ctx = some f' })

  unfoldable pub open_path : Bytes → Source D F B → Bool × Source D F B
  open_path path s = open_container (ff.open_input path) (close s)
