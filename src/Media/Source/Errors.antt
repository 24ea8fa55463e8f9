-- ===== src/Media/Source/Errors.antt =====
-- What a media source does after `open` has failed.
use rtsp_server.Prelude.{
  ℕ, ◌≡◌, refl, ap, ◌∙◌, Bool, true, false, Option, none, some, if◌then◌else◌, if-elim,
}
use rtsp_server.Prelude.Bits.{Bytes}
use rtsp_server.Media.Packets.{VideoPacket}
use rtsp_server.Media.Ffmpeg.{AvStream, Ffmpeg, video, audio}
use rtsp_server.Media.Source.{Source, ended, close}
use rtsp_server.Media.Source.Reading.{read_loop, read_from, read_packet, peek_from, peek_next}
use rtsp_server.Media.Source.Seeking.{seek_open, seek, seek_from, seek_to_seconds}
use rtsp_server.Media.Source.Opening.{
  is_avcc, describe_stream, filter_ready, init_filter, install_filter, open_audio, open_packets,
  open_video, open_container, open_path,
}
use rtsp_server.Media.Source.Validity.{Closed, Answers, yes_open, not_open, open_path-Answers}

module _ {D F B : Type 0} (ff : Ffmpeg D F B) where
  -- A kept frame stays kept.
  abbrev Keeps : Option VideoPacket → Source D F B → Type 0
  Keeps p t = t.prefetch_vp ≡ p

  open_audio-Keeps :
      (f : F) (i : Option ℕ) (s : Source D F B) → Keeps s.prefetch_vp (open_audio ff f i s)
  unfolding open_audio
  open_audio-Keeps f none s = refl
  open_audio-Keeps f (some i) s =
      if-elim (Keeps s.prefetch_vp) (ff.alloc_packet audio) (λ _. refl) (λ _. refl)

  filter_ready-Keeps :
      (c : Option B) (s : Source D F B) → Keeps s.prefetch_vp (filter_ready ff c s).1
  unfolding filter_ready
  filter_ready-Keeps none s = refl
  filter_ready-Keeps (some b) s = refl

  init_filter-Keeps :
      (st : AvStream) (c : Option B) (s : Source D F B)
      → Keeps s.prefetch_vp (init_filter ff st c s).1
  unfolding init_filter
  init_filter-Keeps st none s = refl
  init_filter-Keeps st (some b) s = filter_ready-Keeps (ff.init_bsf st b) s

  abbrev Pair : Type 0
  Pair = Bool × Source D F B

  install_filter-Keeps :
      (st : AvStream) (s : Source D F B) → Keeps s.prefetch_vp (install_filter ff st s).1
  unfolding install_filter
  install_filter-Keeps st s =
      if-elim (λ (r : Pair). r.1.prefetch_vp ≡ s.prefetch_vp) {x = init_filter ff st ff.make_bsf s}
        {y = (true, s)} (is_avcc st.extradata) (λ _. init_filter-Keeps st ff.make_bsf s) (λ _. refl)

  open_packets-Keeps : (f : F) (r : Pair) → Keeps r.1.prefetch_vp (open_packets ff f r).1
  unfolding open_packets close
  open_packets-Keeps f (false, s) = refl
  open_packets-Keeps f (true, s) =
      if-elim (λ (r : Pair). r.1.prefetch_vp ≡ s.prefetch_vp)
        {x = (true, open_audio ff f (ff.find_best_stream audio f) (record s { pkt = true }))}
        {y = (false, close s)} (ff.alloc_packet video)
        (λ _. open_audio-Keeps f (ff.find_best_stream audio f) (record s { pkt = true }))
        (λ _. refl)

  open_video-Keeps :
      (f : F) (i : Option ℕ) (s : Source D F B) → Keeps s.prefetch_vp (open_video ff f i s).1
  unfolding open_video describe_stream
  open_video-Keeps f none s = refl
  open_video-Keeps f (some i) s =
      let st = ff.streams f (some i) in
      let found = record s { video_idx = some i } in
      if-elim (λ (r : Pair). r.1.prefetch_vp ≡ s.prefetch_vp)
        {x = open_packets ff f (install_filter ff st (describe_stream ff f st found))}
        {y = (false, record found { fmt_ctx = none })} st.is_h264
        (λ _.
          open_packets-Keeps f (install_filter ff st (describe_stream ff f st found))
          ∙ install_filter-Keeps st (describe_stream ff f st found))
        (λ _. refl)

  open_path-Keeps : (path : Bytes) (s : Source D F B) → Keeps s.prefetch_vp (open_path ff path s).1
  unfolding open_path close
  open_path-Keeps path s = by_container (ff.open_input path)
    where
      by_container : (o : Option F) → Keeps s.prefetch_vp (open_container ff o (close s)).1
      by_container none = unfold open_container in refl
      by_container (some f) =
          unfold open_container in
          open_video-Keeps (ff.find_stream_info f) _
            (record (close s) { fmt_ctx = some (ff.find_stream_info f) })

  -- All that the session can ask of a source that is not open, with the answers.
  pub record Inert (s : Source D F B) : Type 0 where
    pub no_frame : (fuel : ℕ) → read_packet ff fuel s ≡ ended none s
    pub no_time : (fuel : ℕ) → peek_next ff fuel s ≡ ended 0 s
    pub no_seek : (n : ℕ) → seek ff n s ≡ s
    pub no_position : (secs : D) → seek_to_seconds ff secs s ≡ ended ff.doubles.zero_d s

  seek-Closed : (n : ℕ) (s : Source D F B) → Closed s → seek ff n s ≡ s
  unfolding seek seek_open
  seek-Closed n s c = ap (λ o. seek_open ff n o s) c.no_container

  seek_to_seconds-Closed :
      (secs : D) (s : Source D F B)
      → Closed s
      → seek_to_seconds ff secs s ≡ ended ff.doubles.zero_d s
  unfolding seek_to_seconds seek_from
  seek_to_seconds-Closed secs s c =
      ap (λ o. seek_from ff secs o s) c.no_container
      ∙ ap (λ (t : Source D F B). ended ff.doubles.zero_d t) (seek-Closed 0 s c)

  read_packet-Closed :
      (fuel : ℕ) (s : Source D F B)
      → Closed s
      → s.prefetch_vp ≡ none
      → read_packet ff fuel s ≡ ended none s
  unfolding read_packet read_from
  read_packet-Closed fuel s c p =
      ap (λ o. read_from ff fuel o s) p
      ∙ ap (λ b. if b then read_loop ff fuel s else ended none s) c.no_packet

  peek_next-Closed : (fuel : ℕ) (s : Source D F B) → Closed s → peek_next ff fuel s ≡ ended 0 s
  unfolding peek_next peek_from
  peek_next-Closed fuel s c = ap (λ o. peek_from ff fuel o s) c.no_container

  Closed-Inert : (s : Source D F B) → Closed s → s.prefetch_vp ≡ none → Inert s
  Closed-Inert s c p = record {
    no_frame = λ fuel. read_packet-Closed fuel s c p;
    no_time = λ fuel. peek_next-Closed fuel s c;
    no_seek = λ n. seek-Closed n s c;
    no_position = λ secs. seek_to_seconds-Closed secs s c;
  }

  Answers-Closed : {r : Pair} → Answers r → r.0 ≡ false → Closed r.1
  Answers-Closed (yes_open o) e = absurd (cc)
  Answers-Closed (not_open c) e = c

  -- After `open` has failed, of a source that holds no frame from before, `readPacket` gives nothing,
  -- the peek gives 0, and no seek changes anything.
  pub failed_open :
      (path : Bytes) (s : Source D F B)
      → s.prefetch_vp ≡ none
      → (open_path ff path s).0 ≡ false
      → Inert (open_path ff path s).1
  failed_open path s p e =
      Closed-Inert _ (Answers-Closed (open_path-Answers ff path s) e) (open_path-Keeps path s ∙ p)
