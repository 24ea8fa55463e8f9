-- ===== src/Media/Source/Validity.antt =====
-- An open and a closed media source, and what opening and seeking make of them.
use rtsp_server.Prelude.{
  ℕ, ◌≡◌, ◌≢◌, ◌⊎◌, inl, inr, refl, sym, ◌∙◌, Bool, true, false, Option, none, some, if-elim,
}
use rtsp_server.Prelude.Bits.{Bytes}
use rtsp_server.Prelude.Numbers.{ℤ}
use rtsp_server.Media.Ffmpeg.{AvStream, Ffmpeg, video, audio}
use rtsp_server.Media.Source.{crashes, Source, Read, ended, is_some, close}
use rtsp_server.Media.Source.Seeking.{
  flush_filter, seek_open, seek, rewind, land_with, land, after_seek, sought, seek_at, seek_in,
  seek_from,
}
use rtsp_server.Media.Source.Opening.{
  is_avcc, describe_stream, filter_ready, init_filter, install_filter, open_audio, open_packets,
  open_video, open_container, open_path,
}
use rtsp_server.Media.Source.Rounds.{Opened}

module _ {D F B : Type 0} where
  -- No file is open, and no filter.
  pub record Closed (s : Source D F B) : Type 0 where
    pub no_container : s.fmt_ctx ≡ none
    pub no_packet : s.pkt ≡ false
    pub no_filter : s.bsf_ctx ≡ none

  abbrev pub IsValid : Source D F B → Type 0
  IsValid s = Opened s ⊎ Closed s

  -- True from `open` means an open file, and false a closed one.
  pub data Answers : Bool × Source D F B → Type 0 where
    yes_open : {s : Source D F B} → Opened s → Answers (true, s)
    not_open : {s : Source D F B} → Closed s → Answers (false, s)

  pub close-Closed : (s : Source D F B) → Closed (close s)
  unfolding close
  close-Closed s = record { no_container = refl; no_packet = refl; no_filter = refl }

pub ended_inj :
    {A S : Type 0} {a b : A} {s t : S} → ◌≡◌ {A = Read A S} (ended a s) (ended b t) → s ≡ t
ended_inj e = cc

module _ {D F B : Type 0} (ff : Ffmpeg D F B) where
  open_audio-Opened :
      (f : F) (i : Option ℕ) (s : Source D F B) → Opened s → Opened (open_audio ff f i s)
  unfolding open_audio
  open_audio-Opened f none s o = record {
    has_container = o.has_container;
    has_packet = o.has_packet;
    has_video = o.has_video;
  }
  open_audio-Opened f (some i) s o =
      if-elim Opened (ff.alloc_packet audio)
        (λ _. record {
          has_container = o.has_container;
          has_packet = o.has_packet;
          has_video = o.has_video;
        })
        (λ _. record {
          has_container = o.has_container;
          has_packet = o.has_packet;
          has_video = o.has_video;
        })

  -- While `open` is under way there is a container with a video stream, and no packet yet.
  record Starting (s : Source D F B) : Type 0 where
    container : is_some s.fmt_ctx ≡ true
    packet : s.pkt ≡ false
    video_found : is_some s.video_idx ≡ true

  data Goes : Bool × Source D F B → Type 0 where
    further : {s : Source D F B} → Starting s → Goes (true, s)
    stops : {s : Source D F B} → Closed s → Goes (false, s)

  filter_ready-Goes : (c : Option B) (s : Source D F B) → Starting s → Goes (filter_ready ff c s)
  unfolding filter_ready
  filter_ready-Goes none s o =
      stops (record { no_container = refl; no_packet = o.packet; no_filter = refl })
  filter_ready-Goes (some b) s o =
      further (record { container = o.container; packet = o.packet; video_found = o.video_found })

  init_filter-Goes :
      (st : AvStream) (c : Option B) (s : Source D F B)
      → s.bsf_ctx ≡ none
      → Starting s
      → Goes (init_filter ff st c s)
  unfolding init_filter
  init_filter-Goes st none s e o =
      stops (record { no_container = refl; no_packet = o.packet; no_filter = e })
  init_filter-Goes st (some b) s e o = filter_ready-Goes (ff.init_bsf st b) s o

  install_filter-Goes :
      (st : AvStream) (s : Source D F B)
      → s.bsf_ctx ≡ none
      → Starting s
      → Goes (install_filter ff st s)
  unfolding install_filter
  install_filter-Goes st s e o =
      if-elim Goes (is_avcc st.extradata) (λ _. init_filter-Goes st ff.make_bsf s e o)
        (λ _. further o)

  open_packets-Answers : (f : F) (r : Bool × Source D F B) → Goes r → Answers (open_packets ff f r)
  unfolding open_packets
  open_packets-Answers f (false, s) (stops c) = not_open c
  open_packets-Answers f (true, s) (further o) =
      if-elim Answers (ff.alloc_packet video)
        (λ _. yes_open (
          open_audio-Opened f (ff.find_best_stream audio f) _
            (record { has_container = o.container; has_packet = refl; has_video = o.video_found })))
        (λ _. not_open (close-Closed s))

  open_video-Answers :
      (f : F) (i : Option ℕ) (s : Source D F B)
      → is_some s.fmt_ctx ≡ true
      → s.pkt ≡ false
      → s.bsf_ctx ≡ none
      → Answers (open_video ff f i s)
  unfolding open_video describe_stream
  open_video-Answers f none s h p e =
      not_open (record { no_container = refl; no_packet = p; no_filter = e })
  open_video-Answers f (some i) s h p e =
      if-elim Answers (ff.streams f (some i)).is_h264
        (λ _. open_packets-Answers f _ (
          install_filter-Goes (ff.streams f (some i)) _ e
            (record { container = h; packet = p; video_found = refl })))
        (λ _. not_open (record { no_container = refl; no_packet = p; no_filter = e }))

  open_container-Answers :
      (o : Option F) (s : Source D F B) → Closed s → Answers (open_container ff o s)
  unfolding open_container
  open_container-Answers none s c = not_open c
  open_container-Answers (some f) s c = open_video-Answers _ _ _ refl c.no_packet c.no_filter

  pub open_path-Answers : (path : Bytes) (s : Source D F B) → Answers (open_path ff path s)
  unfolding open_path
  open_path-Answers path s = open_container-Answers (ff.open_input path) (close s) (close-Closed s)

  pub Answers-IsValid : (r : Bool × Source D F B) → Answers r → IsValid r.1
  Answers-IsValid (true, s) (yes_open o) = inl o
  Answers-IsValid (false, s) (not_open c) = inr c

  seek_open-IsValid :
      (n : ℕ) (o : Option F) (s : Source D F B)
      → s.fmt_ctx ≡ o
      → IsValid s
      → IsValid (seek_open ff n o s)
  unfolding seek_open flush_filter
  seek_open-IsValid n none s e v = v
  seek_open-IsValid n (some f) s e (inl o) =
      inl (record { has_container = refl; has_packet = o.has_packet; has_video = o.has_video })
  seek_open-IsValid n (some f) s e (inr c) =
      absurd (let q : some f ≡ none = sym e ∙ c.no_container in cc)

  pub seek-IsValid : (n : ℕ) (s : Source D F B) → IsValid s → IsValid (seek ff n s)
  unfolding seek
  seek-IsValid n s v = seek_open-IsValid n s.fmt_ctx s refl v

  land_with-Opened :
      (b : Bool) (z : ℤ) (f : F) (s0 s : Source D F B)
      → Opened s0
      → Opened s
      → Opened (sought s0 (land_with ff b z f s))
  unfolding land_with flush_filter
  land_with-Opened false z f s0 s o0 o = o0
  land_with-Opened true z f s0 s o0 o = record {
    has_container = refl;
    has_packet = o.has_packet;
    has_video = o.has_video;
  }

  after_seek-Opened :
      (z : ℤ) (r : Bool × F) (s0 s : Source D F B)
      → Opened s0
      → Opened s
      → Opened (sought s0 (after_seek ff z r s))
  unfolding after_seek land rewind flush_filter
  after_seek-Opened z (true, f) s0 s o0 o = land_with-Opened ff.alloc_probe z f s0 s o0 o
  after_seek-Opened z (false, f) s0 s o0 o = record {
    has_container = refl;
    has_packet = o.has_packet;
    has_video = o.has_video;
  }

  seek_at-IsValid :
      (neg : Bool) (secs : D) (f : F) (s : Source D F B)
      → Opened s
      → IsValid (sought s (seek_at ff neg secs f s))
  unfolding seek_at seek_in flush_filter
  seek_at-IsValid true secs f s o = seek-IsValid 0 s (inl o)
  seek_at-IsValid false secs f s o = inl (
      after_seek-Opened _ _ s _ o (record {
        has_container = o.has_container;
        has_packet = o.has_packet;
        has_video = o.has_video;
      }))

  pub seek_from-IsValid :
      (secs : D) (o : Option F) (s : Source D F B)
      → s.fmt_ctx ≡ o
      → IsValid s
      → IsValid (sought s (seek_from ff secs o s))
  unfolding seek_from
  seek_from-IsValid secs none s e v = seek-IsValid 0 s v
  seek_from-IsValid secs (some f) s e (inr c) =
      absurd (let q : some f ≡ none = sym e ∙ c.no_container in cc)
  seek_from-IsValid secs (some f) s e (inl o) = seek_at-IsValid _ secs f s o

  land_with-safe :
      (b : Bool) (z : ℤ) (f : F) (s : Source D F B) → b ≡ true → land_with ff b z f s ≢ crashes
  unfolding land_with
  land_with-safe true z f s h e = cc
  land_with-safe false z f s h e = cc

  after_seek-safe :
      (z : ℤ) (r : Bool × F) (s : Source D F B)
      → ff.alloc_probe ≡ true
      → after_seek ff z r s ≢ crashes
  unfolding after_seek land
  after_seek-safe z (true, f) s h = land_with-safe ff.alloc_probe z f s h
  after_seek-safe z (false, f) s h = λ e. cc

  seek_at-safe :
      (neg : Bool) (secs : D) (f : F) (s : Source D F B)
      → ff.alloc_probe ≡ true
      → seek_at ff neg secs f s ≢ crashes
  unfolding seek_at seek_in
  seek_at-safe true secs f s h = λ e. cc
  seek_at-safe false secs f s h = after_seek-safe _ _ _ h

  pub seek_from-safe :
      (secs : D) (o : Option F) (s : Source D F B)
      → ff.alloc_probe ≡ true
      → seek_from ff secs o s ≢ crashes
  unfolding seek_from
  seek_from-safe secs none s h = λ e. cc
  seek_from-safe secs (some f) s h = seek_at-safe _ secs f s h
