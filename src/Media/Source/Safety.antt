-- ===== src/Media/Source/Safety.antt =====
-- Whatever is called on a media source, and in which order, it is open or closed, and no read fails.
use rtsp_server.Prelude.{
  ℕ, ◌≡◌, ◌≢◌, inl, inr, refl, sym, ap, subst, ◌∙◌, true, false, [], ◌∷◌, List, Option, none, some,
  if-elim,
}
use rtsp_server.Prelude.Bits.{Bytes}
use rtsp_server.Media.Packets.{VideoPacket, AudioPacket}
use rtsp_server.Media.Ffmpeg.{Ffmpeg}
use rtsp_server.Media.Source.{
  Source, create, Read, ended, runs_on, crashes, is_some, close, read_audio_packet, dequeue_audio,
}
use rtsp_server.Media.Source.Reading.{
  read_from, read_packet, read_loop, keep_frame, peek_open, peek_from, peek_next,
}
use rtsp_server.Media.Source.Seeking.{seek, seek_to_seconds, sought, adjust_rtp_offset}
use rtsp_server.Media.Source.Opening.{open_path}
use rtsp_server.Media.Source.Rounds.{Opened}
use rtsp_server.Media.Source.Reads.{Returns, returns, waits, Reads-Opened, read_loop-Returns}
use rtsp_server.Media.Source.Validity.{
  IsValid, close-Closed, ended_inj, open_path-Answers, Answers-IsValid, seek-IsValid,
  seek_from-IsValid, seek_from-safe,
}

module _ {D F B : Type 0} (ff : Ffmpeg D F B) where
  -- A call that reads ends with a source that is open or closed, if it ends, and not at a null pointer.
  pub data Safely {A : Type 0} : Read A (Source D F B) → Type 0 where
    with_result : {a : A} {s : Source D F B} → IsValid s → Safely (ended a s)
    unfinished : Safely runs_on

  Returns-Safely :
      {s : Source D F B} {r : Read (Option VideoPacket) (Source D F B)}
      → Opened s
      → Returns ff s r
      → Safely r
  Returns-Safely o (returns r) = with_result (inl (Reads-Opened ff r o))
  Returns-Safely o waits = unfinished

  read_from-Safely :
      (fuel : ℕ) (p : Option VideoPacket) (s : Source D F B)
      → IsValid s
      → Safely (read_from ff fuel p s)
  unfolding read_from
  read_from-Safely fuel (some vp) s (inl o) = with_result (
      inl (record {
        has_container = o.has_container;
        has_packet = o.has_packet;
        has_video = o.has_video;
      }))
  read_from-Safely fuel (some vp) s (inr c) = with_result (
      inr (record {
        no_container = c.no_container;
        no_packet = c.no_packet;
        no_filter = c.no_filter;
      }))
  read_from-Safely fuel none s v = if-elim Safely s.pkt (λ h. by_loop h v) (λ _. with_result v)
    where
      by_loop : s.pkt ≡ true → IsValid s → Safely (read_loop ff fuel s)
      by_loop h (inl o) = Returns-Safely o (read_loop-Returns ff fuel s o)
      by_loop h (inr c) = absurd (let q : true ≡ false = sym h ∙ c.no_packet in cc)

  pub read_packet-Safely :
      (fuel : ℕ) (s : Source D F B) → IsValid s → Safely (read_packet ff fuel s)
  unfolding read_packet
  read_packet-Safely fuel s v = read_from-Safely fuel s.prefetch_vp s v

  keep_frame-Safely :
      (r : Read (Option VideoPacket) (Source D F B)) → Safely r → Safely (keep_frame ff r)
  unfolding keep_frame
  keep_frame-Safely (ended none s) (with_result v) = with_result v
  keep_frame-Safely (ended (some vp) s) (with_result (inl o)) = with_result (
      inl (record {
        has_container = o.has_container;
        has_packet = o.has_packet;
        has_video = o.has_video;
      }))
  keep_frame-Safely (ended (some vp) s) (with_result (inr c)) = with_result (
      inr (record {
        no_container = c.no_container;
        no_packet = c.no_packet;
        no_filter = c.no_filter;
      }))
  keep_frame-Safely runs_on unfinished = unfinished
  keep_frame-Safely crashes x = elim x [ ]

  peek_open-Safely :
      (fuel : ℕ) (p : Option VideoPacket) (s : Source D F B)
      → IsValid s
      → Safely (peek_open ff fuel p s)
  unfolding peek_open
  peek_open-Safely fuel (some vp) s v = with_result v
  peek_open-Safely fuel none s v =
      keep_frame-Safely (read_packet ff fuel s) (read_packet-Safely fuel s v)

  peek_from-Safely :
      (fuel : ℕ) (o : Option F) (s : Source D F B) → IsValid s → Safely (peek_from ff fuel o s)
  unfolding peek_from
  peek_from-Safely fuel none s v = with_result v
  peek_from-Safely fuel (some f) s v = peek_open-Safely fuel s.prefetch_vp s v

  pub peek_next-Safely : (fuel : ℕ) (s : Source D F B) → IsValid s → Safely (peek_next ff fuel s)
  unfolding peek_next
  peek_next-Safely fuel s v = peek_from-Safely fuel s.fmt_ctx s v

  -- One call of a method that changes the object.
  pub data Call (s : Source D F B) : Source D F B → Type 0 where
    opens : (path : Bytes) → Call s (open_path ff path s).1
    closes : Call s (close s)
    reads :
        (fuel : ℕ) {o : Option VideoPacket} {t : Source D F B}
        → read_packet ff fuel s ≡ ended o t
        → Call s t
    peeks : (fuel : ℕ) {n : ℕ} {t : Source D F B} → peek_next ff fuel s ≡ ended n t → Call s t
    reads_audio : Call s (read_audio_packet s).1
    seeks : (n : ℕ) → Call s (seek ff n s)
    seeks_to : (secs : D) → Call s (sought s (seek_to_seconds ff secs s))
    adjusts : (n : ℕ) → Call s (adjust_rtp_offset ff n s)

  -- What calls make of a new object.
  pub data Reached : Source D F B → Type 0 where
    at_first : Reached (create ff)
    called : {s t : Source D F B} → Reached s → Call s t → Reached t

  result-IsValid :
      {A : Type 0} {r : Read A (Source D F B)} {a : A} {t : Source D F B}
      → Safely r
      → r ≡ ended a t
      → IsValid t
  result-IsValid (with_result v) e = subst IsValid (ended_inj e) v
  result-IsValid unfinished e = absurd (cc)

  same_file :
      {s t : Source D F B}
      → t.fmt_ctx ≡ s.fmt_ctx
      → t.pkt ≡ s.pkt
      → t.bsf_ctx ≡ s.bsf_ctx
      → t.video_idx ≡ s.video_idx
      → IsValid s
      → IsValid t
  same_file f p b i (inl o) = inl (record {
    has_container = ap is_some f ∙ o.has_container;
    has_packet = p ∙ o.has_packet;
    has_video = ap is_some i ∙ o.has_video;
  })
  same_file f p b i (inr c) = inr (record {
    no_container = f ∙ c.no_container;
    no_packet = p ∙ c.no_packet;
    no_filter = b ∙ c.no_filter;
  })

  dequeue-IsValid :
      (i : Option ℕ) (q : List AudioPacket) (s : Source D F B)
      → IsValid s
      → IsValid (dequeue_audio i q s).1
  unfolding dequeue_audio
  dequeue-IsValid none q s v = v
  dequeue-IsValid (some i) [] s v = v
  dequeue-IsValid (some i) (p ∷ ps) s v = same_file refl refl refl refl v

  Call-IsValid : {s t : Source D F B} → Call s t → IsValid s → IsValid t
  unfolding adjust_rtp_offset
  Call-IsValid {s} (opens path) v = Answers-IsValid ff _ (open_path-Answers ff path s)
  Call-IsValid {s} closes v = inr (close-Closed s)
  Call-IsValid {s} (reads fuel e) v = result-IsValid (read_packet-Safely fuel s v) e
  Call-IsValid {s} (peeks fuel e) v = result-IsValid (peek_next-Safely fuel s v) e
  Call-IsValid {s} reads_audio v =
      unfold read_audio_packet in dequeue-IsValid s.audio_idx s.audio_queue s v
  Call-IsValid {s} (seeks n) v = seek-IsValid ff n s v
  Call-IsValid {s} (seeks_to secs) v =
      unfold seek_to_seconds in seek_from-IsValid ff secs s.fmt_ctx s refl v
  Call-IsValid {s} (adjusts n) v = same_file refl refl refl refl v

  Reached-IsValid : {s : Source D F B} → Reached s → IsValid s
  Reached-IsValid at_first =
      inr (record { no_container = refl; no_packet = refl; no_filter = refl })
  Reached-IsValid (called r c) = Call-IsValid c (Reached-IsValid r)

  Safely-ne-crashes : {A : Type 0} {r : Read A (Source D F B)} → Safely r → r ≢ crashes
  Safely-ne-crashes (with_result v) e = cc
  Safely-ne-crashes unfinished e = cc

  -- However the methods of a media source are called, it is open or closed, and no read and no seek
  -- goes through a null pointer, if there is memory for the packet with which a seek probes.
  pub reads_safely :
      {s : Source D F B}
      → Reached s
      → ff.alloc_probe ≡ true
      → (fuel : ℕ) (secs : D)
      → IsValid s
        × (read_packet ff fuel s ≢ crashes)
        × (peek_next ff fuel s ≢ crashes)
        × (seek_to_seconds ff secs s ≢ crashes)
  unfolding seek_to_seconds
  reads_safely {s} r memory fuel secs =
      let v : IsValid s = Reached-IsValid r in
      (
        v,
        Safely-ne-crashes (read_packet-Safely fuel s v),
        Safely-ne-crashes (peek_next-Safely fuel s v),
        seek_from-safe ff secs s.fmt_ctx s memory,
      )
