-- ===== src/Media/Source/Frames.antt =====
-- The frames that `readPacket` takes from the container, and what becomes of the audio among them.
use rtsp_server.Prelude.{
  ℕ, ◌≡◌, refl, sym, ap, subst, ◌∙◌, [], ◌∷◌, ◌++◌, List, Option, none, some, if◌then◌else◌,
  if-elim,
}
use rtsp_server.Media.Packets.{VideoPacket}
use rtsp_server.Media.Ffmpeg.{AvPacket, Ffmpeg}
use rtsp_server.Media.Source.{Source, Read, ended, is_index}
use rtsp_server.Media.Source.Reading.{
  process_packet, anchor_pts, collect, pass_over, read_loop, read_from, read_packet,
}
use rtsp_server.Media.Source.Rounds.{
  Opened, Pass, filtered, passed, flushed, Ending, drained, over, refused, taken, received,
}
use rtsp_server.Media.Source.Reads.{Reads, last, more, Returns, returns, waits, read_loop-Returns}
use rtsp_server.Media.Source.Peek.{ended_inj}
use rtsp_server.Media.Source.Sound.{track_of, sounds, origin_after, Reads-Collects}

module _ {D F B : Type 0} (ff : Ffmpeg D F B) where
  -- The frames that a container gives one after the other, and the container after them.
  pub data Takes : F → List AvPacket → F → Type 0 where
    stay : {f : F} → Takes f [] f
    frame :
        {f g : F} {ps : List AvPacket} (p : AvPacket)
        → (ff.read_frame f).0 ≡ some p
        → Takes (ff.read_frame f).1 ps g
        → Takes f (p ∷ ps) g
    end :
        {f g : F} {ps : List AvPacket}
        → (ff.read_frame f).0 ≡ none
        → Takes (ff.read_frame f).1 ps g
        → Takes f ps g

  Takes-append :
      {f g h : F} {ps qs : List AvPacket} → Takes f ps g → Takes g qs h → Takes f (ps ++ qs) h
  Takes-append stay b = b
  Takes-append (frame p e a) b = frame p e (Takes-append a b)
  Takes-append (end e a) b = end e (Takes-append a b)

  -- The container after some frames.
  abbrev Onward : F → List AvPacket → Source D F B → Type 0
  Onward f fs t = (g : F) × Takes f fs g × (t.fmt_ctx ≡ some g)

  same_container : {f g : F} (s : Source D F B) → s.fmt_ctx ≡ some f → s.fmt_ctx ≡ some g → f ≡ g
  same_container {f} {g} s a b = let e : some f ≡ some g = sym a ∙ b in cc

  pass_over-container : (p : AvPacket) (s : Source D F B) → (pass_over ff p s).fmt_ctx ≡ s.fmt_ctx
  unfolding pass_over collect
  pass_over-container p s =
      if-elim (λ (t : Source D F B). t.fmt_ctx ≡ s.fmt_ctx) (is_index s.audio_idx p.stream_index)
        (λ _. refl) (λ _. refl)

  one_frame :
      {f g : F} (p : AvPacket)
      → (ff.read_frame f).0 ≡ some p
      → f ≡ g
      → Takes g (p ∷ []) (ff.read_frame f).1
  one_frame {f} p r e = subst (λ x. Takes x (p ∷ []) (ff.read_frame f).1) e (frame p r stay)

  at_end : {f g : F} → (ff.read_frame f).0 ≡ none → f ≡ g → Takes g [] (ff.read_frame f).1
  at_end {f} r e = subst (λ x. Takes x [] (ff.read_frame f).1) e (end r stay)

  Pass-Onward :
      {s t : Source D F B} {fs : List AvPacket} (f : F)
      → s.fmt_ctx ≡ some f
      → Pass ff s fs t
      → Onward f fs t
  Pass-Onward {s} f h (filtered p b e r v) = (_, one_frame p r (same_container s e h), refl)
  Pass-Onward {s} f h (passed p b e r v) = (
    _,
    one_frame p r (same_container s e h),
    pass_over-container p (record s { fmt_ctx = some _; bsf_ctx = b }),
  )
  Pass-Onward {s} f h (flushed b e r v) = (_, at_end r (same_container s e h), refl)

  Ending-Onward :
      {s t : Source D F B} {fs : List AvPacket} {o : Option VideoPacket} (f : F)
      → s.fmt_ctx ≡ some f
      → Ending ff s fs o t
      → Onward f fs t
  unfolding process_packet anchor_pts
  Ending-Onward {s} f h (drained b) = (f, stay, h)
  Ending-Onward {s} f h (over b e r) = (_, at_end r (same_container s e h), refl)
  Ending-Onward {s} f h (refused p b e r v) = (_, one_frame p r (same_container s e h), refl)
  Ending-Onward {s} f h (taken p b s' e r v q) =
      (_, one_frame p r (same_container s e h), ap (λ (x : Source D F B). x.fmt_ctx) q)
  Ending-Onward {s} f h (received p b s' q) = (f, stay, ap (λ (x : Source D F B). x.fmt_ctx) q ∙ h)

  Reads-Onward :
      {s t : Source D F B} {fs : List AvPacket} {o : Option VideoPacket} (f : F)
      → s.fmt_ctx ≡ some f
      → Reads ff s fs o t
      → Onward f fs t
  Reads-Onward f h (last e) = Ending-Onward f h e
  Reads-Onward f h (more p r) =
      let (g, a, e) = Pass-Onward f h p in
      let (k, b, q) = Reads-Onward g e r in (k, Takes-append a b, q)

  -- A call that nothing was kept for takes frames from the container, and the packets of the audio
  -- among them, each with its timestamp, are what it appends to the queue of the audio.
  pub read_packet-sounds :
      (fuel : ℕ) {f : F} {s t : Source D F B} {o : Option VideoPacket}
      → Opened s
      → s.prefetch_vp ≡ none
      → s.fmt_ctx ≡ some f
      → read_packet ff fuel s ≡ ended o t
      → (fs : List AvPacket) × (g : F) × Takes f fs g
        × (t.fmt_ctx ≡ some g)
        × (t.audio_queue ≡ s.audio_queue ++ sounds ff (track_of s) s.audio_first_pts fs)
        × (t.audio_first_pts ≡ origin_after (track_of s) s.audio_first_pts fs)
  unfolding read_packet read_from
  read_packet-sounds fuel {f} {s} {t} {o} op p h e = of_result (read_loop-Returns ff fuel s op) (
      sym (ap (λ b. if b then read_loop ff fuel s else ended none s) op.has_packet)
      ∙ (sym (ap (λ p. read_from ff fuel p s) p) ∙ e))
    where
      Sounds : Source D F B → Type 0
      Sounds t =
          (fs : List AvPacket) × (g : F) × Takes f fs g
          × (t.fmt_ctx ≡ some g)
          × (t.audio_queue ≡ s.audio_queue ++ sounds ff (track_of s) s.audio_first_pts fs)
          × (t.audio_first_pts ≡ origin_after (track_of s) s.audio_first_pts fs)

      of_reads :
          {fs : List AvPacket} {v : Option VideoPacket} {u : Source D F B}
          → Reads ff s fs v u
          → Sounds u
      of_reads {fs} r =
          let (g, a, q) = Reads-Onward f h r in
          let c = Reads-Collects ff r in (fs, g, a, q, c.queue, c.first)

      of_result :
          {r : Read (Option VideoPacket) (Source D F B)} → Returns ff s r → r ≡ ended o t → Sounds t
      of_result (returns r) q = subst Sounds (ended_inj q).1 (of_reads r)
      of_result waits q = absurd (cc)
