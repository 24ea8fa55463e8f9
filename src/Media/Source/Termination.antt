-- ===== src/Media/Source/Termination.antt =====
-- `readPacket` returns on every finite file.
use rtsp_server.Prelude.{
  ℕ, zero, suc, ◌+◌, ◌<◌, ◌≤◌, ◌≡◌, refl, sym, ap, subst, ◌∙◌, inl, inr, Bool, true, false, List,
  Option, none, some, if◌then◌else◌, arith, if-elim,
}
use rtsp_server.Media.Packets.{VideoPacket}
use rtsp_server.Media.Ffmpeg.{AvPacket, Ffmpeg}
use rtsp_server.Media.Source.{Source, Read, ended, crashes, Round, ends, goes_on, fails, is_index}
use rtsp_server.Media.Source.Reading.{collect, pass_over, round, read_loop, read_from, read_packet}
use rtsp_server.Media.Source.Rounds.{
  Opened, Pass, filtered, passed, flushed, Rounds, on, out, round-Rounds,
}
use rtsp_server.Media.Source.Reads.{Pass-Opened}
use rtsp_server.Media.Source.Validity.{IsValid}

module _ {D F B : Type 0} (ff : Ffmpeg D F B) where
  -- A number of frames that are left in a container: fewer after a frame is read, and not more at
  -- the end.
  pub record Finite (left : F → ℕ) : Type 0 where
    pub shrinks :
        (f : F) (p : AvPacket) → (ff.read_frame f).0 ≡ some p → left (ff.read_frame f).1 < left f
    pub at_most : (f : F) → left (ff.read_frame f).1 ≤ left f

  module _ (left : F → ℕ) (finite : Finite left) where
    -- The frames that are left, and the flush of the filter.
    abbrev pub rounds_left : Option F → Bool → ℕ
    rounds_left none e = 0
    rounds_left (some f) true = left f
    rounds_left (some f) false = left f + 1

    abbrev size : Source D F B → ℕ
    size s = rounds_left s.fmt_ctx s.bsf_at_eof

    smaller :
        (f g : F) (e : Bool) → left g < left f → rounds_left (some g) e < rounds_left (some f) e
    smaller f g true h = h
    smaller f g false h = omega arith

    pass_over-size : (p : AvPacket) (s : Source D F B) → size (pass_over ff p s) ≡ size s
    unfolding pass_over collect
    pass_over-size p s =
        if-elim (λ t. size t ≡ size s) (is_index s.audio_idx p.stream_index) (λ _. refl) (λ _. refl)

    Pass-size : {s t : Source D F B} {fs : List AvPacket} → Pass ff s fs t → size t < size s
    Pass-size {s} (filtered {f} p b e r v) = rw e (smaller f _ s.bsf_at_eof (finite.shrinks f p r))
    Pass-size {s} (passed {f} p b e r v) =
        subst (λ n. n < size s)
          (sym (pass_over-size p (record s { fmt_ctx = some (ff.read_frame f).1; bsf_ctx = b })))
          (rw e (smaller f _ s.bsf_at_eof (finite.shrinks f p r)))
    Pass-size {s} (flushed {f} b e r v) = rw (e, v) (omega (arith, finite.at_most f))

    abbrev Ends : Read (Option VideoPacket) (Source D F B) → Type 0
    Ends r = (o : Option VideoPacket) × (t : Source D F B) × (r ≡ ended o t)

    read_loop_total :
        (fuel : ℕ) (s : Source D F B) → Opened s → size s < fuel → Ends (read_loop ff fuel s)
    unfolding read_loop
    read_loop_total zero s o h = absurd (omega arith)
    read_loop_total (suc fuel) s o h =
        by_round (round ff s) (round-Rounds ff s o)
          (λ t p k. read_loop_total fuel t p (omega arith))
      where
        by_round :
            (r : Round (Source D F B))
            → Rounds ff s r
            → ((t : Source D F B) → Opened t → size t < size s → Ends (read_loop ff fuel t))
            → Ends (elim r [
              | fails ↦ crashes
              | ends v s' ↦ ended v s'
              | goes_on s' ↦ read_loop ff fuel s'
            ])
        by_round (goes_on t) (on p) rest = rest t (Pass-Opened ff p o) (Pass-size p)
        by_round (ends v t) (out e) rest = (v, t, refl)
        by_round fails x rest = elim x [ ]

    read_from_total :
        (fuel : ℕ) (p : Option VideoPacket) (s : Source D F B)
        → IsValid s
        → size s < fuel
        → Ends (read_from ff fuel p s)
    unfolding read_from
    read_from_total fuel (some vp) s v h = (some vp, record s { prefetch_vp = none }, refl)
    read_from_total fuel none s (inl o) h =
        let (v, t, e) = read_loop_total fuel s o h in
        (v, t, ap (λ b. if b then read_loop ff fuel s else ended none s) o.has_packet ∙ e)
    read_from_total fuel none s (inr c) h =
        (none, s, ap (λ b. if b then read_loop ff fuel s else ended none s) c.no_packet)

    -- On a finite file a call of `readPacket` returns, with two more rounds than there are frames.
    pub read_packet_total :
        (s : Source D F B)
        → IsValid s
        → (fuel : ℕ) → rounds_left s.fmt_ctx s.bsf_at_eof < fuel
        → (o : Option VideoPacket) × (t : Source D F B) × (read_packet ff fuel s ≡ ended o t)
    unfolding read_packet
    read_packet_total s v fuel h = read_from_total fuel s.prefetch_vp s v h
