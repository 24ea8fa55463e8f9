-- ===== src/Media/Source/Peek.antt =====
-- The frame that `peekNextVideoRTPTimestamp` keeps.
use rtsp_server.Prelude.{
  ℕ, ◌≡◌, refl, sym, ap, subst, ◌∙◌, Bool, true, false, Option, none, some, if◌then◌else◌,
}
use rtsp_server.Prelude.Numbers.{ℤ}
use rtsp_server.Media.Packets.{VideoPacket}
use rtsp_server.Media.Ffmpeg.{Ffmpeg}
use rtsp_server.Media.Source.{Source, Read, ended, is_some}
use rtsp_server.Media.Source.Reading.{
  keep_frame, read_loop, read_from, read_packet, peek_open, peek_from, peek_next,
}
use rtsp_server.Media.Source.Seeking.{
  seek, seek_open, seek_to_seconds, seek_from, seek_at, seek_in, after_seek, land_with, land,
  rewind, sought, flush_filter,
}
use rtsp_server.Media.Source.Rounds.{Opened}
use rtsp_server.Media.Source.Reads.{Returns, returns, waits, Reads-Opened, read_loop-Returns}
use rtsp_server.Media.Source.Steady.{Reads-Steady}

pub ended_inj :
    {A S : Type 0} {a b : A} {s t : S}
    → ◌≡◌ {A = Read A S} (ended a s) (ended b t)
    → (a ≡ b) × (s ≡ t)
ended_inj e = (cc, cc)

some_inj : {A : Type 0} {a b : A} → some a ≡ some b → a ≡ b
some_inj e = cc

module _ {D F B : Type 0} (ff : Ffmpeg D F B) where
  Returns-prefetch :
      {s t : Source D F B} {r : Read (Option VideoPacket) (Source D F B)} {o : Option VideoPacket}
      → Returns ff s r
      → r ≡ ended o t
      → t.prefetch_vp ≡ s.prefetch_vp
  Returns-prefetch {s} (returns r) e =
      subst (λ (u : Source D F B). u.prefetch_vp ≡ s.prefetch_vp) (ended_inj e).1
        (Reads-Steady ff r).prefetch
  Returns-prefetch waits e = absurd (cc)

  -- With nothing kept, a read keeps nothing.
  read_none-prefetch :
      (fuel : ℕ) {s t : Source D F B} {o : Option VideoPacket}
      → Opened s
      → read_from ff fuel none s ≡ ended o t
      → t.prefetch_vp ≡ s.prefetch_vp
  unfolding read_from
  read_none-prefetch fuel {s} o e =
      Returns-prefetch (read_loop-Returns ff fuel s o)
        (sym (ap (λ b. if b then read_loop ff fuel s else ended none s) o.has_packet) ∙ e)

  open_peek :
      (fuel : ℕ) (s : Source D F B)
      → Opened s
      → peek_next ff fuel s ≡ peek_open ff fuel s.prefetch_vp s
  unfolding peek_next
  open_peek fuel s o = by_container s.fmt_ctx o.has_container
    where
      by_container :
          (c : Option F)
          → is_some c ≡ true
          → peek_from ff fuel c s ≡ peek_open ff fuel s.prefetch_vp s
      by_container none h = absurd (cc)
      by_container (some f) h = unfold peek_from in refl

  Returns-Opened :
      {s t : Source D F B} {r : Read (Option VideoPacket) (Source D F B)} {o : Option VideoPacket}
      → Opened s
      → Returns ff s r
      → r ≡ ended o t
      → Opened t
  Returns-Opened op (returns r) e = subst Opened (ended_inj e).1 (Reads-Opened ff r op)
  Returns-Opened op waits e = absurd (cc)

  -- A read of an open file leaves it open, with no frame kept.
  pub read_packet-Opened :
      (fuel : ℕ) {s t : Source D F B} {o : Option VideoPacket}
      → Opened s
      → s.prefetch_vp ≡ none
      → read_packet ff fuel s ≡ ended o t
      → Opened t × (t.prefetch_vp ≡ none)
  unfolding read_packet read_from
  read_packet-Opened fuel {s} op p e =
      let from_none = sym (ap (λ k. read_from ff fuel k s) p) ∙ e in
      (
        Returns-Opened op (read_loop-Returns ff fuel s op) (
            sym (ap (λ b. if b then read_loop ff fuel s else ended none s) op.has_packet)
            ∙ from_none),
        read_none-prefetch fuel op from_none ∙ p,
      )

  read_some :
      (later : ℕ) (vp : VideoPacket) (s : Source D F B)
      → s.prefetch_vp ≡ some vp
      → read_packet ff later s ≡ ended (some vp) (record s { prefetch_vp = none })
  unfolding read_packet read_from
  read_some later vp s e = ap (λ k. read_from ff later k s) e

  -- A peek keeps the frame that a read would give, and is otherwise this read.
  peek_keeps :
      (fuel : ℕ) (s t : Source D F B) (vp : VideoPacket)
      → Opened s
      → read_packet ff fuel s ≡ ended (some vp) t
      → (u : Source D F B) × (peek_next ff fuel s ≡ ended vp.rtp_timestamp u)
        × (u.prefetch_vp ≡ some vp)
        × (record u { prefetch_vp = none } ≡ t)
  unfolding read_packet
  peek_keeps fuel s t vp o e = by_kept s.prefetch_vp refl e
    where
      by_kept :
          (k : Option VideoPacket)
          → s.prefetch_vp ≡ k
          → read_from ff fuel k s ≡ ended (some vp) t
          → (u : Source D F B) × (peek_next ff fuel s ≡ ended vp.rtp_timestamp u)
            × (u.prefetch_vp ≡ some vp)
            × (record u { prefetch_vp = none } ≡ t)
      by_kept (some v) q e =
          let back : ended (some v) (record s { prefetch_vp = none }) ≡ ended (some vp) t =
            unfold read_from in e in
          let (same, state) = ended_inj back in
          (
            s,
            open_peek fuel s o
                ∙ (ap (λ k. peek_open ff fuel k s) q
                    ∙ unfold peek_open in
                      ap (λ (w : VideoPacket). ended w.rtp_timestamp s) (some_inj same)),
            q ∙ same,
            state,
          )
      by_kept none q e = (
        record t { prefetch_vp = some vp },
        open_peek fuel s o
            ∙ (ap (λ k. peek_open ff fuel k s) q
                ∙ unfold peek_open in
                  (ap (λ k. keep_frame ff (read_from ff fuel k s)) q
                    ∙ (ap (keep_frame ff) e ∙ unfold keep_frame in refl))),
        refl,
        ap (λ k. record t { prefetch_vp = k }) (sym (read_none-prefetch fuel o e ∙ q)),
      )

  -- A peek and the read after it give what the read alone gives, and leave the same source.
  pub peek_next-read_packet :
      (fuel later : ℕ) (s t : Source D F B) (vp : VideoPacket)
      → Opened s
      → read_packet ff fuel s ≡ ended (some vp) t
      → (u : Source D F B) × (peek_next ff fuel s ≡ ended vp.rtp_timestamp u)
        × (read_packet ff later u ≡ ended (some vp) t)
  peek_next-read_packet fuel later s t vp o e =
      let (u, peek, kept, rest) = peek_keeps fuel s t vp o e in
      (u, peek, read_some later vp u kept ∙ ap (λ (x : Source D F B). ended (some vp) x) rest)

  seek_open-prefetch :
      (n : ℕ) (c : Option F) (s : Source D F B) → (seek_open ff n c s).prefetch_vp ≡ s.prefetch_vp
  unfolding seek_open flush_filter
  seek_open-prefetch n none s = refl
  seek_open-prefetch n (some f) s = refl

  land_with-prefetch :
      (b : Bool) (z : ℤ) (f : F) (s0 s : Source D F B)
      → s.prefetch_vp ≡ s0.prefetch_vp
      → (sought s0 (land_with ff b z f s)).prefetch_vp ≡ s0.prefetch_vp
  unfolding land_with flush_filter
  land_with-prefetch false z f s0 s h = refl
  land_with-prefetch true z f s0 s h = h

  after_seek-prefetch :
      (z : ℤ) (r : Bool × F) (s0 s : Source D F B)
      → s.prefetch_vp ≡ s0.prefetch_vp
      → (sought s0 (after_seek ff z r s)).prefetch_vp ≡ s0.prefetch_vp
  unfolding after_seek land rewind flush_filter
  after_seek-prefetch z (true, f) s0 s h = land_with-prefetch ff.alloc_probe z f s0 s h
  after_seek-prefetch z (false, f) s0 s h = h

  seek_at-prefetch :
      (b : Bool) (secs : D) (f : F) (s : Source D F B)
      → (sought s (seek_at ff b secs f s)).prefetch_vp ≡ s.prefetch_vp
  unfolding seek_at seek_in seek flush_filter
  seek_at-prefetch true secs f s = seek_open-prefetch 0 s.fmt_ctx s
  seek_at-prefetch false secs f s = after_seek-prefetch _ _ s (flush_filter ff s) refl

  seek_from-prefetch :
      (secs : D) (c : Option F) (s : Source D F B)
      → (sought s (seek_from ff secs c s)).prefetch_vp ≡ s.prefetch_vp
  unfolding seek_from seek
  seek_from-prefetch secs none s = seek_open-prefetch 0 s.fmt_ctx s
  seek_from-prefetch secs (some f) s = seek_at-prefetch _ secs f s

  abbrev pub Gives : Option VideoPacket → Read (Option VideoPacket) (Source D F B) → Type 0
  Gives o r = (t : Source D F B) × (r ≡ ended o t)

  -- A frame that a peek has read is what the next read returns also after a seek, to a time or to the
  -- start: the frame of the old position comes first.
  pub stale_frame :
      (fuel : ℕ) (s t : Source D F B) (vp : VideoPacket)
      → Opened s
      → read_packet ff fuel s ≡ ended (some vp) t
      → (u : Source D F B) × (peek_next ff fuel s ≡ ended vp.rtp_timestamp u)
        × ((secs : D) (later : ℕ)
            → Gives (some vp) (read_packet ff later (sought u (seek_to_seconds ff secs u))))
        × ((n later : ℕ) → Gives (some vp) (read_packet ff later (seek ff n u)))
  unfolding seek_to_seconds seek
  stale_frame fuel s t vp o e =
      let (u, peek, kept, rest) = peek_keeps fuel s t vp o e in
      (
        u,
        peek,
        (λ secs later. (_, read_some later vp _ (seek_from-prefetch secs u.fmt_ctx u ∙ kept))),
        (λ n later. (_, read_some later vp _ (seek_open-prefetch n u.fmt_ctx u ∙ kept))),
      )
