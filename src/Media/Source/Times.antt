-- ===== src/Media/Source/Times.antt =====
-- The RTP timestamps of frames.
use rtsp_server.Prelude.{
  ℕ, ◌+◌, ◌≡◌, ◌<◌, refl, sym, ap, subst, ◌∙◌, Bool, true, List, Option, none, some, if◌then◌else◌,
  if-elim, arith,
}
use rtsp_server.Prelude.Bits.{u32}
use rtsp_server.Prelude.Numbers.{ℤ, pos, ◌-ℤ◌}
use rtsp_server.Media.Packets.{VideoPacket}
use rtsp_server.Media.Ffmpeg.{Rational, AvPacket, Ffmpeg, no_pts}
use rtsp_server.Media.Source.{Source, Read, ended, is_no_pts, is_some, is_index, to_u32, hz, pts_of}
use rtsp_server.Media.Source.Reading.{
  to_rtp_timestamp, frame_of, process_packet, anchor_pts, collect, pass_over, read_loop, read_from,
  read_packet,
}
use rtsp_server.Media.Source.Seeking.{seek, seek_open, flush_filter}
use rtsp_server.Media.Source.Rounds.{
  Opened, Pass, filtered, passed, flushed, Ending, drained, over, refused, taken, received,
}
use rtsp_server.Media.Source.Reads.{Reads, last, more, Returns, returns, waits, read_loop-Returns}
use rtsp_server.Media.Source.Steady.{Pass-Steady}
use rtsp_server.Media.Source.Peek.{ended_inj}

-- The time that counts as zero: the first since the opening or the last seek.
abbrev pub origin : ℤ → ℤ → ℤ
origin first pts = if is_no_pts first then pts else first

module _ {D F B : Type 0} (ff : Ffmpeg D F B) where
  -- The time since the origin, in units of 90 kHz, on top of the offset.
  abbrev pub time_of : ℤ → Rational → ℕ → ℤ → ℕ
  time_of first base offset pts =
      u32 (to_u32 (ff.rescale (pts -ℤ origin first pts) base (hz 90000)) + offset)

  -- The timestamp of the frame that a call returns, and the origin that it keeps.
  pub record Stamped (s : Source D F B) (vp : VideoPacket) (t : Source D F B) : Type 0 where
    pub pts : ℤ
    pub stamp : vp.rtp_timestamp ≡ time_of s.first_pts s.time_base s.rtp_offset pts
    pub kept : t.first_pts ≡ origin s.first_pts pts

  frame_of-stamp :
      (pts : ℤ) (key : Bool) (c : Option AvPacket) (s : Source D F B) {vp : VideoPacket}
      → frame_of ff pts key c s ≡ some vp
      → vp.rtp_timestamp ≡ to_rtp_timestamp ff (pts -ℤ s.first_pts) s
  unfolding frame_of
  frame_of-stamp pts key none s e = absurd (cc)
  frame_of-stamp pts key (some q) s e = sym (ap stamp_of e)
    where
      stamp_of : Option VideoPacket → ℕ
      stamp_of none = 0
      stamp_of (some v) = v.rtp_timestamp

  process_packet-Stamped :
      (p : AvPacket) (s : Source D F B) {vp : VideoPacket}
      → (process_packet ff p s).0 ≡ some vp
      → Stamped s vp (process_packet ff p s).1
  unfolding process_packet anchor_pts
  process_packet-Stamped p s e = record {
    pts = pts_of p;
    stamp =
        frame_of-stamp (pts_of p) p.is_key (ff.clone_packet p) (anchor_pts ff (pts_of p) s) e
        ∙ unfold to_rtp_timestamp in refl;
    kept = refl;
  }

  -- The origin and the clock come from an earlier source.
  Stamped-of :
      {s r t : Source D F B} {vp : VideoPacket}
      → r.first_pts ≡ s.first_pts
      → r.time_base ≡ s.time_base
      → r.rtp_offset ≡ s.rtp_offset
      → Stamped r vp t
      → Stamped s vp t
  Stamped-of {s} {r} f b o h = record {
    pts = h.pts;
    stamp =
        h.stamp
        ∙ (ap (λ z. time_of z r.time_base r.rtp_offset h.pts) f
            ∙ (ap (λ z. time_of s.first_pts z r.rtp_offset h.pts) b
                ∙ ap (λ z. time_of s.first_pts s.time_base z h.pts) o));
    kept = h.kept ∙ ap (λ z. origin z h.pts) f;
  }

  collect-first : (p : AvPacket) (s : Source D F B) → (pass_over ff p s).first_pts ≡ s.first_pts
  unfolding pass_over collect
  collect-first p s =
      if-elim (λ (t : Source D F B). t.first_pts ≡ s.first_pts)
        (is_index s.audio_idx p.stream_index) (λ _. refl) (λ _. refl)

  Pass-first :
      {s t : Source D F B} {fs : List AvPacket} → Pass ff s fs t → t.first_pts ≡ s.first_pts
  Pass-first (filtered p b e r v) = refl
  Pass-first {s} (passed p b e r v) = collect-first p (record s { fmt_ctx = some _; bsf_ctx = b })
  Pass-first (flushed b e r v) = refl

  none-ne-some : {A : Type 0} {vp : VideoPacket} → ◌≡◌ {A = Option VideoPacket} none (some vp) → A
  none-ne-some e = absurd (cc)

  Ending-Stamped :
      {s t : Source D F B} {fs : List AvPacket} {o : Option VideoPacket} {vp : VideoPacket}
      → Ending ff s fs o t
      → o ≡ some vp
      → Stamped s vp t
  Ending-Stamped (drained b) e = none-ne-some e
  Ending-Stamped (over b a r) e = none-ne-some e
  Ending-Stamped (refused p b a r v) e = none-ne-some e
  Ending-Stamped (taken p b s' a r v q) e =
      Stamped-of (ap (λ (x : Source D F B). x.first_pts) q)
        (ap (λ (x : Source D F B). x.time_base) q) (ap (λ (x : Source D F B). x.rtp_offset) q)
        (process_packet-Stamped p s' e)
  Ending-Stamped (received p b s' q) e =
      Stamped-of (ap (λ (x : Source D F B). x.first_pts) q)
        (ap (λ (x : Source D F B). x.time_base) q) (ap (λ (x : Source D F B). x.rtp_offset) q)
        (process_packet-Stamped p s' e)

  pub Reads-Stamped :
      {s t : Source D F B} {fs : List AvPacket} {o : Option VideoPacket} {vp : VideoPacket}
      → Reads ff s fs o t
      → o ≡ some vp
      → Stamped s vp t
  Reads-Stamped (last d) e = Ending-Stamped d e
  Reads-Stamped (more p r) e =
      let k = Pass-Steady ff p in Stamped-of (Pass-first p) k.base k.offset (Reads-Stamped r e)

  -- Any frame that the demuxer gives has a timestamp relative to one origin, which a later call keeps.
  pub read_packet-Stamped :
      (fuel : ℕ) {s t : Source D F B} {vp : VideoPacket}
      → Opened s
      → s.prefetch_vp ≡ none
      → read_packet ff fuel s ≡ ended (some vp) t
      → Stamped s vp t
  unfolding read_packet read_from
  read_packet-Stamped fuel {s} {t} {vp} o p e = of_result (read_loop-Returns ff fuel s o) (
      sym (ap (λ b. if b then read_loop ff fuel s else ended none s) o.has_packet)
      ∙ (sym (ap (λ p. read_from ff fuel p s) p) ∙ e))
    where
      of_result :
          {r : Read (Option VideoPacket) (Source D F B)}
          → Returns ff s r
          → r ≡ ended (some vp) t
          → Stamped s vp t
      of_result (returns r) q =
          subst (λ (u : Source D F B). Stamped s vp u) (ended_inj q).1
            (Reads-Stamped r (ended_inj q).0)
      of_result waits q = absurd (cc)

  sub_self : (z : ℤ) → z -ℤ z ≡ pos 0
  unfolding ◌-ℤ◌
  sub_self z = ground arith

  -- `av_rescale_q` takes 0 to 0.
  pub record Rescales : Type 0 where
    pub zero_lem : (a b : Rational) → ff.rescale (pos 0) a b ≡ pos 0

  pub time_of-first :
      Rescales
      → (base : Rational) (offset : ℕ) (pts : ℤ) → offset < 4294967296
      → time_of no_pts base offset pts ≡ offset
  unfolding to_u32
  time_of-first z base offset pts h = rw (sub_self pts, z.zero_lem base (hz 90000)) (omega arith)

  -- A seek to the start.
  pub record Rewound (n : ℕ) (s t : Source D F B) : Type 0 where
    pub still_open : Opened t
    pub no_first : t.first_pts ≡ no_pts
    pub at_offset : t.rtp_offset ≡ n
    pub kept_frame : t.prefetch_vp ≡ s.prefetch_vp

  seek_open-Rewound :
      (n : ℕ) (c : Option F) (s : Source D F B)
      → is_some c ≡ true
      → Opened s
      → Rewound n s (seek_open ff n c s)
  unfolding seek_open flush_filter
  seek_open-Rewound n none s e o = absurd (cc)
  seek_open-Rewound n (some f) s e o = record {
    still_open = record {
      has_container = refl;
      has_packet = o.has_packet;
      has_video = o.has_video;
    };
    no_first = refl;
    at_offset = refl;
    kept_frame = refl;
  }

  pub seek-Rewound : (n : ℕ) (s : Source D F B) → Opened s → Rewound n s (seek ff n s)
  unfolding seek
  seek-Rewound n s o = seek_open-Rewound n s.fmt_ctx s o.has_container o

  -- The first frame after `seek(offset)` has the timestamp `offset`, if no frame was kept before and
  -- `av_rescale_q` takes 0 to 0.
  pub first_after_seek :
      (n fuel : ℕ) {s t : Source D F B} {vp : VideoPacket}
      → Rescales
      → n < 4294967296
      → Opened s
      → s.prefetch_vp ≡ none
      → read_packet ff fuel (seek ff n s) ≡ ended (some vp) t
      → vp.rtp_timestamp ≡ n
  first_after_seek n fuel {s} z h o p e =
      let w = seek-Rewound n s o in
      let k = read_packet-Stamped fuel w.still_open (w.kept_frame ∙ p) e in
      let r = seek ff n s in
      k.stamp
      ∙ (ap (λ c. time_of c r.time_base r.rtp_offset k.pts) w.no_first
          ∙ (ap (λ c. time_of no_pts r.time_base c k.pts) w.at_offset
              ∙ time_of-first z r.time_base n k.pts h))
