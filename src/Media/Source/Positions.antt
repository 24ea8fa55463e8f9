-- ===== src/Media/Source/Positions.antt =====
-- Where `seekToSeconds` of src/media/MediaSource.cpp goes on.
use rtsp_server.Prelude.{
  ℕ, ◌<◌, ◌≡◌, refl, sym, ap, ◌∙◌, subst, Bool, true, false, Option, none, some, arith,
}
use rtsp_server.Prelude.Numbers.{ℤ, pos, negsuc}
use rtsp_server.Media.Packets.{VideoPacket}
use rtsp_server.Media.Ffmpeg.{Ffmpeg, Rational}
use rtsp_server.Media.Source.{Source, Read, ended, runs_on, crashes, to_u32, hz}
use rtsp_server.Media.Source.Reading.{read_packet}
use rtsp_server.Media.Source.Seeking.{
  flush_filter, seek, rewind, land_with, land, after_seek, seek_at, seek_in, seek_from,
  seek_to_seconds,
}
use rtsp_server.Media.Source.Rounds.{Opened}
use rtsp_server.Media.Source.Times.{
  Rescales, Rewound, time_of, time_of-first, seek-Rewound, read_packet-Stamped,
}

module _ {D F B : Type 0} (ff : Ffmpeg D F B) where
  -- A position in seconds, and the RTP time of the same place: the start, or a time of the video in
  -- the units of its stream.
  pub data Place : D → ℕ → Type 0 where
    beginning : Place ff.doubles.zero_d 0
    at_time :
        (pts : ℤ) (base : Rational)
        → Place
            (ff.doubles.mul (ff.doubles.of_i64 pts) (ff.q2d base))
            (to_u32 (ff.rescale pts base (hz 90000)))

  -- The source after a call, with the position that it returns.
  pub record Landed (s : Source D F B) (r : D × Source D F B) : Type 0 where
    pub rewound : Rewound ff r.1.rtp_offset s r.1
    pub in_range : r.1.rtp_offset < 4294967296
    pub place : Place r.0 r.1.rtp_offset

  in_range-to_u32 : (z : ℤ) → to_u32 z < 4294967296
  unfolding to_u32
  in_range-to_u32 (pos n) = omega arith
  in_range-to_u32 (negsuc n) = omega arith

  -- The same of a call, if it ends.
  pub data Lands (s : Source D F B) : Read D (Source D F B) → Type 0 where
    lands : {x : D} {t : Source D F B} → Landed s (x, t) → Lands s (ended x t)
    breaks : Lands s crashes

  land_with-Lands :
      (b : Bool) (target : ℤ) (f : F) (s : Source D F B)
      → Opened s
      → Lands s (land_with ff b target f s)
  unfolding land_with flush_filter
  land_with-Lands false target f s o = breaks
  land_with-Lands true target f s o = lands (record {
    rewound = record {
      still_open = record {
        has_container = refl;
        has_packet = o.has_packet;
        has_video = o.has_video;
      };
      no_first = refl;
      at_offset = refl;
      kept_frame = refl;
    };
    in_range = in_range-to_u32 _;
    place = at_time _ _;
  })

  after_seek-Lands :
      (target : ℤ) (found : Bool × F) (s : Source D F B)
      → Opened s
      → Lands s (after_seek ff target found s)
  unfolding after_seek land rewind flush_filter
  after_seek-Lands target (true, f) s o = land_with-Lands ff.alloc_probe target f s o
  after_seek-Lands target (false, f) s o = lands (record {
    rewound = record {
      still_open = record {
        has_container = refl;
        has_packet = o.has_packet;
        has_video = o.has_video;
      };
      no_first = refl;
      at_offset = refl;
      kept_frame = refl;
    };
    in_range = omega arith;
    place = beginning;
  })

  seek-Lands : (s : Source D F B) → Opened s → Lands s (ended ff.doubles.zero_d (seek ff 0 s))
  seek-Lands s o =
      let w = seek-Rewound ff 0 s o in
      lands (record {
        rewound = subst (λ n. Rewound ff n s (seek ff 0 s)) (sym w.at_offset) w;
        in_range = subst (λ n. n < 4294967296) (sym w.at_offset) (omega arith);
        place = subst (λ n. Place ff.doubles.zero_d n) (sym w.at_offset) beginning;
      })

  -- The filter is flushed before the seek.
  unflushed :
      (s : Source D F B) {r : Read D (Source D F B)} → Lands (flush_filter ff s) r → Lands s r
  unfolding flush_filter
  unflushed s (lands l) = lands (record {
    rewound = record {
      still_open = l.rewound.still_open;
      no_first = l.rewound.no_first;
      at_offset = refl;
      kept_frame = l.rewound.kept_frame;
    };
    in_range = l.in_range;
    place = l.place;
  })
  unflushed s breaks = breaks

  flush_filter-Opened : (s : Source D F B) → Opened s → Opened (flush_filter ff s)
  unfolding flush_filter
  flush_filter-Opened s o = record {
    has_container = o.has_container;
    has_packet = o.has_packet;
    has_video = o.has_video;
  }

  seek_at-Lands :
      (before : Bool) (secs : D) (f : F) (s : Source D F B)
      → Opened s
      → Lands s (seek_at ff before secs f s)
  unfolding seek_at seek_in
  seek_at-Lands true secs f s o = seek-Lands s o
  seek_at-Lands false secs f s o =
      unflushed s (after_seek-Lands _ _ (flush_filter ff s) (flush_filter-Opened s o))

  seek_from-Lands :
      (secs : D) (c : Option F) (s : Source D F B) → Opened s → Lands s (seek_from ff secs c s)
  unfolding seek_from
  seek_from-Lands secs none s o = seek-Lands s o
  seek_from-Lands secs (some f) s o = seek_at-Lands _ secs f s o

  ended_or : D × Source D F B → Read D (Source D F B) → D × Source D F B
  ended_or p (ended x t) = (x, t)
  ended_or p runs_on = p
  ended_or p crashes = p

  Lands-Landed :
      (s t : Source D F B) (x : D) {r : Read D (Source D F B)}
      → Lands s r
      → r ≡ ended x t
      → Landed s (x, t)
  unfolding ended_or
  Lands-Landed s t x (lands {x = y} {t = u} l) e =
      subst (λ (p : D × Source D F B). Landed s p)
        (ap (λ (r : Read D (Source D F B)). ended_or (y, u) r) e) l
  Lands-Landed s t x breaks e = absurd (cc)

  -- The first frame that is read after a call of `seekToSeconds` that ends has as its timestamp the
  -- position that the call returned, be it the start or the time at which the source was found to go
  -- on, if no frame was kept before and `av_rescale_q` takes 0 to 0.
  pub first_after_position :
      (secs x : D) (fuel : ℕ) {s u t : Source D F B} {vp : VideoPacket}
      → Rescales ff
      → Opened s
      → s.prefetch_vp ≡ none
      → seek_to_seconds ff secs s ≡ ended x u
      → read_packet ff fuel u ≡ ended (some vp) t
      → Place x vp.rtp_timestamp
  unfolding seek_to_seconds
  first_after_position secs x fuel {s} {u} z o p q e =
      let l = Lands-Landed s u x (seek_from-Lands secs s.fmt_ctx s o) q in
      let w = l.rewound in
      let k = read_packet-Stamped ff fuel w.still_open (w.kept_frame ∙ p) e in
      subst (λ n. Place x n)
        (sym (
          k.stamp
          ∙ (ap (λ c. time_of ff c u.time_base u.rtp_offset k.pts) w.no_first
              ∙ time_of-first ff z u.time_base u.rtp_offset k.pts l.in_range)))
        l.place
