-- ===== src/Media/Source/Sound.antt =====
-- The audio that `readPacket` collects on its way to a frame of the video.
use rtsp_server.Prelude.{
  ℕ, ◌+◌, ◌≡◌, refl, sym, ap, ◌∙◌, Bool, true, false, not, ◌&&◌, [], ◌∷◌, ◌++◌, List, Option, some,
  if◌then◌else◌, arith, append-nil, append_assoc,
}
use rtsp_server.Prelude.Bits.{u32}
use rtsp_server.Prelude.Numbers.{ℤ, ◌-ℤ◌}
use rtsp_server.Media.Packets.{VideoPacket, AudioPacket}
use rtsp_server.Media.Ffmpeg.{Rational, AvPacket, Ffmpeg}
use rtsp_server.Media.Source.{Source, is_index, to_u32, hz, pts_of}
use rtsp_server.Media.Source.Reading.{process_packet, anchor_pts, audio_packet, collect, pass_over}
use rtsp_server.Media.Source.Rounds.{
  Pass, filtered, passed, flushed, Ending, drained, over, refused, taken, received,
}
use rtsp_server.Media.Source.Reads.{Reads, last, more}
use rtsp_server.Media.Source.Steady.{Steady, Pass-Steady}
use rtsp_server.Media.Source.Times.{origin}

-- The streams' indices and the clock of the audio.
pub record Track : Type 0 where
  pub video : Option ℕ
  pub sound : Option ℕ
  pub base : Rational
  pub rate : ℕ
  pub offset : ℕ

module _ {D F B : Type 0} where
  abbrev pub track_of : Source D F B → Track
  track_of s = record {
    video = s.video_idx;
    sound = s.audio_idx;
    base = s.audio_time_base;
    rate = s.audio_info.sample_rate;
    offset = s.audio_rtp_offset;
  }

  track_of-Steady : {s t : Source D F B} → Steady s t → track_of t ≡ track_of s
  track_of-Steady k = cc (k.video_index, k.audio_index, k.audio_base, k.audio_facts, k.audio_offset)

abbrev pub is_sound : Track → AvPacket → Bool
is_sound tr p = not (is_index tr.video p.stream_index) && is_index tr.sound p.stream_index

-- The time that counts as zero after these frames.
unfoldable pub origin_after : Track → ℤ → List AvPacket → ℤ
origin_after tr first [] = first
origin_after tr first (p ∷ ps) =
    origin_after tr (if is_sound tr p then origin first (pts_of p) else first) ps

module _ {D F B : Type 0} (ff : Ffmpeg D F B) where
  abbrev pub stamped : Track → ℤ → AvPacket → AudioPacket
  stamped tr first p = record {
    payload = p.payload;
    rtp_timestamp = u32 (
        to_u32 (ff.rescale (pts_of p -ℤ origin first (pts_of p)) tr.base (hz tr.rate)) + tr.offset);
  }

  -- The packets of the audio among some frames, with their timestamps.
  unfoldable pub sounds : Track → ℤ → List AvPacket → List AudioPacket
  sounds tr first [] = []
  sounds tr first (p ∷ ps) =
      let rest = sounds tr (if is_sound tr p then origin first (pts_of p) else first) ps in
      if is_sound tr p then stamped tr first p ∷ rest else rest

  sounds-append :
      (tr : Track) (first : ℤ) (ps qs : List AvPacket)
      → sounds tr first (ps ++ qs) ≡ sounds tr first ps ++ sounds tr (origin_after tr first ps) qs
  unfolding sounds origin_after
  sounds-append tr first [] qs = refl
  sounds-append tr first (p ∷ ps) qs =
      ground
        (arith, sounds-append tr (if is_sound tr p then origin first (pts_of p) else first) ps qs)

  origin_after-append :
      (tr : Track) (first : ℤ) (ps qs : List AvPacket)
      → origin_after tr first (ps ++ qs) ≡ origin_after tr (origin_after tr first ps) qs
  unfolding origin_after
  origin_after-append tr first [] qs = refl
  origin_after-append tr first (p ∷ ps) qs =
      origin_after-append tr (if is_sound tr p then origin first (pts_of p) else first) ps qs

  -- From one source to another by these frames.
  pub record Collects (s : Source D F B) (fs : List AvPacket) (t : Source D F B) : Type 0 where
    pub queue : t.audio_queue ≡ s.audio_queue ++ sounds (track_of s) s.audio_first_pts fs
    pub first : t.audio_first_pts ≡ origin_after (track_of s) s.audio_first_pts fs

  -- Nothing is collected of a frame of the video.
  video_frame :
      (s t : Source D F B) (p : AvPacket)
      → is_index s.video_idx p.stream_index ≡ true
      → t.audio_queue ≡ s.audio_queue
      → t.audio_first_pts ≡ s.audio_first_pts
      → Collects s (p ∷ []) t
  unfolding sounds origin_after
  video_frame s t p v q e =
      let tr = track_of s in
      let no : is_sound tr p ≡ false = ap (λ b. not b && is_index tr.sound p.stream_index) v in
      record {
        queue =
            q
            ∙ (sym (append-nil s.audio_queue)
                ∙ ap (λ b. s.audio_queue ++ (if b then stamped tr s.audio_first_pts p ∷ [] else []))
                    (sym no));
        first =
            e
            ∙ ap (λ b. if b then origin s.audio_first_pts (pts_of p) else s.audio_first_pts)
                (sym no);
      }

  -- A frame that is collected if `b`.
  collected : Bool → AvPacket → Source D F B → Source D F B
  collected b p s = if b then collect ff p s else s

  collected-queue :
      (b : Bool) (p : AvPacket) (s : Source D F B)
      → (collected b p s).audio_queue
        ≡ s.audio_queue ++ (if b then stamped (track_of s) s.audio_first_pts p ∷ [] else [])
  unfolding collected collect audio_packet
  collected-queue true p s = refl
  collected-queue false p s = sym (append-nil s.audio_queue)

  collected-first :
      (b : Bool) (p : AvPacket) (s : Source D F B)
      → (collected b p s).audio_first_pts
        ≡ (if b then origin s.audio_first_pts (pts_of p) else s.audio_first_pts)
  unfolding collected collect
  collected-first true p s = refl
  collected-first false p s = refl

  pass_over-Collects :
      (p : AvPacket) (s : Source D F B)
      → is_index s.video_idx p.stream_index ≡ false
      → Collects s (p ∷ []) (pass_over ff p s)
  unfolding pass_over sounds origin_after collected
  pass_over-Collects p s v =
      let tr = track_of s in
      let sure : is_sound tr p ≡ is_index tr.sound p.stream_index =
        ap (λ b. not b && is_index tr.sound p.stream_index) v in
      record {
        queue =
            collected-queue (is_index tr.sound p.stream_index) p s
            ∙ ap (λ b. s.audio_queue ++ (if b then stamped tr s.audio_first_pts p ∷ [] else []))
                (sym sure);
        first =
            collected-first (is_index tr.sound p.stream_index) p s
            ∙ ap (λ b. if b then origin s.audio_first_pts (pts_of p) else s.audio_first_pts)
                (sym sure);
      }

  nothing :
      (s t : Source D F B)
      → t.audio_queue ≡ s.audio_queue
      → t.audio_first_pts ≡ s.audio_first_pts
      → Collects s [] t
  unfolding sounds origin_after
  nothing s t q e = record { queue = q ∙ sym (append-nil s.audio_queue); first = e }

  -- What is collected after the container and the filter have moved on.
  Collects-of :
      {s r t : Source D F B} {fs : List AvPacket}
      → track_of r ≡ track_of s
      → r.audio_queue ≡ s.audio_queue
      → r.audio_first_pts ≡ s.audio_first_pts
      → Collects r fs t
      → Collects s fs t
  Collects-of {s} {r} {fs = fs} k q e c = record {
    queue =
        c.queue
        ∙ (ap (λ x. x ++ sounds (track_of r) r.audio_first_pts fs) q
            ∙ (ap (λ x. s.audio_queue ++ sounds (track_of r) x fs) e
                ∙ ap (λ x. s.audio_queue ++ sounds x s.audio_first_pts fs) k));
    first =
        c.first
        ∙ (ap (λ x. origin_after (track_of r) x fs) e
            ∙ ap (λ x. origin_after x s.audio_first_pts fs) k);
  }

  Collects-trans :
      {s t u : Source D F B} {fs gs : List AvPacket}
      → track_of t ≡ track_of s
      → Collects s fs t
      → Collects t gs u
      → Collects s (fs ++ gs) u
  Collects-trans {s} {t} {fs = fs} {gs} k a b =
      let tr = track_of s in
      let next = origin_after tr s.audio_first_pts fs in
      record {
        queue =
            b.queue
            ∙ (ap (λ x. t.audio_queue ++ sounds x t.audio_first_pts gs) k
                ∙ (ap (λ x. t.audio_queue ++ sounds tr x gs) a.first
                    ∙ (ap (λ x. x ++ sounds tr next gs) a.queue
                        ∙ (append_assoc s.audio_queue (sounds tr s.audio_first_pts fs)
                              (sounds tr next gs)
                            ∙ ap (λ x. s.audio_queue ++ x)
                                (sym (sounds-append tr s.audio_first_pts fs gs))))));
        first =
            b.first
            ∙ (ap (λ x. origin_after x t.audio_first_pts gs) k
                ∙ (ap (λ x. origin_after tr x gs) a.first
                    ∙ sym (origin_after-append tr s.audio_first_pts fs gs)));
      }

  Pass-Collects : {s t : Source D F B} {fs : List AvPacket} → Pass ff s fs t → Collects s fs t
  Pass-Collects {s} (filtered p b e r v) = video_frame s _ p v refl refl
  Pass-Collects {s} (passed p b e r v) =
      Collects-of refl refl refl
        (pass_over-Collects p (record s { fmt_ctx = some _; bsf_ctx = b }) v)
  Pass-Collects {s} (flushed b e r v) = nothing s _ refl refl

  Ending-Collects :
      {s t : Source D F B} {fs : List AvPacket} {o : Option VideoPacket}
      → Ending ff s fs o t
      → Collects s fs t
  unfolding process_packet anchor_pts
  Ending-Collects {s} (drained b) = nothing s _ refl refl
  Ending-Collects {s} (over b e r) = nothing s _ refl refl
  Ending-Collects {s} (refused p b e r v) = video_frame s _ p v refl refl
  Ending-Collects {s} (taken p b s' e r v q) =
      video_frame s _ p v (ap (λ (x : Source D F B). x.audio_queue) q)
        (ap (λ (x : Source D F B). x.audio_first_pts) q)
  Ending-Collects {s} (received p b s' q) =
      nothing s _ (ap (λ (x : Source D F B). x.audio_queue) q)
        (ap (λ (x : Source D F B). x.audio_first_pts) q)

  pub Reads-Collects :
      {s t : Source D F B} {fs : List AvPacket} {o : Option VideoPacket}
      → Reads ff s fs o t
      → Collects s fs t
  Reads-Collects (last e) = Ending-Collects e
  Reads-Collects (more p r) =
      Collects-trans (track_of-Steady (Pass-Steady ff p)) (Pass-Collects p) (Reads-Collects r)
