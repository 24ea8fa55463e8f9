-- ===== src/Media/Source/Steady.antt =====
-- What a call of `readPacket` leaves alone.
use rtsp_server.Prelude.{◌≡◌, refl, ap, ◌∙◌, Bool, true, List, Option, some, if-elim}
use rtsp_server.Media.Packets.{VideoPacket}
use rtsp_server.Media.Ffmpeg.{AvPacket, Ffmpeg}
use rtsp_server.Media.Source.{Source, is_index}
use rtsp_server.Media.Source.Reading.{process_packet, anchor_pts, collect, pass_over}
use rtsp_server.Media.Source.Rounds.{
  Pass, filtered, passed, flushed, Ending, drained, over, refused, taken, received,
}
use rtsp_server.Media.Source.Reads.{Reads, last, more}

module _ {D F B : Type 0} where
  -- The clocks, the streams and the prefetched frame.
  pub record Steady (s t : Source D F B) : Type 0 where
    pub offset : t.rtp_offset ≡ s.rtp_offset
    pub base : t.time_base ≡ s.time_base
    pub prefetch : t.prefetch_vp ≡ s.prefetch_vp
    pub audio_offset : t.audio_rtp_offset ≡ s.audio_rtp_offset
    pub audio_base : t.audio_time_base ≡ s.audio_time_base
    pub audio_facts : t.audio_info ≡ s.audio_info
    pub audio_index : t.audio_idx ≡ s.audio_idx
    pub video_index : t.video_idx ≡ s.video_idx

  Steady-trans : {s t u : Source D F B} → Steady s t → Steady t u → Steady s u
  Steady-trans a b = record {
    offset = b.offset ∙ a.offset;
    base = b.base ∙ a.base;
    prefetch = b.prefetch ∙ a.prefetch;
    audio_offset = b.audio_offset ∙ a.audio_offset;
    audio_base = b.audio_base ∙ a.audio_base;
    audio_facts = b.audio_facts ∙ a.audio_facts;
    audio_index = b.audio_index ∙ a.audio_index;
    video_index = b.video_index ∙ a.video_index;
  }

  pub same : (s : Source D F B) → Steady s s
  same s = record {
    offset = refl;
    base = refl;
    prefetch = refl;
    audio_offset = refl;
    audio_base = refl;
    audio_facts = refl;
    audio_index = refl;
    video_index = refl;
  }

  -- The container and the filter move on.
  advanced :
      (s : Source D F B) (f : Option F) (b : Option B) (e : Bool)
      → Steady s (record s { fmt_ctx = f; bsf_ctx = b; bsf_at_eof = e })
  advanced s f b e = record {
    offset = refl;
    base = refl;
    prefetch = refl;
    audio_offset = refl;
    audio_base = refl;
    audio_facts = refl;
    audio_index = refl;
    video_index = refl;
  }

  of_equal : {s t : Source D F B} → t ≡ s → Steady s t
  of_equal q = record {
    offset = ap (λ (x : Source D F B). x.rtp_offset) q;
    base = ap (λ (x : Source D F B). x.time_base) q;
    prefetch = ap (λ (x : Source D F B). x.prefetch_vp) q;
    audio_offset = ap (λ (x : Source D F B). x.audio_rtp_offset) q;
    audio_base = ap (λ (x : Source D F B). x.audio_time_base) q;
    audio_facts = ap (λ (x : Source D F B). x.audio_info) q;
    audio_index = ap (λ (x : Source D F B). x.audio_idx) q;
    video_index = ap (λ (x : Source D F B). x.video_idx) q;
  }

module _ {D F B : Type 0} (ff : Ffmpeg D F B) where
  pass_over-Steady : (p : AvPacket) (s : Source D F B) → Steady s (pass_over ff p s)
  unfolding pass_over collect
  pass_over-Steady p s =
      if-elim (Steady s) (is_index s.audio_idx p.stream_index)
        (λ _. record {
          offset = refl;
          base = refl;
          prefetch = refl;
          audio_offset = refl;
          audio_base = refl;
          audio_facts = refl;
          audio_index = refl;
          video_index = refl;
        })
        (λ _. same s)

  process_packet-Steady : (p : AvPacket) (s : Source D F B) → Steady s (process_packet ff p s).1
  unfolding process_packet anchor_pts
  process_packet-Steady p s = record {
    offset = refl;
    base = refl;
    prefetch = refl;
    audio_offset = refl;
    audio_base = refl;
    audio_facts = refl;
    audio_index = refl;
    video_index = refl;
  }

  pub Pass-Steady : {s t : Source D F B} {fs : List AvPacket} → Pass ff s fs t → Steady s t
  Pass-Steady {s} (filtered p b e r v) = advanced s _ b s.bsf_at_eof
  Pass-Steady {s} (passed p b e r v) =
      Steady-trans (advanced s _ b s.bsf_at_eof)
        (pass_over-Steady p (record s { fmt_ctx = some _; bsf_ctx = b }))
  Pass-Steady {s} (flushed b e r v) = advanced s _ (some b) true

  Ending-Steady :
      {s t : Source D F B} {fs : List AvPacket} {o : Option VideoPacket}
      → Ending ff s fs o t
      → Steady s t
  Ending-Steady {s} (drained b) = advanced s s.fmt_ctx b s.bsf_at_eof
  Ending-Steady {s} (over b e r) = advanced s _ b s.bsf_at_eof
  Ending-Steady {s} (refused p b e r v) = advanced s _ b s.bsf_at_eof
  Ending-Steady {s} (taken p b s' e r v q) =
      Steady-trans (Steady-trans (advanced s _ b s.bsf_at_eof) (of_equal q))
        (process_packet-Steady p s')
  Ending-Steady {s} (received p b s' q) =
      Steady-trans (Steady-trans (advanced s s.fmt_ctx b s.bsf_at_eof) (of_equal q))
        (process_packet-Steady p s')

  pub Reads-Steady :
      {s t : Source D F B} {fs : List AvPacket} {o : Option VideoPacket}
      → Reads ff s fs o t
      → Steady s t
  Reads-Steady (last e) = Ending-Steady e
  Reads-Steady (more p r) = Steady-trans (Pass-Steady p) (Reads-Steady r)
