-- ===== src/Media/Source/Reads.antt =====
-- `readPacket` as a chain of rounds, and how it ends.
use rtsp_server.Prelude.{ℕ, zero, suc, refl, ap, ◌∙◌, ◌++◌, List, Option, if-elim}
use rtsp_server.Media.Packets.{VideoPacket}
use rtsp_server.Media.Ffmpeg.{AvPacket, Ffmpeg}
use rtsp_server.Media.Source.{
  Source, Read, ended, runs_on, crashes, Round, ends, goes_on, fails, is_some, is_index,
}
use rtsp_server.Media.Source.Reading.{
  process_packet, anchor_pts, collect, pass_over, round, read_loop,
}
use rtsp_server.Media.Source.Rounds.{
  Opened, Pass, filtered, passed, flushed, Ending, drained, over, refused, taken, received, Rounds,
  on, out, round-Rounds,
}

module _ {D F B : Type 0} (ff : Ffmpeg D F B) where
  -- The frames that a call takes from the container, its result and the source after it.
  pub data Reads : Source D F B → List AvPacket → Option VideoPacket → Source D F B → Type 0 where
    last :
        {fs : List AvPacket} {o : Option VideoPacket} {s s' : Source D F B}
        → Ending ff s fs o s'
        → Reads s fs o s'
    more :
        {fs gs : List AvPacket} {o : Option VideoPacket} {s t s' : Source D F B}
        → Pass ff s fs t
        → Reads t gs o s'
        → Reads s (fs ++ gs) o s'

  pass_over-Opened : (p : AvPacket) (s : Source D F B) → Opened s → Opened (pass_over ff p s)
  unfolding pass_over collect
  pass_over-Opened p s o =
      if-elim Opened (is_index s.audio_idx p.stream_index)
        (λ _. record {
          has_container = o.has_container;
          has_packet = o.has_packet;
          has_video = o.has_video;
        })
        (λ _. o)

  pub Pass-Opened : {s t : Source D F B} {fs : List AvPacket} → Pass ff s fs t → Opened s → Opened t
  Pass-Opened (filtered p b e r v) o = record {
    has_container = refl;
    has_packet = o.has_packet;
    has_video = o.has_video;
  }
  Pass-Opened (passed p b e r v) o =
      pass_over-Opened p _
        (record { has_container = refl; has_packet = o.has_packet; has_video = o.has_video })
  Pass-Opened (flushed b e r v) o = record {
    has_container = refl;
    has_packet = o.has_packet;
    has_video = o.has_video;
  }

  Ending-Opened :
      {s t : Source D F B} {fs : List AvPacket} {v : Option VideoPacket}
      → Ending ff s fs v t
      → Opened s
      → Opened t
  unfolding process_packet anchor_pts
  Ending-Opened (drained b) o = record {
    has_container = o.has_container;
    has_packet = o.has_packet;
    has_video = o.has_video;
  }
  Ending-Opened (over b e r) o = record {
    has_container = refl;
    has_packet = o.has_packet;
    has_video = o.has_video;
  }
  Ending-Opened (refused p b e r v) o = record {
    has_container = refl;
    has_packet = o.has_packet;
    has_video = o.has_video;
  }
  Ending-Opened (taken p b s' e r v q) o = record {
    has_container = ap (λ t. is_some t.fmt_ctx) q;
    has_packet = ap (λ t. t.pkt) q ∙ o.has_packet;
    has_video = ap (λ t. is_some t.video_idx) q ∙ o.has_video;
  }
  Ending-Opened (received p b s' q) o = record {
    has_container = ap (λ t. is_some t.fmt_ctx) q ∙ o.has_container;
    has_packet = ap (λ t. t.pkt) q ∙ o.has_packet;
    has_video = ap (λ t. is_some t.video_idx) q ∙ o.has_video;
  }

  pub Reads-Opened :
      {s t : Source D F B} {fs : List AvPacket} {v : Option VideoPacket}
      → Reads s fs v t
      → Opened s
      → Opened t
  Reads-Opened (last e) o = Ending-Opened e o
  Reads-Opened (more p r) o = Reads-Opened r (Pass-Opened p o)

  -- How a call ends, if it does.
  pub data Returns (s : Source D F B) : Read (Option VideoPacket) (Source D F B) → Type 0 where
    returns :
        {fs : List AvPacket} {o : Option VideoPacket} {s' : Source D F B}
        → Reads s fs o s'
        → Returns s (ended o s')
    waits : Returns s runs_on

  more_rounds :
      {s t : Source D F B} {fs : List AvPacket} {r : Read (Option VideoPacket) (Source D F B)}
      → Pass ff s fs t
      → Returns t r
      → Returns s r
  more_rounds p (returns r) = returns (more p r)
  more_rounds p waits = waits

  -- The loop never meets a null pointer in an open file, and what it returns comes by its rounds.
  pub read_loop-Returns : (fuel : ℕ) (s : Source D F B) → Opened s → Returns s (read_loop ff fuel s)
  unfolding read_loop
  read_loop-Returns zero s o = waits
  read_loop-Returns (suc fuel) s o =
      by_round (round ff s) (round-Rounds ff s o) (λ t p. read_loop-Returns fuel t p)
    where
      by_round :
          (r : Round (Source D F B))
          → Rounds ff s r
          → ((t : Source D F B) → Opened t → Returns t (read_loop ff fuel t))
          → Returns s (elim r [
            | fails ↦ crashes
            | ends v s' ↦ ended v s'
            | goes_on s' ↦ read_loop ff fuel s'
          ])
      by_round (goes_on s') (on p) rest = more_rounds p (rest s' (Pass-Opened p o))
      by_round (ends v s') (out e) rest = returns (last e)
      by_round fails x rest = elim x [ ]
