-- ===== src/Session/Handlers/Clock.antt =====
-- The pacing clock over a pause.
use rtsp_server.Prelude.{◌≡◌, sym, ap, ◌∙◌, subst, Bool, true, false, Option, arith}
use rtsp_server.Prelude.Numbers.{ℤ, pos, ◌+ℤ◌, ◌-ℤ◌}
use rtsp_server.Rtsp.Request.{Request}
use rtsp_server.Rtsp.Response.{Response}
use rtsp_server.Media.Packets.{VideoPacket}
use rtsp_server.Session.State.{State, playing, paused, Session, Env}
use rtsp_server.Session.Outbox.{push_outbox, send_response}
use rtsp_server.Session.Handlers.{pause_response, pause_in, handle_pause}
use rtsp_server.Session.Handlers.Play.{
  is_set, resume, play_resumed, play_case, played, play_in, handle_play,
}

module _ {M D : Type 0} where
  -- What paces the frames.
  pub record Pacing (s : Session M D) (st : State) (wall pause : ℤ) (first : Bool) (m : Option M)
      (vp : Option VideoPacket) : Type 0 where
    pub in_state : s.state ≡ st
    pub wall_at : s.wall_start ≡ wall
    pub pause_at : s.pause_start ≡ pause
    pub first_as : s.first_frame ≡ first
    pub source_as : s.media_source ≡ m
    pub held_as : s.pending_vp ≡ vp

  send_response-Pacing :
      (r : Response) (s : Session M D)
      → Pacing
          (send_response r s)
          s.state
          s.wall_start
          s.pause_start
          s.first_frame
          s.media_source
          s.pending_vp
  unfolding send_response push_outbox
  send_response-Pacing r s = record {
    in_state = ground arith;
    wall_at = ground arith;
    pause_at = ground arith;
    first_as = ground arith;
    source_as = ground arith;
    held_as = ground arith;
  }

  pause-Pacing :
      (env : Env M D) (req : Request) (a : State) (s : Session M D)
      → a ≡ playing
      → Pacing
          (pause_in env a req s)
          paused
          s.wall_start
          env.clock_now
          s.first_frame
          s.media_source
          s.pending_vp
  unfolding pause_in
  pause-Pacing env req a s h =
      subst
        (λ b.
          Pacing (pause_in env b req s) paused s.wall_start env.clock_now s.first_frame
            s.media_source s.pending_vp)
        (sym h)
        (send_response-Pacing (pause_response env req s)
          (record s { pause_start = env.clock_now; state = paused }))

  resume-Pacing :
      (env : Env M D) (s : Session M D)
      → is_set s.pause_start ≡ true
      → s.first_frame ≡ false
      → Pacing
          (resume env s)
          s.state
          (s.wall_start +ℤ (env.clock_now -ℤ s.pause_start))
          (pos 0)
          false
          s.media_source
          s.pending_vp
  unfolding resume
  resume-Pacing env s h f = record {
    in_state = ground (arith, h, f);
    wall_at = ground (arith, h, f);
    pause_at = ground (arith, h, f);
    first_as = ground (arith, h, f);
    source_as = ground (arith, h, f);
    held_as = ground (arith, h, f);
  }

  play-Pacing :
      (env : Env M D) (req : Request) (a : State) (s : Session M D)
      → a ≡ paused
      → is_set s.pause_start ≡ true
      → s.first_frame ≡ false
      → Pacing
          (play_in env a req s)
          playing
          (s.wall_start +ℤ (env.clock_now -ℤ s.pause_start))
          (pos 0)
          false
          s.media_source
          s.pending_vp
  unfolding play_in play_case play_resumed played
  play-Pacing env req a s h i f =
      let r = resume-Pacing env s i f in
      let q = send_response-Pacing _ (record (resume env s) { state = playing }) in
      subst
        (λ b.
          Pacing (play_in env b req s) playing (s.wall_start +ℤ (env.clock_now -ℤ s.pause_start))
            (pos 0) false s.media_source s.pending_vp)
        (sym h)
        (record {
          in_state = q.in_state;
          wall_at = q.wall_at ∙ r.wall_at;
          pause_at = q.pause_at ∙ r.pause_at;
          first_as = q.first_as ∙ r.first_as;
          source_as = q.source_as ∙ r.source_as;
          held_as = q.held_as ∙ r.held_as;
        })

  -- A PAUSE while frames are sent and then a PLAY bring the session back to playing, with the same
  -- source and the same frame held, and move its clock by the length of the pause; the time of the
  -- pause is not the clock's zero.
  pub pause-play :
      (env env' : Env M D) (req req' : Request) (s : Session M D)
      → s.state ≡ playing
      → is_set env.clock_now ≡ true
      → s.first_frame ≡ false
      → Pacing
          (handle_play env' req' (handle_pause env req s))
          playing
          (s.wall_start +ℤ (env'.clock_now -ℤ env.clock_now))
          (pos 0)
          false
          s.media_source
          s.pending_vp
  unfolding handle_play handle_pause
  pause-play env env' req req' s h i f =
      let s' = pause_in env s.state req s in
      let p = pause-Pacing env req s.state s h in
      let q =
        play-Pacing env' req' s'.state s' p.in_state (ap is_set p.pause_at ∙ i) (p.first_as ∙ f) in
      record {
        in_state = q.in_state;
        wall_at =
            q.wall_at
            ∙ (ap (λ w. w +ℤ (env'.clock_now -ℤ s'.pause_start)) p.wall_at
                ∙ ap (λ z. s.wall_start +ℤ (env'.clock_now -ℤ z)) p.pause_at);
        pause_at = q.pause_at;
        first_as = q.first_as;
        source_as = q.source_as ∙ p.source_as;
        held_as = q.held_as ∙ p.held_as;
      }
