-- ===== src/Session/Handlers/Transitions/Playing.antt =====
-- The answers to PLAY.
use rtsp_server.Prelude.{
  ◌≡◌, refl, sym, ◌∙◌, subst, inl, inr, Bool, true, false, [], if◌then◌else◌, arith, Option-cases,
}
use rtsp_server.Prelude.Bits.{Bytes}
use rtsp_server.Prelude.Text.{codes, bytes_eq}
use rtsp_server.Rtsp.Request.{Request, cseq, header}
use rtsp_server.Rtsp.Response.{play}
use rtsp_server.Session.State.{State, init, ready, playing, paused, Session, Env}
use rtsp_server.Session.Handlers.Play.{
  seek_and_reset, resume, peeked, restart, npt_range, play_fresh, play_scaled, play_resumed,
  play_case, played, play_in,
}
use rtsp_server.Session.Handlers.Transitions.{
  on_method, Kept, Playable, from_ready, from_playing, from_paused, Moves, plays, Answered,
  send-Answered, error-Answered, play-IsNumbered,
}

module _ {M D : Type 0} (env : Env M D) where
  seek_and_reset-Kept :
      (secs : D) (adjust : Bool) (s : Session M D) → Kept s (seek_and_reset env secs adjust s)
  unfolding seek_and_reset Kept
  seek_and_reset-Kept secs adjust s = elim (Option-cases s.media_source) [
    | inl h ↦ rw (h, seek_and_reset) (refl, refl)
    | inr (m, h) ↦ rw (h, seek_and_reset) (refl, refl)
  ]

  peeked-Kept : (s : Session M D) → Kept s (peeked env s).1
  unfolding peeked Kept
  peeked-Kept s = elim (Option-cases s.media_source) [
    | inl h ↦ rw (h, peeked) (refl, refl)
    | inr (m, h) ↦ rw (h, peeked) (refl, refl)
  ]

  play_fresh-Kept :
      (url : Bytes) (r : D × D × Bool) (s : Session M D) → Kept s (play_fresh env url r s).0
  unfolding play_fresh Kept restart
  play_fresh-Kept url (start, end, seeks) s =
      let from = if seeks then start else env.doubles.zero_d in
      let a = seek_and_reset-Kept from false s in
      let b = peeked-Kept (restart env end (seek_and_reset env from false s)) in
      (b.0 ∙ a.0, b.1 ∙ a.1)

  start_case-outbox :
      (req : Request) (s : Session M D)
      → (if bytes_eq (header req (codes "scale")) []
          then play_fresh env req.url (npt_range env (header req (codes "range"))) s
          else play_scaled env s).0.outbox
        ≡ s.outbox
  unfolding Kept play_scaled
  start_case-outbox req s = ground (
    arith,
    play_fresh-Kept req.url (npt_range env (header req (codes "range"))) s,
    seek_and_reset-Kept s.last_keyframe_npt true s,
  )

  resume-outbox : (s : Session M D) → (resume env s).outbox ≡ s.outbox
  unfolding resume
  resume-outbox s = ground arith

  started-outbox :
      (a : State) (req : Request) (s : Session M D) → (play_case env a req s).0.outbox ≡ s.outbox
  unfolding play_case play_scaled play_resumed Kept
  started-outbox paused req s = resume-outbox s
  started-outbox init req s = start_case-outbox req s
  started-outbox ready req s = start_case-outbox req s
  started-outbox playing req s = start_case-outbox req s

  played-Answered :
      (a : State) (req : Request) (s : Session M D)
      → Playable a
      → s.state ≡ a
      → req.method ≡ codes "PLAY"
      → Answered req s (played env req s.session_id (play_case env a req s))
  unfolding played
  played-Answered a req s p h e =
      let o = play_case env a req s in
      send-Answered req s (record o.0 { state = playing })
        (play env.date (cseq req) s.session_id o.1 o.2) 200 (started-outbox a req s)
        (play-IsNumbered env.date (cseq req) s.session_id o.1 o.2)
        (on_method (λ m. Moves req.url m 200 s.state playing) e
          (subst (λ b. Moves req.url (codes "PLAY") 200 b playing) (sym h) (plays p)))

  pub play_in-Answered :
      (a : State) (req : Request) (s : Session M D)
      → s.state ≡ a
      → req.method ≡ codes "PLAY"
      → Answered req s (play_in env a req s)
  unfolding play_in
  play_in-Answered init req s h e = error-Answered env.date req s s 455 _ (omega arith) refl refl
  play_in-Answered ready req s h e = played-Answered ready req s from_ready h e
  play_in-Answered playing req s h e = played-Answered playing req s from_playing h e
  play_in-Answered paused req s h e = played-Answered paused req s from_paused h e
