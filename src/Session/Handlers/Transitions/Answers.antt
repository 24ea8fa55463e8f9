-- ===== src/Session/Handlers/Transitions/Answers.antt =====
-- Each request is answered once.
use rtsp_server.Prelude.{◌≡◌, refl, sym, subst, inl, inr, if-elim, arith, Option-cases}
use rtsp_server.Prelude.Text.{codes, bytes_eq, bytes_eq_sound}
use rtsp_server.Rtsp.Request.{Request, lookup, cseq}
use rtsp_server.Rtsp.Response.{bytes_lt, put, options, ok}
use rtsp_server.Session.State.{State, init, ready, playing, paused, Session, Env}
use rtsp_server.Session.Outbox.{send_response}
use rtsp_server.Session.Handlers.{
  handle_options, pause_response, pause_in, handle_pause, handle_teardown, handle_request,
}
use rtsp_server.Session.Handlers.Play.{handle_play}
use rtsp_server.Session.Handlers.Transitions.{
  on_method, returned-Settled, Moves, lists, pauses, tears_down, Answered, Settled, IsNumbered,
  send-Answered, error-Answered, ok-IsNumbered, ok-range-IsNumbered,
}
use rtsp_server.Session.Handlers.Transitions.Opening.{describe-Settled}
use rtsp_server.Session.Handlers.Transitions.Playing.{play_in-Answered}
use rtsp_server.Session.Handlers.Transitions.SettingUp.{setup-Settled}

module _ {M D : Type 0} (env : Env M D) where
  options-Settled :
      (req : Request) (s : Session M D)
      → req.method ≡ codes "OPTIONS"
      → Answered req s (handle_options env req s)
  unfolding handle_options options lookup put bytes_eq bytes_lt
  options-Settled req s e =
      send-Answered req s s _ 200 refl (refl, refl)
        (on_method (λ m. Moves req.url m 200 s.state s.state) e lists)

  teardown-Settled :
      (req : Request) (s : Session M D)
      → req.method ≡ codes "TEARDOWN"
      → Answered req s (handle_teardown env req s)
  unfolding handle_teardown
  teardown-Settled req s e =
      let r = ok env.date (cseq req) s.session_id in
      let a : Answered req s (send_response r (record s { state = init })) =
        send-Answered req s _ r 200 refl (ok-IsNumbered env.date (cseq req) s.session_id)
          (on_method (λ m. Moves req.url m 200 s.state init) e tears_down) in
      record { response = a.response; queued = a.queued; numbered = a.numbered; moved = a.moved }

  pause_response-IsNumbered :
      (req : Request) (s : Session M D) → IsNumbered (pause_response env req s) 200 (cseq req)
  unfolding pause_response
  pause_response-IsNumbered req s = elim (Option-cases s.media_source) [
    | inl h ↦ rw (h, pause_response) (ok-IsNumbered env.date (cseq req) s.session_id)
    | inr (m, h) ↦ rw (h, pause_response) (ok-range-IsNumbered env.date (cseq req) s.session_id _)
  ]

  pause_in-Answered :
      (a : State) (req : Request) (s : Session M D)
      → s.state ≡ a
      → req.method ≡ codes "PAUSE"
      → Answered req s (pause_in env a req s)
  unfolding pause_in
  pause_in-Answered init req s h e = error-Answered env.date req s s 455 _ (omega arith) refl refl
  pause_in-Answered ready req s h e = error-Answered env.date req s s 455 _ (omega arith) refl refl
  pause_in-Answered paused req s h e = error-Answered env.date req s s 455 _ (omega arith) refl refl
  pause_in-Answered playing req s h e =
      send-Answered req s (record s { pause_start = env.clock_now; state = paused })
        (pause_response env req s) 200 refl (pause_response-IsNumbered req s)
        (on_method (λ m. Moves req.url m 200 s.state paused) e
          (subst (λ a. Moves req.url (codes "PAUSE") 200 a paused) (sym h) pauses))

  -- Every request is answered once, with its CSeq, and moves the session's state as the status of
  -- the answer says; or an exception leaves the queue of responses and the state as they were.
  pub handle_request-Settled :
      (req : Request) (s : Session M D) → Settled req s (handle_request env req s)
  unfolding handle_request handle_pause handle_play
  handle_request-Settled req s =
      let P = Settled req s in
      if-elim P (bytes_eq req.method (codes "OPTIONS"))
        (λ h. returned-Settled req s _ (options-Settled req s (bytes_eq_sound _ _ h)))
        (λ _.
          if-elim P (bytes_eq req.method (codes "DESCRIBE"))
            (λ h. describe-Settled env req s (bytes_eq_sound _ _ h))
            (λ _.
              if-elim P (bytes_eq req.method (codes "SETUP"))
                (λ h. setup-Settled env req s (bytes_eq_sound _ _ h))
                (λ _.
                  if-elim P (bytes_eq req.method (codes "PLAY"))
                    (λ h.
                      returned-Settled req s _
                        (play_in-Answered env s.state req s refl (bytes_eq_sound _ _ h)))
                    (λ _.
                      if-elim P (bytes_eq req.method (codes "PAUSE"))
                        (λ h.
                          returned-Settled req s _
                            (pause_in-Answered s.state req s refl (bytes_eq_sound _ _ h)))
                        (λ _.
                          if-elim P (bytes_eq req.method (codes "TEARDOWN"))
                            (λ h.
                              returned-Settled req s _
                                (teardown-Settled req s (bytes_eq_sound _ _ h)))
                            (λ _. returned-Settled req s _ (
                              error-Answered env.date req s s 501 (codes "Not Implemented")
                                (omega arith) refl refl)))))))
