-- ===== src/Session/Handlers/Transitions/SettingUp.antt =====
-- The answers to SETUP.
use rtsp_server.Prelude.{
  ℕ, ◌≡◌, refl, sym, ◌∙◌, subst, inl, inr, Bool, false, [], if◌then◌else◌, if-elim, arith,
  Bool-cases, Option-cases, not, ◌||◌,
}
use rtsp_server.Prelude.Bits.{Bytes}
use rtsp_server.Prelude.Text.{codes, bytes_eq}
use rtsp_server.Prelude.Numbers.{stoi}
use rtsp_server.Rtsp.Request.{Request, lookup, header}
use rtsp_server.Rtsp.Response.{bytes_lt, put, setup}
use rtsp_server.Session.State.{ready, Session, Env}
use rtsp_server.Session.Handlers.Setup.{
  names_audio, accept, install, bind_channels, setup_interleaved, setup_port, setup_datagram,
  port_text, port_of, udp_transport, wants_tcp, has_source, handle_setup,
}
use rtsp_server.Session.Handlers.Transitions.{
  on_method, Kept, returned-Settled, threw-Settled, Moves, sets_up_audio, sets_up_video, Answered,
  Settled, send-Answered, error-Answered,
}
use rtsp_server.Rtp.Sender.{Sender, fresh, setup_udp, get_local_port}

module _ {M D : Type 0} (env : Env M D) where
  accept-Answered :
      (req : Request) (transport : Bytes) (s s' : Session M D)
      → req.method ≡ codes "SETUP"
      → s'.outbox ≡ s.outbox
      → s'.state ≡ s.state
      → Answered req s (accept env req transport s')
  unfolding accept names_audio setup lookup put bytes_eq bytes_lt
  accept-Answered req transport s s' e q k = elim (Bool-cases (names_audio req.url)) [
    | inl h ↦
        rw (h, if◌then◌else◌)
          (send-Answered req s s' _ 200 q (refl, refl)
            (on_method (λ m. Moves req.url m 200 s.state s'.state) e
              (subst (Moves req.url (codes "SETUP") 200 s.state) (sym k) (sets_up_audio h))))
    | inr h ↦
        rw (h, if◌then◌else◌)
          (send-Answered req s (record s' { state = ready }) _ 200 q (refl, refl)
            (on_method (λ m. Moves req.url m 200 s.state ready) e (sets_up_video h)))
  ]

  install-Kept :
      (req : Request) (x : Sender) (b : Bool) (s : Session M D) → Kept s (install env req x b s)
  unfolding install Kept
  install-Kept req x b s = ground arith

  setup_port-Answered :
      (req : Request) (port : ℕ) (s s' : Session M D)
      → req.method ≡ codes "SETUP"
      → Kept s s'
      → Answered req s (setup_port env req port s')
  unfolding setup_port Kept
  setup_port-Answered req port s s' e k =
      let r = setup_udp env.sockets fresh s'.client_ip port in
      let i = install-Kept req r.0 r.1 s' in
      let q = i.0 ∙ k.0 in
      let st = i.1 ∙ k.1 in
      if-elim (Answered req s) r.1
        (λ _. accept-Answered req (udp_transport port (get_local_port env.sockets r.0)) s _ e q st)
        (λ _.
          error-Answered env.date req s _ 500 (codes "Internal Server Error") (omega arith) q st)

  datagram-Kept : (s : Session M D) → Kept s (record s { use_tcp = false })
  unfolding Kept
  datagram-Kept s = (refl, refl)

  setup_datagram-Settled :
      (req : Request) (hdr : Bytes) (s : Session M D)
      → req.method ≡ codes "SETUP"
      → Settled req s (setup_datagram env req hdr s)
  unfolding setup_datagram Settled
  setup_datagram-Settled req hdr s e =
      let s' = record s { use_tcp = false } in
      elim (Option-cases (port_text hdr)) [
        | inl h ↦
            rw (h, setup_datagram)
              (error-Answered env.date req s s' 461 (codes "Unsupported Transport") (omega arith)
                refl refl)
        | inr (text, h) ↦ elim (Option-cases (stoi text)) [
          | inl k ↦ rw (h, k, setup_datagram) (refl, refl)
          | inr (port, k) ↦
              rw (h, k, setup_datagram)
                (setup_port-Answered req (port_of port) s s' e (datagram-Kept s))
        ]
      ]

  bind_channels-Kept :
      (req : Request) (hdr : Bytes) (s : Session M D) → Kept s (bind_channels env req hdr s).0
  unfolding bind_channels Kept
  bind_channels-Kept req hdr s = ground arith

  setup_interleaved-Settled :
      (req : Request) (hdr : Bytes) (s : Session M D)
      → req.method ≡ codes "SETUP"
      → Settled req s (setup_interleaved env req hdr s)
  unfolding setup_interleaved Kept
  setup_interleaved-Settled req hdr s e =
      let b = bind_channels env req hdr s in
      let k = bind_channels-Kept req hdr s in
      if-elim (Settled req s) b.1
        (λ _. returned-Settled req s _ (accept-Answered req _ s b.0 e k.0 k.1))
        (λ _. threw-Settled req s b.0 k.0 k.1)

  pub setup-Settled :
      (req : Request) (s : Session M D)
      → req.method ≡ codes "SETUP"
      → Settled req s (handle_setup env req s)
  unfolding handle_setup
  setup-Settled req s e =
      let hdr = header req (codes "transport") in
      if-elim (Settled req s) (not s.describe_done || not (has_source env s))
        (λ _. returned-Settled req s _ (
          error-Answered env.date req s s 455 (codes "Method Not Valid In This State") (omega arith)
            refl refl))
        (λ _.
          if-elim (Settled req s) (bytes_eq hdr [])
            (λ _.
              returned-Settled req s _
                (error-Answered env.date req s s 400 (codes "Bad Request") (omega arith) refl refl))
            (λ _.
              if-elim (Settled req s) (wants_tcp hdr) (λ _. setup_interleaved-Settled req hdr s e)
                (λ _. setup_datagram-Settled req hdr s e)))
