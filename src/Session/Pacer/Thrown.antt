-- ===== src/Session/Pacer/Thrown.antt =====
-- A request at which a tick ends with an exception.
use rtsp_server.Prelude.{
  ℕ, ◌≡◌, refl, ap, ◌∙◌, Bool, true, false, not, ◌||◌, [], ◌∷◌, List, none, some, if◌then◌else◌,
  arith,
}
use rtsp_server.Prelude.Bits.{Bytes}
use rtsp_server.Prelude.Text.{codes, bytes_eq}
use rtsp_server.Prelude.Numbers.{ℤ, stoi}
use rtsp_server.Rtsp.Request.{Request, header}
use rtsp_server.Session.State.{threw, Session, Env}
use rtsp_server.Session.Handlers.{handle_request}
use rtsp_server.Session.Handlers.Setup.{
  wants_tcp, port_text, has_source, setup_datagram, handle_setup,
}
use rtsp_server.Session.Pacer.{drain, after_drain, pacer_tick}

if_true : {A : Type 0} (x y : A) (b : Bool) → b ≡ true → (if b then x else y) ≡ x
if_true x y true h = refl
if_true x y false h = absurd (cc)

if_false : {A : Type 0} (x y : A) (b : Bool) → b ≡ false → (if b then x else y) ≡ y
if_false x y false h = refl
if_false x y true h = absurd (cc)

module _ {M D : Type 0} (env : Env M D) where
  -- A SETUP over UDP after a DESCRIBE, whose client port is no number.
  pub record MalformedPort (req : Request) (s : Session M D) : Type 0 where
    pub method : req.method ≡ codes "SETUP"
    pub described : s.describe_done ≡ true
    pub sourced : has_source env s ≡ true
    pub given : bytes_eq (header req (codes "transport")) [] ≡ false
    pub over_udp : wants_tcp (header req (codes "transport")) ≡ false
    pub text : Bytes
    pub port : port_text (header req (codes "transport")) ≡ some text
    pub no_number : stoi text ≡ none

  handle_setup-MalformedPort :
      (req : Request) (s : Session M D)
      → MalformedPort req s
      → handle_setup env req s ≡ threw (record s { use_tcp = false })
  unfolding handle_setup setup_datagram
  handle_setup-MalformedPort req s m =
      let refused : (not s.describe_done || not (has_source env s)) ≡ false =
        ground (arith, m.described, m.sourced) in
      if_false _ _ _ refused ∙ (if_false _ _ _ m.given ∙ (if_false _ _ _ m.over_udp ∙ thrown))
    where
      thrown :
          setup_datagram env req (header req (codes "transport")) s
          ≡ threw (record s { use_tcp = false })
      thrown = rw (m.port, m.no_number, setup_datagram) refl

  handle_request-MalformedPort :
      (req : Request) (s : Session M D)
      → MalformedPort req s
      → handle_request env req s ≡ threw (record s { use_tcp = false })
  unfolding handle_request bytes_eq
  handle_request-MalformedPort req s m =
      let no_options : bytes_eq req.method (codes "OPTIONS") ≡ false =
        ap (λ x. bytes_eq x (codes "OPTIONS")) m.method in
      let no_describe : bytes_eq req.method (codes "DESCRIBE") ≡ false =
        ap (λ x. bytes_eq x (codes "DESCRIBE")) m.method in
      let is_setup : bytes_eq req.method (codes "SETUP") ≡ true =
        ap (λ x. bytes_eq x (codes "SETUP")) m.method in
      if_false _ _ _ no_options
      ∙ (if_false _ _ _ no_describe ∙ (if_true _ _ _ is_setup ∙ handle_setup-MalformedPort req s m))

  -- The tick leaves the session as it found it, but for the request and the kind of transport.
  pub pacer_tick-MalformedPort :
      (fuel : ℕ) (now : ℤ) (req : Request) (rest : List Request) (s : Session M D)
      → s.cmd_queue ≡ req ∷ rest
      → MalformedPort req s
      → pacer_tick env fuel now s ≡ threw (record s { cmd_queue = rest; use_tcp = false })
  unfolding pacer_tick drain has_source
  pacer_tick-MalformedPort fuel now req rest s q m =
      let e : handle_request env req (record s { cmd_queue = rest })
          ≡ threw (record s { cmd_queue = rest; use_tcp = false }) =
        handle_request-MalformedPort req (record s { cmd_queue = rest })
          (record {
            method = m.method;
            described = m.described;
            sourced = m.sourced;
            given = m.given;
            over_udp = m.over_udp;
            text = m.text;
            port = m.port;
            no_number = m.no_number;
          }) in
      ap (λ c. after_drain env fuel now (drain env c s)) q ∙ rw (e, drain) refl
