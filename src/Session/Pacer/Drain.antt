-- ===== src/Session/Pacer/Drain.antt =====
-- The commands of a session: they are run in order, and each is answered.
use rtsp_server.Prelude.{
  ◌≡◌, refl, sym, ap, ◌∙◌, subst, ◌⊎◌, inl, inr, Bool, true, false, [], ◌∷◌, ◌++◌, List, some, map,
  append-nil, append_assoc, Bool-cases, if◌then◌else◌,
}
use rtsp_server.Prelude.Text.{codes, bytes_eq}
use rtsp_server.Prelude.Numbers.{int_to_string}
use rtsp_server.Rtsp.Request.{Request, lookup, cseq}
use rtsp_server.Rtsp.Response.{Response, to_string}
use rtsp_server.Session.State.{Outcome, returned, threw, Session, Env}
use rtsp_server.Session.Handlers.{handle_request}
use rtsp_server.Session.Handlers.Transitions.{Answered, Settled}
use rtsp_server.Session.Handlers.Transitions.Answers.{handle_request-Settled}
use rtsp_server.Session.Pacer.{drain}

-- Responses to requests, one for each and in the same order, by their CSeq.
pub data Answers : List Request → List Response → Type 0 where
  done : Answers [] []
  answer :
      {req : Request} {reqs : List Request} {r : Response} {rs : List Response}
      → lookup (codes "CSeq") r.headers ≡ some (int_to_string (cseq req))
      → Answers reqs rs
      → Answers (req ∷ reqs) (r ∷ rs)

-- The commands up to the first TEARDOWN, with it, and whether there is one.
unfoldable pub through_teardown : List Request → List Request × Bool
through_teardown [] = ([], false)
through_teardown (req ∷ rest) =
    let later = through_teardown rest in
    if bytes_eq req.method (codes "TEARDOWN") then (req ∷ [], true) else (req ∷ later.0, later.1)

module _ {M D : Type 0} (env : Env M D) where
  -- What the commands leave: the answers to the commands that were run, and the others.
  pub record Drained (cmds : List Request) (s s' : Session M D) : Type 0 where
    pub run : List Request
    pub left : List Request
    pub responses : List Response
    pub in_order : run ++ left ≡ cmds
    pub answered : Answers run responses
    pub queued : s'.outbox ≡ s.outbox ++ map to_string responses

  -- Without an exception, the commands that are run are those up to the first TEARDOWN.
  unfoldable pub Drains : List Request → Session M D → Outcome (Session M D × Bool) → Type 0
  Drains cmds s (returned (s', torn)) =
      (d : Drained cmds s s') × (d.run ≡ (through_teardown cmds).0)
      × (torn ≡ (through_teardown cmds).1)
  Drains cmds s (threw (s', b)) = Drained cmds s s'

  one-Drained :
      (req : Request) (rest : List Request) (s s' : Session M D)
      → Answered req s s'
      → Drained (req ∷ rest) s s'
  one-Drained req rest s s' a = record {
    run = req ∷ [];
    left = rest;
    responses = a.response ∷ [];
    in_order = refl;
    answered = answer a.numbered done;
    queued = a.queued;
  }

  prepend_drained :
      (req : Request) (rest : List Request) (s s' s'' : Session M D)
      → Answered req s s'
      → Drained rest s' s''
      → Drained (req ∷ rest) s s''
  prepend_drained req rest s s' s'' a d = record {
    run = req ∷ d.run;
    left = d.left;
    responses = a.response ∷ d.responses;
    in_order = ap (λ l. req ∷ l) d.in_order;
    answered = answer a.numbered d.answered;
    queued =
        d.queued
        ∙ (ap (λ l. l ++ map to_string d.responses) a.queued
            ∙ append_assoc s.outbox (to_string a.response ∷ []) (map to_string d.responses));
  }

  no_drained : (cmds : List Request) (s s' : Session M D) → s'.outbox ≡ s.outbox → Drained cmds s s'
  no_drained cmds s s' e = record {
    run = [];
    left = cmds;
    responses = [];
    in_order = refl;
    answered = done;
    queued = e ∙ sym (append-nil s.outbox);
  }

  unqueued :
      (req : Request) (q : List Request) (s s' : Session M D)
      → Answered req (record s { cmd_queue = q }) s'
      → Answered req s s'
  unqueued req q s s' a = record {
    response = a.response;
    queued = a.queued;
    numbered = a.numbered;
    moved = a.moved;
  }

  Outcome-cases :
      (o : Outcome (Session M D))
      → ((s : Session M D) × (o ≡ returned s)) ⊎ ((s : Session M D) × (o ≡ threw s))
  Outcome-cases (returned s) = inl (s, refl)
  Outcome-cases (threw s) = inr (s, refl)

  Settled-returned :
      (req : Request) (s s' : Session M D) (o : Outcome (Session M D))
      → o ≡ returned s'
      → Settled req s o
      → Answered req s s'
  unfolding Settled
  Settled-returned req s s' o e h = subst (Settled req s) e h

  Settled-threw :
      (req : Request) (s s' : Session M D) (o : Outcome (Session M D))
      → o ≡ threw s'
      → Settled req s o
      → s'.outbox ≡ s.outbox
  unfolding Settled
  Settled-threw req s s' o e h = let r : Settled req s (threw s') = subst (Settled req s) e h in r.0

  more-Drains :
      (req : Request) (rest : List Request) (s s' : Session M D) (o : Outcome (Session M D × Bool))
      → bytes_eq req.method (codes "TEARDOWN") ≡ false
      → Answered req s s'
      → Drains rest s' o
      → Drains (req ∷ rest) s o
  unfolding Drains prepend_drained no_drained through_teardown
  more-Drains req rest s s' (returned (s'', torn)) n a (d, k, b) = (
    prepend_drained req rest s s' s'' a d,
    rw (n, if◌then◌else◌) (ap (λ l. req ∷ l) k),
    rw (n, if◌then◌else◌) b,
  )
  more-Drains req rest s s' (threw (s'', b)) n a d = prepend_drained req rest s s' s'' a d

  torn-Drains :
      (req : Request) (rest : List Request) (s s' : Session M D)
      → bytes_eq req.method (codes "TEARDOWN") ≡ true
      → Answered req s s'
      → Drains (req ∷ rest) s (returned (s', true))
  unfolding Drains prepend_drained no_drained through_teardown one-Drained
  torn-Drains req rest s s' n a =
      (one-Drained req rest s s' a, rw (n, if◌then◌else◌) refl, rw (n, if◌then◌else◌) refl)

  thrown-Drains :
      (cmds : List Request) (s s' : Session M D) (b : Bool)
      → s'.outbox ≡ s.outbox
      → Drains cmds s (threw (s', b))
  unfolding Drains prepend_drained no_drained
  thrown-Drains cmds s s' b e = no_drained cmds s s' e

  nil-Drains : (s : Session M D) → Drains [] s (returned (s, false))
  unfolding Drains prepend_drained no_drained through_teardown
  nil-Drains s = (no_drained [] s s refl, refl, refl)

  -- The commands that wait are run in the order in which they came, and each that is run is answered
  -- once and in this order; without an exception they are all run, or those up to the first TEARDOWN
  -- and with it, and the result says which.
  pub drain_lem : (cmds : List Request) (s : Session M D) → Drains cmds s (drain env cmds s)
  unfolding drain
  drain_lem [] s = nil-Drains s
  drain_lem (req ∷ rest) s =
      let s0 = record s { cmd_queue = rest } in
      let h = handle_request-Settled env req s0 in
      elim (Outcome-cases (handle_request env req s0)) [
        | inr (s', e) ↦
            rw (e, drain)
              (thrown-Drains (req ∷ rest) s s' true
                (Settled-threw req s0 s' (handle_request env req s0) e h))
        | inl (s', e) ↦
            let a =
              unqueued req rest s s' (Settled-returned req s0 s' (handle_request env req s0) e h) in
            elim (Bool-cases (bytes_eq req.method (codes "TEARDOWN"))) [
              | inl k ↦ rw (e, k, drain) (torn-Drains req rest s s' k a)
              | inr k ↦
                  rw (e, k, drain)
                    (more-Drains req rest s s' (drain env rest s') k a (drain_lem rest s'))
            ]
      ]
