-- ===== src/Session/Handlers/Transitions/Opening.antt =====
-- The answers to DESCRIBE.
use rtsp_server.Prelude.{
  ℕ, ◌≡◌, ◌≤◌, refl, sym, ap, ◌∙◌, subst, inl, inr, true, false, [], ◌∷◌, ◌++◌, none, some, if-elim,
  arith, Option-cases, ◌||◌,
}
use rtsp_server.Prelude.Bits.{Bytes}
use rtsp_server.Prelude.Text.{codes, bytes_eq}
use rtsp_server.Rtsp.Request.{Request, lookup, cseq}
use rtsp_server.Rtsp.Response.{to_string, bytes_lt, put, describe}
use rtsp_server.Session.State.{returned, threw, Session, Env}
use rtsp_server.Session.Handlers.Media.{
  Opened, refuse, open_file, open_existing, open_checked, open_media, escape_check, relative_path,
  described, after_open, handle_describe,
}
use rtsp_server.Session.Handlers.Transitions.{
  on_method, Moves, describes, Answered, Settled, send-Answered, error-Answered,
}
use rtsp_server.Utils.StringUtils.{url_path}

module _ {M D : Type 0} (env : Env M D) where
  -- What opening a source leaves: an answer, or the queue and the state as they were.
  Opens : Request → Session M D → Opened env → Type 0
  Opens req s (returned (s', none)) = Answered req s s'
  Opens req s (returned (s', some m)) = (s'.outbox ≡ s.outbox) × (s'.state ≡ s.state)
  Opens req s (threw (s', m)) = (s'.outbox ≡ s.outbox) × (s'.state ≡ s.state)

  refuse-Opens :
      (req : Request) (s : Session M D) (status : ℕ) (reason : Bytes)
      → 400 ≤ status
      → Opens req s (refuse env s (cseq req) status reason)
  unfolding refuse Opens
  refuse-Opens req s status reason h = error-Answered env.date req s s status reason h refl refl

  open_file-Opens :
      (req : Request) (full : Bytes) (s : Session M D)
      → Opens req s (open_file env full (cseq req) s)
  unfolding open_file refuse Opens
  open_file-Opens req full s = elim (Option-cases (env.open_source full)) [
    | inl e ↦ rw (e, open_file) (error-Answered env.date req s _ 415 _ (omega arith) refl refl)
    | inr (m, e) ↦ rw (e, open_file) (refl, refl)
  ]

  open_existing-Opens :
      (req : Request) (full : Bytes) (s : Session M D)
      → Opens req s (open_existing env full (cseq req) s)
  unfolding open_existing Opens refuse
  open_existing-Opens req full s = elim (Option-cases (env.exists full)) [
    | inl e ↦ rw (e, open_existing) (refl, refl)
    | inr (true, e) ↦ rw (e, open_existing) (open_file-Opens req full s)
    | inr (false, e) ↦
        rw (e, open_existing) (error-Answered env.date req s s 404 _ (omega arith) refl refl)
  ]

  open_checked-Opens :
      (req : Request) (full : Bytes) (s : Session M D)
      → Opens req s (open_checked env full (cseq req) s)
  unfolding open_checked Opens refuse
  open_checked-Opens req full s = elim (Option-cases (escape_check env s.media_root full)) [
    | inl e ↦ rw (e, open_checked) (refl, refl)
    | inr (true, e) ↦
        rw (e, open_checked) (error-Answered env.date req s s 403 _ (omega arith) refl refl)
    | inr (false, e) ↦ rw (e, open_checked) (open_existing-Opens req full s)
  ]

  open_media-Opens :
      (req : Request) (url : Bytes) (s : Session M D)
      → Opens req s (open_media env url (cseq req) s)
  unfolding open_media
  open_media-Opens req url s =
      let path = url_path url in
      let full = env.path_append s.media_root (relative_path path) in
      if-elim (Opens req s) (bytes_eq path [] || bytes_eq path (codes "/"))
        (λ _. refuse-Opens req s 404 (codes "Not Found") (omega arith))
        (λ _. open_checked-Opens req full s)

  after_open-Settled :
      (req : Request) (s s0 : Session M D) (o : Opened env)
      → req.method ≡ codes "DESCRIBE"
      → s0.outbox ≡ s.outbox
      → s0.state ≡ s.state
      → Opens req s0 o
      → Settled req s (after_open env req o)
  unfolding after_open described describe lookup put bytes_eq bytes_lt Settled Opens
  after_open-Settled req s s0 (threw (s', m)) e q k h = (h.0 ∙ q, h.1 ∙ k)
  after_open-Settled req s s0 (returned (s', none)) e q k h = record {
    response = h.response;
    queued = h.queued ∙ ap (λ o. o ++ to_string h.response ∷ []) q;
    numbered = h.numbered;
    moved = subst (λ a. Moves req.url req.method h.response.status a s'.state) k h.moved;
  }
  after_open-Settled req s s0 (returned (s', some m)) e q k h =
      send-Answered req s _ _ 200 (h.0 ∙ q) (refl, refl)
        (on_method (λ m. Moves req.url m 200 s.state s'.state) e
          (subst (Moves req.url (codes "DESCRIBE") 200 s.state) (sym (h.1 ∙ k)) describes))

  pub describe-Settled :
      (req : Request) (s : Session M D)
      → req.method ≡ codes "DESCRIBE"
      → Settled req s (handle_describe env req s)
  unfolding handle_describe
  describe-Settled req s e =
      after_open-Settled req s (record s { media_source = none }) _ e refl refl
        (open_media-Opens req req.url _)
