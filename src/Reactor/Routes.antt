-- ===== src/Reactor/Routes.antt =====
-- The way of a request from the dispatcher to its session.
use rtsp_server.Prelude.{
  ℕ, ◌≡◌, ◌≢◌, refl, sym, ap, ◌∙◌, subst, inl, inr, true, false, [], ◌∷◌, ◌++◌, List, some, ◌==◌,
  ==_iff, if◌then◌else◌, arith, Bool-cases, Option-cases, append_assoc, append-nil,
}
use rtsp_server.Prelude.Bits.{Bytes}
use rtsp_server.Doubles.{Doubles}
use rtsp_server.Rtsp.Request.{Request}
use rtsp_server.Session.State.{Session, create}
use rtsp_server.Reactor.{
  Reactor, Draw, accept_client, close_session, session_of, store, push_command, route, route_all,
  logic,
}
use rtsp_server.Reactor.Tables.{get, get-put, get-put_other, get-erase, erase}

-- The requests that came from a descriptor, in order.
unfoldable pub from_fd : ℕ → List (ℕ × Request) → List Request
from_fd fd [] = []
from_fd fd ((k, req) ∷ cs) = let rest = from_fd fd cs in if k == fd then req ∷ rest else rest

from_fd-own :
    (fd k : ℕ) (req : Request) (cs : List (ℕ × Request))
    → (k == fd) ≡ true
    → from_fd fd ((k, req) ∷ cs) ≡ req ∷ from_fd fd cs
unfolding from_fd
from_fd-own fd k req cs h = rw (h, if◌then◌else◌) refl

from_fd-other :
    (fd k : ℕ) (req : Request) (cs : List (ℕ × Request))
    → (k == fd) ≡ false
    → from_fd fd ((k, req) ∷ cs) ≡ from_fd fd cs
unfolding from_fd
from_fd-other fd k req cs h = rw (h, if◌then◌else◌) refl

module _ {M D : Type 0} where
  -- The session that a descriptor has.
  pub record Serves (fd id : ℕ) (s : Session M D) (r : Reactor M D) : Type 0 where
    pub mapped : get fd r.sessions ≡ some id
    pub held : get id r.heap ≡ some s
    pub alone : (k : ℕ) → get k r.sessions ≡ some id → k ≡ fd

  abbrev pub queue_all : List Request → Session M D → Session M D
  queue_all reqs s = record s { cmd_queue = s.cmd_queue ++ reqs }

  session_of-some :
      (fd id : ℕ) (s : Session M D) (r : Reactor M D)
      → get fd r.sessions ≡ some id
      → get id r.heap ≡ some s
      → session_of fd r ≡ some (id, s)
  unfolding session_of
  session_of-some fd id s r m h = ground arith

  route_own :
      (fd id : ℕ) (s : Session M D) (req : Request) (r : Reactor M D)
      → Serves fd id s r
      → Serves fd id (push_command req s) (route (fd, req) r)
  unfolding route
  route_own fd id s req r v =
      rw (session_of-some fd id s r v.mapped v.held, route)
        (record {
          mapped = v.mapped;
          held = get-put id (push_command req s) r.heap;
          alone = v.alone;
        })

  route_other :
      (fd k id : ℕ) (s : Session M D) (req : Request) (r : Reactor M D)
      → Serves fd id s r
      → k ≢ fd
      → Serves fd id s (route (k, req) r)
  unfolding route session_of
  route_other fd k id s req r v n = elim (Option-cases (get k r.sessions)) [
    | inl e ↦ rw (e, route, session_of) v
    | inr (i, e) ↦ elim (Option-cases (get i r.heap)) [
      | inl h ↦ rw (e, h, route, session_of) v
      | inr (u, h) ↦
          rw (e, h, route, session_of)
            (record {
              mapped = v.mapped;
              held =
                  get-put_other id i _ r.heap (λ q. n (v.alone k (e ∙ ap some (sym q)))) ∙ v.held;
              alone = v.alone;
            })
    ]
  ]

  queue_all-nil : (s : Session M D) → s ≡ queue_all [] s
  queue_all-nil s = ap (λ q. record s { cmd_queue = q }) (sym (append-nil s.cmd_queue))

  queue_all-cons :
      (req : Request) (reqs : List Request) (s : Session M D)
      → queue_all reqs (push_command req s) ≡ queue_all (req ∷ reqs) s
  queue_all-cons req reqs s =
      ap (λ q. record s { cmd_queue = q }) (append_assoc s.cmd_queue (req ∷ []) reqs)

  accepted-mapped :
      (d : Doubles D) (fd : ℕ) (ip : Bytes) (draw : Draw) (r : Reactor M D)
      → get fd (accept_client d fd ip draw true (close_session fd r)).sessions ≡ some r.next
  unfolding accept_client close_session
  accepted-mapped d fd ip draw r =
      rw (get-erase fd r.sessions, accept_client) (get-put fd r.next (erase fd r.sessions))

  accepted-held :
      (d : Doubles D) (fd : ℕ) (ip : Bytes) (draw : Draw) (r : Reactor M D)
      → get r.next (accept_client d fd ip draw true (close_session fd r)).heap
        ≡ some (create d ip r.media_root draw.session_id draw.ssrc draw.audio_ssrc)
  unfolding accept_client close_session
  accepted-held d fd ip draw r = get-put r.next _ r.heap

  routed :
      (fd id : ℕ) (s : Session M D) (req : Request) (r : Reactor M D)
      → get fd r.sessions ≡ some id
      → get id r.heap ≡ some s
      → session_of fd (route (fd, req) r) ≡ some (id, push_command req s)
  unfolding route
  routed fd id s req r m h =
      rw (session_of-some fd id s r m h, route)
        (session_of-some fd id (push_command req s) (store id (push_command req s) r) m
          (get-put id (push_command req s) r.heap))

  route_all-Serves :
      (cs : List (ℕ × Request)) (fd id : ℕ) (s : Session M D) (r : Reactor M D)
      → Serves fd id s r
      → Serves fd id (queue_all (from_fd fd cs) s) (route_all cs r)
  unfolding route_all
  route_all-Serves [] fd id s r v =
      unfold from_fd in subst (λ u. Serves fd id u r) (queue_all-nil s) v
  route_all-Serves ((k, req) ∷ cs) fd id s r v = elim (Bool-cases (k == fd)) [
    | inl h ↦
        let first : Serves fd id (push_command req s) (route (k, req) r) =
          subst (λ x. Serves fd id (push_command req s) (route (x, req) r))
            (sym ((==_iff k fd).0 h)) (route_own fd id s req r v) in
        subst (λ u. Serves fd id u (route_all cs (route (k, req) r)))
          (queue_all-cons req (from_fd fd cs) s
            ∙ ap (λ q. queue_all q s) (sym (from_fd-own fd k req cs h)))
          (route_all-Serves cs fd id (push_command req s) (route (k, req) r) first)
    | inr h ↦
        let first : Serves fd id s (route (k, req) r) =
          route_other fd k id s req r v (λ q. ground (arith, q, h)) in
        subst (λ u. Serves fd id u (route_all cs (route (k, req) r)))
          (ap (λ q. queue_all q s) (sym (from_fd-other fd k req cs h)))
          (route_all-Serves cs fd id s (route (k, req) r) first)
  ]

  -- A round of the logic thread appends to the queue of a session the requests that came from its
  -- descriptor, all of them and in their order, and changes nothing else of the session.
  pub logic_lem :
      (fd id : ℕ) (s : Session M D) (r : Reactor M D)
      → Serves fd id s r
      → Serves fd id (queue_all (from_fd fd r.cmd_queue) s) (logic r)
  unfolding logic
  logic_lem fd id s r v =
      route_all-Serves r.cmd_queue fd id s (record r { cmd_queue = [] })
        (record { mapped = v.mapped; held = v.held; alone = v.alone })

  -- A request of a connection that is closed before the logic thread has run stays queued, and when
  -- the next connection has the same descriptor, the logic thread gives it to that client's session.
  pub stale_command :
      (d : Doubles D) (fd : ℕ) (ip : Bytes) (draw : Draw) (req : Request) (r : Reactor M D)
      → r.cmd_queue ≡ (fd, req) ∷ []
      → session_of fd (logic (accept_client d fd ip draw true (close_session fd r)))
        ≡ some (
          r.next,
          push_command req (create d ip r.media_root draw.session_id draw.ssrc draw.audio_ssrc),
        )
  unfolding logic route_all
  stale_command d fd ip draw req r q =
      let fresh = create d ip r.media_root draw.session_id draw.ssrc draw.audio_ssrc in
      let r' = accept_client d fd ip draw true (close_session fd r) in
      let kept : r'.cmd_queue ≡ (fd, req) ∷ [] =
        unfold accept_client in unfold close_session in q in
      let m : get fd r'.sessions ≡ some r.next = accepted-mapped d fd ip draw r in
      let h : get r.next r'.heap ≡ some fresh = accepted-held d fd ip draw r in
      ap (λ cs. session_of fd (route_all cs (record r' { cmd_queue = [] }))) kept
      ∙ routed fd r.next fresh req (record r' { cmd_queue = [] }) m h
