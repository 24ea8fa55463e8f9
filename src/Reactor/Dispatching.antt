-- ===== src/Reactor/Dispatching.antt =====
-- src/server/Reactor.cpp, `dispatcherLoop` and `acceptClient`: the loop over what epoll reports.
use rtsp_server.Prelude.{
  ℕ, ◌≡◌, refl, sym, ◌∙◌, inl, inr, Bool, true, false, [], ◌∷◌, ◌++◌, List, Option, none, some,
  Option-cases,
}
use rtsp_server.Prelude.Bits.{Bytes}
use rtsp_server.Doubles.{Doubles}
use rtsp_server.Reactor.{Reactor, Draw, ClientEvent, accept_client, dispatch, stop}

-- A connection that `accept4` returns, and whether it could be registered.
pub record Connection : Type 0 where
  pub fd : ℕ
  pub ip : Bytes
  pub draw : Draw
  pub registered : Bool

-- An event, by its descriptor. `connects` has the answers of `accept4`, which ends with an error;
-- `signals` and `wakes` are the control events.
pub data Event : Type 0 where
  wakes signals : Event
  connects : List Connection → Event
  client : ClientEvent → Event

-- An answer of `epoll_wait`.
pub data Wait : Type 0 where
  interrupted fails : Wait
  reports : List Event → Wait

module _ {M D : Type 0} (d : Doubles D) where
  -- `acceptClient`.
  unfoldable pub accept_clients : List Connection → Reactor M D → Reactor M D
  accept_clients [] r = r
  accept_clients (c ∷ cs) r = elim r.running [
    | false ↦ r
    | true ↦ accept_clients cs (accept_client d c.fd c.ip c.draw c.registered r)
  ]

  -- One event, and whether it is a control event; `none` when the parser does not end on the fuel.
  unfoldable pub serve : ℕ → Event → Reactor M D → Option (Reactor M D × Bool)
  serve fuel wakes r = some (stop r, true)
  serve fuel signals r = some (stop r, true)
  serve fuel (connects cs) r = some (accept_clients cs r, false)
  serve fuel (client ev) r = elim (dispatch fuel ev r) [ none ↦ none | some r' ↦ some (r', false) ]

  -- The events of one answer, and whether the loop is left by `goto done`.
  unfoldable pub handle_events : ℕ → List Event → Reactor M D → Option (Reactor M D × Bool)
  handle_events fuel [] r = some (r, false)
  handle_events fuel (e ∷ es) r = elim (serve fuel e r) [
    | none ↦ none
    | some (r', done) ↦ elim done [ true ↦ some (r', true) | false ↦ handle_events fuel es r' ]
  ]

  -- The whole loop over the answers of `epoll_wait`, and whether it has ended.
  unfoldable pub dispatcher_loop : ℕ → List Wait → Reactor M D → Option (Reactor M D × Bool)
  dispatcher_loop fuel [] r = elim r.running [ false ↦ some (r, true) | true ↦ some (r, false) ]
  dispatcher_loop fuel (w ∷ ws) r = elim r.running [
    | false ↦ some (r, true)
    | true ↦ elim w [
      | interrupted ↦ dispatcher_loop fuel ws r
      | fails ↦ some (r, true)
      | reports es ↦ elim (handle_events fuel es r) [
        | none ↦ none
        | some (r', done) ↦ elim done [
          | true ↦ some (r', true)
          | false ↦ dispatcher_loop fuel ws r'
        ]
      ]
    ]
  ]

  -- The events before a control event are handled, and nothing after it.
  handle_events-stop :
      (fuel : ℕ) (pre post : List Event) (e : Event) (r : Reactor M D) {r' : Reactor M D}
      → ((r : Reactor M D) → serve fuel e r ≡ some (stop r, true))
      → handle_events fuel pre r ≡ some (r', false)
      → handle_events fuel (pre ++ e ∷ post) r ≡ some (stop r', true)
  unfolding handle_events
  handle_events-stop fuel [] post e r {r'} c h = rw (c r, handle_events) cc
  handle_events-stop fuel (p ∷ pre) post e r {r'} c h = elim (Option-cases (serve fuel p r)) [
    | inl n ↦
        absurd (let k : handle_events fuel (p ∷ pre) r ≡ none = rw (n, handle_events) refl in cc)
    | inr ((q, true), n) ↦
        absurd (
          let k : handle_events fuel (p ∷ pre) r ≡ some (q, true) = rw (n, handle_events) refl in
          cc)
    | inr ((q, false), n) ↦
        let k : handle_events fuel (p ∷ pre) r ≡ handle_events fuel pre q =
          rw (n, handle_events) refl in
        let l : handle_events fuel (p ∷ (pre ++ e ∷ post)) r
            ≡ handle_events fuel (pre ++ e ∷ post) q =
          rw (n, handle_events) refl in
        l ∙ handle_events-stop fuel pre post e q c (sym k ∙ h)
  ]

  -- A signal, or a call of `stop`, ends the dispatcher: of the events that epoll reports, those
  -- before it are handled, when the parser ends on them, and none after it, in this answer or in
  -- later ones.
  pub dispatcher_ends :
      (fuel : ℕ) (pre post : List Event) (ws : List Wait) (r r' : Reactor M D)
      → r.running ≡ true
      → handle_events fuel pre r ≡ some (r', false)
      → (dispatcher_loop fuel (reports (pre ++ signals ∷ post) ∷ ws) r ≡ some (stop r', true))
        × (dispatcher_loop fuel (reports (pre ++ wakes ∷ post) ∷ ws) r ≡ some (stop r', true))
  unfolding serve dispatcher_loop
  dispatcher_ends fuel pre post ws r r' on h = (
    rw (on, handle_events-stop fuel pre post signals r (λ x. refl) h, dispatcher_loop) refl,
    rw (on, handle_events-stop fuel pre post wakes r (λ x. refl) h, dispatcher_loop) refl,
  )
