-- ===== src/Session/Handlers/Transitions.antt =====
-- The RTSP state machine that the handlers implement, and the responses that they queue.
pub mod Opening
pub mod Playing
pub mod SettingUp
pub mod Answers
use rtsp_server.Prelude.{
  ℕ, ◌≡◌, ◌≤◌, ◌≢◌, refl, sym, ap, ◌∙◌, subst, Bool, true, false, [], ◌∷◌, ◌++◌, List, Option, none,
  some, if◌then◌else◌, if-elim, arith, Bool-cases,
}
use rtsp_server.Prelude.Bits.{Bytes}
use rtsp_server.Prelude.Text.{codes, bytes_eq, bytes_eq_sound, contains}
use rtsp_server.Prelude.Numbers.{ℤ, int_to_string}
use rtsp_server.Rtsp.Request.{Request, Headers, lookup, cseq}
use rtsp_server.Rtsp.Response.{
  Response, to_string, bytes_lt, put, set_header, options, describe, setup, play, ok, error,
}
use rtsp_server.Session.State.{
  State, init, ready, playing, paused, Outcome, returned, threw, Session, Env, state_of,
}
use rtsp_server.Session.Outbox.{enable_write, push_outbox, send_response}

-- The states in which a session may be told to play.
pub data Playable : State → Type 0 where
  from_ready : Playable ready
  from_playing : Playable playing
  from_paused : Playable paused

-- A method, the status of its response, and the states before and after it, for a request with this
-- URL: a refusal keeps the state, and a SETUP of the track 1, the audio, as well; that of another
-- track leads to READY from every state.
pub data Moves (url : Bytes) : Bytes → ℕ → State → State → Type 0 where
  refuses : {m : Bytes} {status : ℕ} {a : State} → 400 ≤ status → Moves url m status a a
  lists : {a : State} → Moves url (codes "OPTIONS") 200 a a
  describes : {a : State} → Moves url (codes "DESCRIBE") 200 a a
  sets_up_audio :
      {a : State} → contains (codes "trackID=1") url ≡ true → Moves url (codes "SETUP") 200 a a
  sets_up_video :
      {a : State} → contains (codes "trackID=1") url ≡ false → Moves url (codes "SETUP") 200 a ready
  plays : {a : State} → Playable a → Moves url (codes "PLAY") 200 a playing
  pauses : Moves url (codes "PAUSE") 200 playing paused
  tears_down : {a : State} → Moves url (codes "TEARDOWN") 200 a init

-- The status of a response and its CSeq.
abbrev pub IsNumbered : Response → ℕ → ℤ → Type 0
IsNumbered r status n =
    (r.status ≡ status) × (lookup (codes "CSeq") r.headers ≡ some (int_to_string n))

pub on_method : {m n : Bytes} (P : Bytes → Type 0) → m ≡ n → P n → P m
on_method P e p = subst P (sym e) p

module _ {M D : Type 0} where
  -- One response is queued, which has the request's CSeq, and the state moves as its status says.
  pub record Answered (req : Request) (s s' : Session M D) : Type 0 where
    pub response : Response
    pub queued : s'.outbox ≡ s.outbox ++ to_string response ∷ []
    pub numbered : lookup (codes "CSeq") response.headers ≡ some (int_to_string (cseq req))
    pub moved : Moves req.url req.method response.status s.state s'.state

  -- An exception leaves the queue and the state.
  unfoldable pub Settled : Request → Session M D → Outcome (Session M D) → Type 0
  Settled req s (returned s') = Answered req s s'
  Settled req s (threw s') = (s'.outbox ≡ s.outbox) × (s'.state ≡ s.state)

  push_outbox-outbox : (b : Bytes) (s : Session M D) → (push_outbox b s).outbox ≡ s.outbox ++ b ∷ []
  unfolding push_outbox
  push_outbox-outbox b s = ground arith

  push_outbox-state : (b : Bytes) (s : Session M D) → (push_outbox b s).state ≡ s.state
  unfolding push_outbox
  push_outbox-state b s = ground arith

  pub send-Answered :
      (req : Request) (s s' : Session M D) (r : Response) (status : ℕ)
      → s'.outbox ≡ s.outbox
      → IsNumbered r status (cseq req)
      → Moves req.url req.method status s.state s'.state
      → Answered req s (send_response r s')
  unfolding send_response
  send-Answered req s s' r status kept numbered moved = record {
    response = r;
    queued = push_outbox-outbox (to_string r) s' ∙ ap (λ o. o ++ to_string r ∷ []) kept;
    numbered = numbered.1;
    moved =
        subst (λ n. Moves req.url req.method n s.state (push_outbox (to_string r) s').state)
          (sym numbered.0)
          (subst (Moves req.url req.method status s.state)
            (sym (push_outbox-state (to_string r) s')) moved);
  }

  pub error-Answered :
      (date : Bytes) (req : Request) (s s' : Session M D) (status : ℕ) (reason : Bytes)
      → 400 ≤ status
      → s'.outbox ≡ s.outbox
      → s'.state ≡ s.state
      → Answered req s (send_response (error date (cseq req) status reason) s')
  unfolding error lookup put bytes_eq bytes_lt
  error-Answered date req s s' status reason h kept same =
      send-Answered req s s' _ status kept (refl, refl)
        (subst (Moves req.url req.method status s.state) (sym same) (refuses h))

  -- What the cases of PLAY and the branches of SETUP keep.
  unfoldable pub Kept : Session M D → Session M D → Type 0
  Kept s s' = (s'.outbox ≡ s.outbox) × (s'.state ≡ s.state)

  pub returned-Settled :
      (req : Request) (s s' : Session M D) → Answered req s s' → Settled req s (returned s')
  unfolding Settled
  returned-Settled req s s' a = a

  pub threw-Settled :
      (req : Request) (s s' : Session M D)
      → s'.outbox ≡ s.outbox
      → s'.state ≡ s.state
      → Settled req s (threw s')
  unfolding Settled
  threw-Settled req s s' q k = (q, k)

pub play-IsNumbered :
    (date : Bytes) (n : ℤ) (id range info : Bytes) → IsNumbered (play date n id range info) 200 n
unfolding play lookup put bytes_eq bytes_lt
play-IsNumbered date n id [] [] = (refl, refl)
play-IsNumbered date n id [] (c ∷ info) = (refl, refl)
play-IsNumbered date n id (c ∷ range) [] = (refl, refl)
play-IsNumbered date n id (c ∷ range) (d ∷ info) = (refl, refl)

pub ok-IsNumbered : (date : Bytes) (n : ℤ) (id : Bytes) → IsNumbered (ok date n id) 200 n
unfolding ok lookup put bytes_eq bytes_lt
ok-IsNumbered date n [] = (refl, refl)
ok-IsNumbered date n (c ∷ id) = (refl, refl)

pub ok-range-IsNumbered :
    (date : Bytes) (n : ℤ) (id range : Bytes)
    → IsNumbered (set_header (codes "Range") range (ok date n id)) 200 n
unfolding ok lookup put bytes_eq bytes_lt
ok-range-IsNumbered date n [] range = (refl, refl)
ok-range-IsNumbered date n (c ∷ id) range = (refl, refl)
