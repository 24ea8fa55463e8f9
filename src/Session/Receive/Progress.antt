-- ===== src/Session/Receive/Progress.antt =====
-- When the loops of `onReadable` end, and when they do not.
use rtsp_server.Prelude.{
  ℕ, zero, suc, ◌+◌, ◌*◌, ◌≤◌, ◌<◌, ◌≡◌, ◌≢◌, refl, subst, ap, ◌∙◌, ◌⊎◌, inl, inr, false, [], ◌∷◌,
  ◌++◌, List, none, some, length, take, drop, ltb, arith, Bool-cases, Option-cases, length-drop,
  drop-drop, ◌==◌,
}
use rtsp_server.Prelude.Bits.{Bytes, size_mod}
use rtsp_server.Prelude.Text.{find}
use rtsp_server.Rtsp.Request.{Request, parse}
use rtsp_server.Session.Receive.{
  Round, stop, next, requests, content_length, message_end, blank_line, skip_frame, take_message,
  round, parse_loop,
}

-- A round that goes on drops `n` bytes from the front of the buffer.
pub data Drops (buf : Bytes) : Round → Type 0 where
  none_left : Drops buf stop
  drops : (n : ℕ) (rs : List Request) → n ≤ length buf → Drops buf (next (drop n buf) rs)

skip_frame-Drops : (buf : Bytes) → Drops buf (skip_frame buf)
unfolding skip_frame
skip_frame-Drops [] = none_left
skip_frame-Drops (d ∷ []) = none_left
skip_frame-Drops (d ∷ c ∷ []) = none_left
skip_frame-Drops (d ∷ c ∷ hi ∷ []) = none_left
skip_frame-Drops (d ∷ c ∷ hi ∷ lo ∷ rest) =
    let n = 4 + (hi * 256 + lo) in
    let buf = d ∷ c ∷ hi ∷ lo ∷ rest in
    elim (Bool-cases (ltb (length buf) n)) [
      | inl short ↦ rw short none_left
      | inr whole ↦ rw whole (drops n [] (ground arith))
    ]

take_message-Drops : (buf : Bytes) → Drops buf (take_message buf)
unfolding take_message
take_message-Drops buf = elim (Option-cases (find blank_line buf)) [
  | inl e ↦ rw (e, take_message) none_left
  | inr (i, e) ↦
      let n = message_end buf (i + 4) in
      elim (Bool-cases (ltb (length buf) n)) [
        | inl short ↦ rw (e, take_message) (rw short none_left)
        | inr whole ↦
            rw (e, take_message) (rw whole (drops n (requests (parse (take n buf))) (ground arith)))
      ]
]

round-Drops : (buf : Bytes) → Drops buf (round buf)
unfolding round
round-Drops [] = none_left
round-Drops (c ∷ buf) = elim (Bool-cases (c == b'$')) [
  | inl e ↦ rw e (skip_frame-Drops (c ∷ buf))
  | inr e ↦ rw e (take_message-Drops (c ∷ buf))
]

-- A buffer on which a round goes on and changes nothing.
abbrev pub Stuck : Bytes → Type 0
Stuck b = (rs : List Request) × (round b ≡ next b rs)

abbrev Ends : ℕ → Bytes → List Request → Type 0
Ends fuel buf out = (r : Bytes × List Request) × (parse_loop fuel buf out ≡ some r)

-- Some rest of the buffer is stuck.
abbrev pub StuckIn : Bytes → Type 0
StuckIn buf = (n : ℕ) × (n ≤ length buf) × Stuck (drop n buf)

pub parse_loop-stop :
    (fuel : ℕ) (buf : Bytes) (out : List Request)
    → round buf ≡ stop
    → parse_loop (suc fuel) buf out ≡ some (buf, out)
unfolding parse_loop
parse_loop-stop fuel buf out e = rw (e, parse_loop)

pub parse_loop-next :
    (fuel : ℕ) (buf rest : Bytes) (rs out : List Request)
    → round buf ≡ next rest rs
    → parse_loop (suc fuel) buf out ≡ parse_loop fuel rest (out ++ rs)
unfolding parse_loop
parse_loop-next fuel buf rest rs out e = rw (e, parse_loop)

later : (n : ℕ) (buf : Bytes) → n ≤ length buf → StuckIn (drop n buf) → StuckIn buf
later n buf h (m, l, s) =
    (n + m, omega (arith, length-drop n buf), subst Stuck (drop-drop n m buf) s)

-- More rounds than bytes are enough, unless some rest is stuck.
pub parse_loop-Ends :
    (fuel : ℕ) (buf : Bytes) (out : List Request)
    → length buf < fuel
    → Ends fuel buf out ⊎ StuckIn buf
parse_loop-Ends zero buf out h = absurd (omega arith)
parse_loop-Ends (suc fuel) buf out h =
    by_round (round buf) refl (round-Drops buf)
      (λ n rs less. parse_loop-Ends fuel (drop n buf) (out ++ rs) less)
  where
    by_round :
        (r : Round)
        → round buf ≡ r
        → Drops buf r
        → ((n : ℕ) (rs : List Request)
            → length (drop n buf) < fuel
            → Ends fuel (drop n buf) (out ++ rs) ⊎ StuckIn (drop n buf))
        → Ends (suc fuel) buf out ⊎ StuckIn buf
    by_round _ e none_left ih = inl ((buf, out), parse_loop-stop fuel buf out e)
    by_round _ e (drops zero rs l) ih = inr (0, omega arith, (rs, e))
    by_round _ e (drops (suc n) rs l) ih =
        elim (ih (suc n) rs (omega (arith, length-drop (suc n) buf))) [
          | inl (r, f) ↦ inl (r, parse_loop-next fuel buf (drop (suc n) buf) rs out e ∙ f)
          | inr s ↦ inr (later (suc n) buf l s)
        ]

-- A stuck buffer keeps the dispatcher in the loop for ever: no fuel is enough.
Stuck-never :
    (fuel : ℕ) (buf : Bytes) (out : List Request) → Stuck buf → parse_loop fuel buf out ≡ none
Stuck-never zero buf out s = unfold parse_loop in refl
Stuck-never (suc fuel) buf out (rs, e) =
    parse_loop-next fuel buf buf rs out e ∙ Stuck-never fuel buf (out ++ rs) (rs, e)

-- The announced length of the message at the front does not wrap around `size_t`.
abbrev pub NoWrap : Bytes → Type 0
NoWrap b = (i : ℕ) → find blank_line b ≡ some i → i + 4 + content_length (take (i + 4) b) < size_mod

abbrev rest_length : Round → ℕ
rest_length stop = 0
rest_length (next b rs) = length b

next-moves :
    (n : ℕ) (buf : Bytes) (rs qs : List Request)
    → 0 < n
    → 0 < length buf
    → next (drop n buf) rs ≢ next buf qs
next-moves n buf rs qs pos some_left e =
    let f : length (drop n buf) ≡ length buf = ap rest_length e in
    absurd (omega (arith, length-drop n buf))

skip_frame-moves : (buf : Bytes) (rs : List Request) → skip_frame buf ≢ next buf rs
unfolding skip_frame
skip_frame-moves [] rs e = cc
skip_frame-moves (d ∷ []) rs e = cc
skip_frame-moves (d ∷ c ∷ []) rs e = cc
skip_frame-moves (d ∷ c ∷ hi ∷ []) rs e = cc
skip_frame-moves (d ∷ c ∷ hi ∷ lo ∷ rest) rs e =
    let n = 4 + (hi * 256 + lo) in
    let buf = d ∷ c ∷ hi ∷ lo ∷ rest in
    elim (Bool-cases (ltb (length buf) n)) [
      | inl short ↦ absurd (stop-ne-next (rw short at e))
      | inr whole ↦ next-moves n buf [] rs (omega arith) (omega arith) (rw whole at e)
    ]
  where
    stop-ne-next : {b : Bytes} {qs : List Request} → stop ≢ next b qs
    stop-ne-next h = cc

take_message-moves : (buf : Bytes) (rs : List Request) → NoWrap buf → take_message buf ≢ next buf rs
take_message-moves buf rs h e = elim (Option-cases (find blank_line buf)) [
  | inl f ↦ unfold take_message in ground (arith, f)
  | inr (i, f) ↦
      let w = h i f in
      let n = message_end buf (i + 4) in
      let pos : 0 < n = unfold message_end in omega arith in
      elim (Bool-cases (ltb (length buf) n)) [
        | inl short ↦ unfold take_message in ground (arith, f, short)
        | inr whole ↦
            next-moves n buf (requests (parse (take n buf))) rs pos (ground arith)
              (unfold take_message in ground (arith, f, whole))
      ]
]

not-Stuck : (buf : Bytes) → NoWrap buf → ¬ Stuck buf
not-Stuck [] h (rs, e) = unfold round in cc
not-Stuck (c ∷ buf) h (rs, e) = elim (Bool-cases (c == b'$')) [
  | inl d ↦ skip_frame-moves (c ∷ buf) rs (unfold round in ground (arith, e))
  | inr d ↦ take_message-moves (c ∷ buf) rs h (unfold round in ground (arith, e))
]

-- The loops end, within one round more than there are bytes, if no message in the buffer announces
-- a length that wraps around `size_t`.
pub parse_loop_total :
    (buf : Bytes) (out : List Request)
    → ((n : ℕ) → n ≤ length buf → NoWrap (drop n buf))
    → (r : Bytes × List Request) × (parse_loop (length buf + 1) buf out ≡ some r)
parse_loop_total buf out h = elim (parse_loop-Ends (length buf + 1) buf out (omega arith)) [
  | inl r ↦ r
  | inr (n, l, s) ↦ absurd (not-Stuck (drop n buf) (h n l) s)
]

-- A request whose `Content-Length` completes the header block to exactly 2^64 is never finished:
-- the loops of `onReadable` spin for ever on it.
pub content_length_hangs :
    (c : ℕ) (buf : Bytes) (i : ℕ)
    → c ≢ b'$'
    → find blank_line (c ∷ buf) ≡ some i
    → i + 4 + content_length (take (i + 4) (c ∷ buf)) ≡ size_mod
    → (fuel : ℕ) (out : List Request) → parse_loop fuel (c ∷ buf) out ≡ none
content_length_hangs c buf i ne e w fuel out = Stuck-never fuel (c ∷ buf) out stuck
  where
    stuck : Stuck (c ∷ buf)
    stuck =
        let zero_end : message_end (c ∷ buf) (i + 4) ≡ 0 = unfold message_end in omega arith in
        let d : (c == b'$') ≡ false = ground arith in
        (requests (parse []), unfold round take_message in ground (arith, d, e, zero_end))
