-- ===== src/Session/Receive.antt =====
-- The read side: `onReadable`, which cuts the receive buffer into requests.
pub mod Progress
use rtsp_server.Prelude.{
  ℕ, zero, suc, ◌+◌, ◌-◌, ◌*◌, Bool, true, false, [], ◌∷◌, ◌++◌, List, Option, none, some, length,
  take, drop, ltb, if◌then◌else◌, ◌==◌,
}
use rtsp_server.Prelude.Bits.{Bytes, size_add}
use rtsp_server.Prelude.Text.{codes, find, find_from}
use rtsp_server.Prelude.Numbers.{stoul}
use rtsp_server.Utils.StringUtils.{trim}
use rtsp_server.Rtsp.Request.{Request, parse}
use rtsp_server.Session.State.{Session, k_max_recv_buf}

abbrev pub crlf : Bytes
crlf = 13 ∷ 10 ∷ []

abbrev pub blank_line : Bytes
blank_line = 13 ∷ 10 ∷ 13 ∷ 10 ∷ []

-- The value of the `Content-Length` line that begins at `cl`, 0 if it is no number.
length_at : Bytes → ℕ → ℕ
length_at block cl = elim (find_from (codes ":") block cl) [
  | none ↦ 0
  | some colon ↦ elim (find_from crlf block (colon + 1)) [
    | none ↦ 0
    | some ve ↦ elim (stoul (trim (take (ve - (colon + 1)) (drop (colon + 1) block)))) [
      | none ↦ 0
      | some n ↦ n
    ]
  ]
]

-- The loop over the two spellings, up to the first that is found.
unfoldable pub content_length : Bytes → ℕ
unfolding length_at
content_length block = elim (find (13 ∷ 10 ∷ codes "Content-Length:") block) [
  | some cl ↦ length_at block cl
  | none ↦ elim (find (13 ∷ 10 ∷ codes "content-length:") block) [
    | some cl ↦ length_at block cl
    | none ↦ 0
  ]
]

-- One round over the buffer: it ends the loops, or goes on with a rest and perhaps a request.
pub data Round : Type 0 where
  stop : Round
  next : Bytes → List Request → Round

abbrev pub requests : Option Request → List Request
requests none = []
requests (some r) = r ∷ []

-- An interleaved frame at the front, whose first byte is `$`.
unfoldable pub skip_frame : Bytes → Round
skip_frame (d ∷ c ∷ hi ∷ lo ∷ rest) =
    if ltb (length (d ∷ c ∷ hi ∷ lo ∷ rest)) (4 + (hi * 256 + lo))
    then stop
    else next (drop (4 + (hi * 256 + lo)) (d ∷ c ∷ hi ∷ lo ∷ rest)) []
skip_frame _ = stop

-- `body_start + body_len` in `size_t`, for a message whose header block ends at `body_start`.
unfoldable pub message_end : Bytes → ℕ → ℕ
message_end buf body_start = size_add body_start (content_length (take body_start buf))

unfoldable pub take_message : Bytes → Round
take_message buf = elim (find blank_line buf) [
  | none ↦ stop
  | some end_pos ↦
      let n = message_end buf (end_pos + 4) in
      if ltb (length buf) n then stop else next (drop n buf) (requests (parse (take n buf)))
]

unfoldable pub round : Bytes → Round
round [] = stop
round (c ∷ buf) = if c == b'$' then skip_frame (c ∷ buf) else take_message (c ∷ buf)

-- The loops of `onReadable`: a round takes one unit of fuel, and `none` means that it ran out.
unfoldable pub parse_loop : ℕ → Bytes → List Request → Option (Bytes × List Request)
parse_loop zero buf out = none
parse_loop (suc fuel) buf out = elim (round buf) [
  | stop ↦ some (buf, out)
  | next rest rs ↦ parse_loop fuel rest (out ++ rs)
]

-- What a call of `recv` returns.
pub data RecvResult : Type 0 where
  got : Bytes → RecvResult
  eof again interrupted failed : RecvResult

-- The receive loop: the buffer and whether to go on. A list that ends stands for EAGAIN.
unfoldable pub recv_loop : List RecvResult → Bytes → Bytes × Bool
recv_loop [] buf = (buf, true)
recv_loop (got b ∷ rs) buf =
    let rest = recv_loop rs (buf ++ b) in
    if ltb k_max_recv_buf (length (buf ++ b)) then (buf ++ b, false) else rest
recv_loop (eof ∷ rs) buf = (buf, false)
recv_loop (again ∷ rs) buf = (buf, true)
recv_loop (interrupted ∷ rs) buf = recv_loop rs buf
recv_loop (failed ∷ rs) buf = (buf, false)

module _ {M D : Type 0} where
  -- `onReadable`: the session, the result and the requests; `none` if the loops do not end within
  -- the fuel.
  unfoldable pub on_readable :
      ℕ → List RecvResult → Session M D → Option (Session M D × Bool × List Request)
  unfolding recv_loop
  on_readable fuel results s =
      let r = recv_loop results s.recv_buf in
      elim r.1 [
        | false ↦ some (record s { recv_buf = r.0 }, false, [])
        | true ↦ elim (parse_loop fuel r.0 []) [
          | none ↦ none
          | some (buf, out) ↦ some (record s { recv_buf = buf }, true, out)
        ]
      ]
