-- ===== src/Session/Outbox/Accounting.antt =====
-- What the write side keeps: the byte count, the arming of EPOLLOUT, and the order of the bytes.
use rtsp_server.Prelude.{
  ℕ, zero, suc, ◌+◌, ◌-◌, ◌≤◌, ◌<◌, ◌≡◌, refl, sym, ap, ◌∙◌, ◌⊎◌, inl, inr, Bool, true, false, [],
  ◌∷◌, ◌++◌, List, none, some, length, take, drop, leb, min, arith, append-nil, append_assoc,
  take-append-drop, Bool-cases, take_all, length-drop, drop-drop,
}
use rtsp_server.Prelude.Bits.{Bytes, u16}
use rtsp_server.Prelude.Numbers.{ℤ}
use rtsp_server.Rtp.Packet.{build}
use rtsp_server.Rtsp.Response.{Response, to_string}
use rtsp_server.Session.State.{Session, k_outbox_hwm, payload_type}
use rtsp_server.Session.Outbox.{
  SendResult, sent, again, interrupted, failed, Written, buffer_of, push_outbox, send_response,
  interleaved, push_tcp_frame, send_video_rtp, send_audio_rtp, refill, advance, on_writable,
}

abbrev pub flat : List Bytes → Bytes
flat [] = []
flat (b ∷ bs) = b ++ flat bs

abbrev pub total : List Bytes → ℕ
total [] = 0
total (b ∷ bs) = length b + total bs

total-append : (xs ys : List Bytes) → total (xs ++ ys) ≡ total xs + total ys
total-append [] ys = omega arith
total-append (x ∷ xs) ys = omega (arith, total-append xs ys)

flat-append : (xs ys : List Bytes) → flat (xs ++ ys) ≡ flat xs ++ flat ys
flat-append [] ys = refl
flat-append (x ∷ xs) ys = rw (flat-append xs ys) (sym (append_assoc x (flat xs) (flat ys)))

module _ {M D : Type 0} where
  -- `outbox_bytes_` is the size of the queued buffers, and EPOLLOUT is armed, in the flag and in
  -- the kernel, as long as something is left to write.
  pub record Inv (s : Session M D) : Type 0 where
    pub counted : s.outbox_bytes ≡ total s.outbox
    pub armed_flag : s.epollout_armed ≡ s.epoll_out
    pub armed : (s.outbox ≡ []) ⊎ (s.epollout_armed ≡ true)
    pub armed_buffer : (s.wbuf ≡ none) ⊎ (s.epollout_armed ≡ true)

  push_outbox-Inv : (buf : Bytes) (s : Session M D) → Inv s → Inv (push_outbox buf s)
  unfolding push_outbox
  push_outbox-Inv buf s v = ground (arith, total-append s.outbox (buf ∷ []))

  pub send_response-Inv : (r : Response) (s : Session M D) → Inv s → Inv (send_response r s)
  unfolding send_response
  send_response-Inv r s v = push_outbox-Inv _ s v

  push_tcp_frame-Inv : (c : ℤ) (p : Bytes) (s : Session M D) → Inv s → Inv (push_tcp_frame c p s)
  unfolding push_tcp_frame
  push_tcp_frame-Inv c p s v = ground (arith, push_outbox-Inv (interleaved c p) s v)

  pub send_video_rtp-Inv :
      (p : Bytes) (ts : ℕ) (m : Bool) (s : Session M D) → Inv s → Inv (send_video_rtp p ts m s)
  unfolding send_video_rtp
  send_video_rtp-Inv p ts m s v =
      let next = record s { rtp_seq = u16 (s.rtp_seq + 1) } in
      ground (
        arith,
        push_tcp_frame-Inv s.rtp_channel (build p payload_type s.rtp_seq ts s.ssrc m) next (record {
          counted = v.counted;
          armed_flag = v.armed_flag;
          armed = v.armed;
          armed_buffer = v.armed_buffer;
        }),
      )

  pub send_audio_rtp-Inv : (p : Bytes) (s : Session M D) → Inv s → Inv (send_audio_rtp p s)
  unfolding send_audio_rtp
  send_audio_rtp-Inv p s v = ground (arith, push_tcp_frame-Inv s.audio_rtp_channel p s v)

  -- What is still to be written, in order.
  abbrev pub unsent : Session M D → Bytes
  unsent s = drop s.woff (buffer_of s.wbuf) ++ flat s.outbox

  refill-Inv : (s : Session M D) → Inv s → Inv (refill s).0
  unfolding refill
  refill-Inv s v = ground arith

  -- `woff_` is zero when there is no buffer.
  abbrev pub Rests : Session M D → Type 0
  Rests s = (s.wbuf ≡ none) → s.woff ≡ 0

  refill-unsent :
      (s : Session M D) → Rests s → (unsent (refill s).0 ≡ unsent s) × Rests (refill s).0
  unfolding refill
  refill-unsent s w = ground arith

  -- A session with nothing to write is not armed, and one that goes on has a buffer.
  refill-cases :
      (s : Session M D)
      → (((refill s).1 ≡ false) × ((refill s).0.outbox ≡ []) × ((refill s).0.wbuf ≡ none))
        ⊎ (((refill s).1 ≡ true) × ((refill s).0.wbuf ≡ some (buffer_of (refill s).0.wbuf)))
  unfolding refill
  refill-cases s = ground arith

  advance-Inv :
      (n : ℕ) (b : Bytes) (s : Session M D) → s.wbuf ≡ some b → Inv s → Inv (advance n b s)
  unfolding advance
  advance-Inv n b s e v = ground arith

  advance-unsent :
      (n : ℕ) (b : Bytes) (s : Session M D)
      → s.wbuf ≡ some b
      → (drop s.woff b ++ flat s.outbox ≡ take n (drop s.woff b) ++ unsent (advance n b s))
        × Rests (advance n b s)
  unfolding advance
  advance-unsent n b s e = elim (Bool-cases (leb (length b) (s.woff + n))) [
    | inl all ↦
        ground (arith, e, all, take_all n (drop s.woff b) (ground (arith, length-drop s.woff b)))
    | inr part ↦
        rw (part, e)
          (
            rw (← drop-drop s.woff n b) (
                ap (λ x. x ++ flat s.outbox) (sym (take-append-drop n (drop s.woff b)))
                ∙ append_assoc (take n (drop s.woff b)) _ (flat s.outbox)),
            λ z. cc,
          )
  ]

  -- One round of the loop.
  abbrev Good : Session M D → Written M D → Type 0
  Good s r = Inv r.0 × (unsent s ≡ r.2 ++ unsent r.0) × Rests r.0

  on_writable-go :
      (r : SendResult) (rs : List SendResult) (s : Session M D)
      → (refill s).1 ≡ true
      → (refill s).0.wbuf ≡ some (buffer_of (refill s).0.wbuf)
      → Inv s
      → Rests s
      → ((s' : Session M D) → Inv s' → Rests s' → Good s' (on_writable rs s'))
      → Good s (on_writable (r ∷ rs) s)
  unfolding on_writable
  on_writable-go again rs s go b v w ih =
      rw (go, on_writable) (refill-Inv s v, sym (refill-unsent s w).0, (refill-unsent s w).1)
  on_writable-go failed rs s go b v w ih =
      rw (go, on_writable) (refill-Inv s v, sym (refill-unsent s w).0, (refill-unsent s w).1)
  on_writable-go (sent zero) rs s go b v w ih =
      rw (go, on_writable) (refill-Inv s v, sym (refill-unsent s w).0, (refill-unsent s w).1)
  on_writable-go interrupted rs s go b v w ih =
      let (u, x) = refill-unsent s w in
      let (i, e, y) = ih (refill s).0 (refill-Inv s v) x in rw (go, on_writable) (i, sym u ∙ e, y)
  on_writable-go (sent (suc n)) rs s go b v w ih =
      let t = (refill s).0 in
      let buf = buffer_of t.wbuf in
      let m = min (suc n) (length buf - t.woff) in
      let (e, x) = advance-unsent m buf t b in
      let (i, f, y) = ih (advance m buf t) (advance-Inv m buf t b (refill-Inv s v)) x in
      rw (go, on_writable)
        (
          i,
          sym (refill-unsent s w).0
              ∙ e
              ∙ ap (◌++◌ (take m (drop t.woff buf))) f
              ∙ sym (append_assoc (take m (drop t.woff buf)) _ _),
          y,
        )

  on_writable-Good :
      (rs : List SendResult) (s : Session M D) → Inv s → Rests s → Good s (on_writable rs s)
  unfolding on_writable
  on_writable-Good [] s v w = let (u, x) = refill-unsent s w in (refill-Inv s v, sym u, x)
  on_writable-Good (r ∷ rs) s v w = elim (refill-cases s) [
    | inl (stop, _, _) ↦
        rw (stop, on_writable) (refill-Inv s v, sym (refill-unsent s w).0, (refill-unsent s w).1)
    | inr (go, b) ↦ on_writable-go r rs s go b v w (λ s' v' w'. on_writable-Good rs s' v' w')
  ]

  -- `onWritable` keeps the accounting, and what it writes is the front of what was left to write:
  -- no byte is lost, repeated or reordered, however the kernel splits the writes.
  pub on_writable_lem :
      (rs : List SendResult) (s : Session M D)
      → Inv s
      → (s.wbuf ≡ none → s.woff ≡ 0)
      → Inv (on_writable rs s).0 × (unsent s ≡ (on_writable rs s).2 ++ unsent (on_writable rs s).0)
  on_writable_lem rs s v w = let (i, u, _) = on_writable-Good rs s v w in (i, u)

  -- What is queued goes behind all that is still to be written.
  pub send_response-unsent :
      (r : Response) (s : Session M D) → unsent (send_response r s) ≡ unsent s ++ to_string r
  unfolding send_response push_outbox
  send_response-unsent r s =
      let f : flat (s.outbox ++ to_string r ∷ []) ≡ flat s.outbox ++ to_string r =
        flat-append s.outbox (to_string r ∷ [])
        ∙ ap (◌++◌ (flat s.outbox)) (append-nil (to_string r)) in
      ground (arith, f, append_assoc (drop s.woff (buffer_of s.wbuf)) (flat s.outbox) (to_string r))

  -- A slow client: once more than the high watermark is queued, an RTP frame is dropped and the
  -- session marked for closing; otherwise the frame is queued. The queue passes the watermark by at
  -- most one frame.
  pub push_tcp_frame_bound :
      (c : ℤ) (p : Bytes) (s : Session M D)
      → let q = push_tcp_frame c p s in
        ((k_outbox_hwm < s.outbox_bytes) × (q ≡ record s { close_after_write = true }))
        ⊎ ((q.outbox_bytes ≤ k_outbox_hwm + 4 + length p)
            × (q.outbox ≡ s.outbox ++ interleaved c p ∷ [])
            × (q.close_after_write ≡ s.close_after_write)
            × (q.epollout_armed ≡ true))
  unfolding push_tcp_frame push_outbox interleaved
  push_tcp_frame_bound c p s = ground arith
