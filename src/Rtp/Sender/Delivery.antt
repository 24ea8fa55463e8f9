-- ===== src/Rtp/Sender/Delivery.antt =====
-- Partial writes do not disturb the interleaved framing.
use rtsp_server.Prelude.{
  ℕ, zero, suc, ◌+◌, ◌-◌, ◌≤◌, ◌≡◌, refl, sym, ap, ◌∙◌, Bool, true, false, [], ◌∷◌, ◌++◌, List,
  Option, none, some, arith, length, take, drop, ltb, append-nil, take-append-drop, length-drop,
  append_assoc, min,
}
use rtsp_server.Prelude.Bits.{Bytes}
use rtsp_server.Rtp.Sender.{
  Sender, advance_iov, flat, write_loop, frame_header, send_tcp_interleaved,
}

drop-append_lt : (n : ℕ) (v t : Bytes) → n ≤ length v → drop n (v ++ t) ≡ drop n v ++ t
drop-append_lt zero v t h = refl
drop-append_lt (suc n) [] t h = absurd (omega arith)
drop-append_lt (suc n) (c ∷ v) t h = drop-append_lt n v t (omega arith)

drop-append_ge : (n : ℕ) (v t : Bytes) → length v ≤ n → drop n (v ++ t) ≡ drop (n - length v) t
drop-append_ge n [] t h = let e : n - 0 ≡ n = omega arith in rw e
drop-append_ge zero (c ∷ v) t h = absurd (omega arith)
drop-append_ge (suc n) (c ∷ v) t h =
    let e : suc n - suc (length v) ≡ n - length v = omega arith in
    rw e (drop-append_ge n v t (omega arith))

-- Advancing drops exactly the bytes that were taken.
flat-advance_iov : (n : ℕ) (iov : List Bytes) → flat (advance_iov n iov) ≡ drop n (flat iov)
unfolding advance_iov
flat-advance_iov zero [] = refl
flat-advance_iov (suc n) [] = refl
flat-advance_iov zero (v ∷ vs) = refl
flat-advance_iov (suc n) (v ∷ vs) = ground (
  arith,
  flat-advance_iov (suc n - length v) vs,
  drop-append_ge (suc n) v (flat vs),
  drop-append_lt (suc n) v (flat vs),
)

-- What a run of the loop puts on the wire is the front of the data, and all of it if it succeeds.
abbrev pub Delivers : Bytes → Bytes × Bool → Type 0
Delivers frame r = (t : Bytes) × (frame ≡ r.0 ++ t) × (r.1 ≡ true → t ≡ [])

write_loop-Delivers :
    (results : List (Option ℕ)) (r : ℕ) (iov : List Bytes)
    → r ≡ length (flat iov)
    → Delivers (flat iov) (write_loop results r iov)
unfolding write_loop
write_loop-Delivers results zero iov e = (flat iov, refl, λ _. length-zero (flat iov) (sym e))
  where
    length-zero : (s : Bytes) → length s ≡ 0 → s ≡ []
    length-zero [] h = refl
    length-zero (c ∷ s) h = absurd (omega arith)
write_loop-Delivers [] (suc r) iov e = (flat iov, refl, λ h. cc)
write_loop-Delivers (none ∷ results) (suc r) iov e = (flat iov, refl, λ h. cc)
write_loop-Delivers (some zero ∷ results) (suc r) iov e = (flat iov, refl, λ h. cc)
write_loop-Delivers (some (suc n) ∷ results) (suc r) iov e =
    let m = min (suc n) (suc r) in
    let f = flat-advance_iov m iov in
    let (t, p, q) =
      write_loop-Delivers results (suc r - m) (advance_iov m iov)
        (rw (f, length-drop m (flat iov), ← e)) in
    (
      t,
      sym (take-append-drop m (flat iov))
          ∙ ap (◌++◌ (take m (flat iov))) (sym f ∙ p)
          ∙ sym (append_assoc (take m (flat iov)) _ t),
      q,
    )

-- However the kernel splits the writes, an RTP packet of at most 65535 bytes goes out behind its
-- four-byte frame header with no byte lost or repeated, as far as it goes out, and whole when
-- `sendTCPInterleaved` reports success.
pub send_tcp_interleaved_lem :
    (results : List (Option ℕ)) (s : Sender) (packet : Bytes)
    → length packet ≤ 65535
    → Delivers
        (frame_header s.rtp_channel (length packet) ++ packet)
        (send_tcp_interleaved results s packet)
unfolding send_tcp_interleaved
send_tcp_interleaved_lem results s packet h =
    let iov = frame_header s.rtp_channel (length packet) ∷ packet ∷ [] in
    let fits : ltb 65535 (length packet) ≡ false = ground arith in
    let e : flat iov ≡ frame_header s.rtp_channel (length packet) ++ packet =
      ap (◌++◌ (frame_header s.rtp_channel (length packet))) (append-nil packet) in
    rw (fits, ← e)
      (write_loop-Delivers results (4 + length packet) iov
        (omega (arith, ap length (append-nil packet))))
