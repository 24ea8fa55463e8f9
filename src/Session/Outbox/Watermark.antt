-- ===== src/Session/Outbox/Watermark.antt =====
-- A slow client: `pushTCPFrame` called again and again while nothing is written.
use rtsp_server.Prelude.{
  ℕ, ◌+◌, ◌≤◌, ◌<◌, ◌≡◌, refl, sym, ap, subst, ◌∙◌, ◌⊎◌, inl, inr, true, [], ◌∷◌, ◌++◌, List,
  length, arith, append-nil, append_assoc,
}
use rtsp_server.Prelude.Bits.{Bytes}
use rtsp_server.Prelude.Numbers.{ℤ}
use rtsp_server.Session.State.{Session, k_outbox_hwm}
use rtsp_server.Session.Outbox.{interleaved, push_tcp_frame}
use rtsp_server.Session.Outbox.Accounting.{push_tcp_frame_bound}

-- The calls in order, with the channel and the packet of each.
abbrev pub push_frames : {M D : Type 0} → List (ℤ × Bytes) → Session M D → Session M D
push_frames [] s = s
push_frames (f ∷ fs) s = push_frames fs (push_tcp_frame f.0 f.1 s)

abbrev pub framed : List (ℤ × Bytes) → List Bytes
framed [] = []
framed (f ∷ fs) = interleaved f.0 f.1 ∷ framed fs

abbrev pub Shorter : ℕ → List (ℤ × Bytes) → Type 0
Shorter n [] = 0 ≤ n
Shorter n (f ∷ fs) = (length f.1 ≤ n) × Shorter n fs

module _ {M D : Type 0} where
  -- The first of the frames are queued, in order, the others dropped, and then the session is
  -- marked for closing.
  pub record Cut (n : ℕ) (fs : List (ℤ × Bytes)) (s t : Session M D) : Type 0 where
    pub queued : List (ℤ × Bytes)
    pub dropped : List (ℤ × Bytes)
    pub all_frames : fs ≡ queued ++ dropped
    pub in_order : t.outbox ≡ s.outbox ++ framed queued
    pub bounded : t.outbox_bytes ≤ k_outbox_hwm + 4 + n
    pub marked : (dropped ≡ []) ⊎ (t.close_after_write ≡ true)

  full_drops_one :
      (c : ℤ) (p : Bytes) (s : Session M D)
      → k_outbox_hwm < s.outbox_bytes
      → push_tcp_frame c p s ≡ record s { close_after_write = true }
  unfolding push_tcp_frame
  full_drops_one c p s l = ground arith

  full_drops :
      (fs : List (ℤ × Bytes)) (s : Session M D)
      → k_outbox_hwm < s.outbox_bytes
      → let t = push_frames fs s in
        (t.outbox ≡ s.outbox)
        × (t.outbox_bytes ≡ s.outbox_bytes)
        × (s.close_after_write ≡ true → t.close_after_write ≡ true)
  full_drops [] s l = (refl, refl, λ e. e)
  full_drops (f ∷ fs) s l =
      let e = full_drops_one f.0 f.1 s l in
      let (o, b, c) = full_drops fs (record s { close_after_write = true }) l in
      (
        ap (λ q. (push_frames fs q).outbox) e ∙ o,
        ap (λ q. (push_frames fs q).outbox_bytes) e ∙ b,
        λ _. ap (λ q. (push_frames fs q).close_after_write) e ∙ c refl,
      )

  -- However many frames are pushed to a client to which nothing is written, the first of them are
  -- queued in their order, the rest is dropped, the session is marked for closing once one is
  -- dropped, and the queue never holds more than the high watermark and one frame, if no packet is
  -- longer than n bytes and the queue is not above that before.
  pub push_frames-Cut :
      (n : ℕ) (fs : List (ℤ × Bytes)) (s : Session M D)
      → Shorter n fs
      → s.outbox_bytes ≤ k_outbox_hwm + 4 + n
      → Cut n fs s (push_frames fs s)
  push_frames-Cut n [] s short low = record {
    queued = [];
    dropped = [];
    all_frames = refl;
    in_order = sym (append-nil s.outbox);
    bounded = low;
    marked = inl refl;
  }
  push_frames-Cut n (f ∷ fs) s (short, shorts) low = elim (push_tcp_frame_bound f.0 f.1 s) [
    | inl (l, e) ↦
        let (o, b, c) = full_drops fs (record s { close_after_write = true }) l in
        record {
          queued = [];
          dropped = f ∷ fs;
          all_frames = refl;
          in_order = ap (λ q. (push_frames fs q).outbox) e ∙ o ∙ sym (append-nil s.outbox);
          bounded =
              subst (λ x. x ≤ k_outbox_hwm + 4 + n)
                (sym (ap (λ q. (push_frames fs q).outbox_bytes) e ∙ b)) low;
          marked = inr (ap (λ q. (push_frames fs q).close_after_write) e ∙ c refl);
        }
    | inr (b, o, _, _) ↦
        let k = push_frames-Cut n fs (push_tcp_frame f.0 f.1 s) shorts (omega (arith, b, short)) in
        record {
          queued = f ∷ k.queued;
          dropped = k.dropped;
          all_frames = ap (λ xs. f ∷ xs) k.all_frames;
          in_order =
              k.in_order
              ∙ ap (λ q. q ++ framed k.queued) o
              ∙ append_assoc s.outbox (interleaved f.0 f.1 ∷ []) (framed k.queued);
          bounded = k.bounded;
          marked = k.marked;
        }
  ]
