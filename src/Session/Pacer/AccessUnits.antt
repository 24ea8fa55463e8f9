-- ===== src/Session/Pacer/AccessUnits.antt =====
-- The RTP packets of an access unit, and the payloads of a frame.
use rtsp_server.Prelude.{
  ℕ, ◌+◌, ◌<◌, ◌≡◌, refl, ap, ◌∙◌, Bool, true, false, ◌&&◌, [], ◌∷◌, ◌++◌, List, All, length,
  if-elim, bit_and, ◌==◌, ◌||◌, arith,
}
use rtsp_server.Prelude.Bits.{Bytes, u16}
use rtsp_server.Rtp.Packet.{build}
use rtsp_server.Rtp.Packetizer.{Packet, packetize, k_default_mtu}
use rtsp_server.Rtp.Packetizer.Fragments.{Packetizes, Splits, packetize_total}
use rtsp_server.Media.Packets.{VideoPacket}
use rtsp_server.Session.State.{payload_type}
use rtsp_server.Session.Sending.{frame_nals, unless_empty, nal_list, is_empty, payloads_of}

-- The payloads of a frame, one NAL unit after the other.
unfoldable pub unit_payloads : List Bytes → List Packet
unit_payloads [] = []
unit_payloads (nal ∷ nals) = payloads_of (packetize nal k_default_mtu) ++ unit_payloads nals

-- The packets of one access unit: consecutive sequence numbers in 16 bits, one timestamp, and the
-- marker on the last packet only.
unfoldable pub access_unit : ℕ → ℕ → ℕ → List Packet → List Bytes
access_unit seq ts ssrc [] = []
access_unit seq ts ssrc (p ∷ ps) =
    build p.payload payload_type seq ts ssrc (is_empty ps) ∷ access_unit (u16 (seq + 1)) ts ssrc ps

-- The same, with the marker only if the unit is the last.
unfoldable pub part : Bool → ℕ → ℕ → ℕ → List Packet → List Bytes
part last seq ts ssrc [] = []
part last seq ts ssrc (p ∷ ps) =
    build p.payload payload_type seq ts ssrc (last && is_empty ps)
    ∷ part last (u16 (seq + 1)) ts ssrc ps

unfoldable pub seq_after : ℕ → List Packet → ℕ
seq_after seq [] = seq
seq_after seq (p ∷ ps) = seq_after (u16 (seq + 1)) ps

pub seq_after-u16 :
    (seq : ℕ) (ps : List Packet) → seq < 65536 → seq_after seq ps ≡ u16 (seq + length ps)
unfolding seq_after
seq_after-u16 seq [] h = omega (arith, h)
seq_after-u16 seq (p ∷ ps) h = omega (arith, seq_after-u16 (u16 (seq + 1)) ps (omega arith))

pub seq_after-append :
    (seq : ℕ) (ps qs : List Packet) → seq_after seq (ps ++ qs) ≡ seq_after (seq_after seq ps) qs
unfolding seq_after
seq_after-append seq [] qs = refl
seq_after-append seq (p ∷ ps) qs = seq_after-append (u16 (seq + 1)) ps qs

pub part-true :
    (seq ts ssrc : ℕ) (ps : List Packet) → part true seq ts ssrc ps ≡ access_unit seq ts ssrc ps
unfolding part access_unit
part-true seq ts ssrc [] = refl
part-true seq ts ssrc (p ∷ ps) = rw (part-true (u16 (seq + 1)) ts ssrc ps) refl

append-left_not_empty : (ps qs : List Packet) → is_empty ps ≡ false → is_empty (ps ++ qs) ≡ false
append-left_not_empty [] qs h = ground arith
append-left_not_empty (p ∷ ps) qs h = refl

append-not_empty : (ps qs : List Packet) → is_empty qs ≡ false → is_empty (ps ++ qs) ≡ false
append-not_empty [] qs h = h
append-not_empty (p ∷ ps) qs h = refl

pub part-access_unit :
    (seq ts ssrc : ℕ) (ps qs : List Packet)
    → is_empty qs ≡ false
    → part false seq ts ssrc ps ++ access_unit (seq_after seq ps) ts ssrc qs
      ≡ access_unit seq ts ssrc (ps ++ qs)
unfolding part access_unit seq_after
part-access_unit seq ts ssrc [] qs h = refl
part-access_unit seq ts ssrc (p ∷ ps) qs h =
    rw (append-not_empty ps qs h, part-access_unit (u16 (seq + 1)) ts ssrc ps qs h) refl

Splits-not_empty :
    {i t size : ℕ} {first : Bool} {d : Bytes} {ps : List Packet}
    → Splits i t size first d ps
    → is_empty ps ≡ false
Splits-not_empty (Splits.final d l) = refl
Splits-not_empty (Splits.piece c rest l e r) = refl

-- A NAL unit with a byte has a payload.
Packetizes-not_empty :
    {mtu h : ℕ} {rest : Bytes} {ps : List Packet}
    → Packetizes mtu (h ∷ rest) ps
    → is_empty ps ≡ false
Packetizes-not_empty (Packetizes.single h rest l) = refl
Packetizes-not_empty (Packetizes.split h rest l r) = Splits-not_empty r

payloads-not_empty :
    (h : ℕ) (rest : Bytes) → is_empty (payloads_of (packetize (h ∷ rest) k_default_mtu)) ≡ false
payloads-not_empty h rest =
    let (ps, e, r) = packetize_total (h ∷ rest) k_default_mtu (omega arith) (omega arith) in
    ap (λ o. is_empty (payloads_of o)) e ∙ Packetizes-not_empty r

abbrev pub NotEmpty : List Bytes → Type 0
NotEmpty = All (λ n. is_empty n ≡ false)

frame_nals-NotEmpty : (key : Bool) (nals : List Bytes) → NotEmpty (frame_nals key nals)
unfolding frame_nals
frame_nals-NotEmpty key [] = tt
frame_nals-NotEmpty key ([] ∷ nals) = frame_nals-NotEmpty key nals
frame_nals-NotEmpty key ((h ∷ t) ∷ nals) =
    if-elim NotEmpty (key && (bit_and h 0x1F == 7 || bit_and h 0x1F == 8))
      (λ _. frame_nals-NotEmpty key nals) (λ _. (refl, frame_nals-NotEmpty key nals))

unless_empty-NotEmpty :
    (n : Bytes) (nals : List Bytes) → NotEmpty nals → NotEmpty (unless_empty n nals)
unless_empty-NotEmpty [] nals h = h
unless_empty-NotEmpty (c ∷ n) nals h = (refl, h)

pub nal_list-NotEmpty : (sps pps : Bytes) (vp : VideoPacket) → NotEmpty (nal_list sps pps vp)
unfolding nal_list
nal_list-NotEmpty sps pps vp =
    let f = frame_nals-NotEmpty vp.is_key_frame vp.nals in
    if-elim NotEmpty vp.is_key_frame
      (λ _.
        unless_empty-NotEmpty sps _
          (unless_empty-NotEmpty pps (frame_nals vp.is_key_frame vp.nals) f))
      (λ _. f)

pub unit_payloads-not_empty :
    (nal : Bytes) (nals : List Bytes)
    → is_empty nal ≡ false
    → is_empty (unit_payloads (nal ∷ nals)) ≡ false
unfolding unit_payloads
unit_payloads-not_empty [] nals h = ground arith
unit_payloads-not_empty (c ∷ nal) nals h =
    append-left_not_empty (payloads_of (packetize (c ∷ nal) k_default_mtu)) (unit_payloads nals)
      (payloads-not_empty c nal)
