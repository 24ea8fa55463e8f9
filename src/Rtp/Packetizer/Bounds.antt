-- ===== src/Rtp/Packetizer/Bounds.antt =====
-- Sizes and markers of the packets.
use rtsp_server.Prelude.{
  ℕ, ◌-◌, ◌≤◌, ◌<◌, ◌≡◌, refl, Bool, true, false, [], ◌∷◌, List, arith, All, length, some,
}
use rtsp_server.Prelude.Bits.{Bytes, size_mod}
use rtsp_server.Rtp.Packetizer.{Packet, fu_header, packetize}
use rtsp_server.Rtp.Packetizer.Fragments.{
  Splits, final, piece, Packetizes, empty, single, split, packetize-Packetizes,
}

-- No payload is longer than the limit.
abbrev pub Fit : ℕ → List Packet → Type 0
Fit mtu = All (λ p. length p.payload ≤ mtu)

-- The marker is set on the last packet, and on no other.
abbrev pub LastMarked : List Packet → Type 0
LastMarked [] = Unit {0}
LastMarked (p ∷ []) = p.marker ≡ true
LastMarked (p ∷ q ∷ ps) = (p.marker ≡ false) × LastMarked (q ∷ ps)

LastMarked-cons :
    (p : Packet) (ps : List Packet)
    → p.marker ≡ false
    → LastMarked ps
    → (1 ≤ length ps)
    → LastMarked (p ∷ ps)
LastMarked-cons p [] e m h = absurd (omega arith)
LastMarked-cons p (q ∷ ps) e m h = (e, m)

Splits-bounds :
    {indicator nal_type mtu : ℕ} {first : Bool} {d : Bytes} {ps : List Packet}
    → 3 ≤ mtu
    → Splits indicator nal_type (mtu - 2) first d ps
    → Fit mtu ps × LastMarked ps × (1 ≤ length ps)
Splits-bounds h (final d fits) = ((omega arith, tt), refl, omega arith)
Splits-bounds {indicator} {nal_type} {first = first} h (piece {ps = ps} c rest fits e r) =
    let (f, m, n) = Splits-bounds h r in
    (
      (omega arith, f),
      LastMarked-cons
          (record { payload = indicator ∷ fu_header nal_type first false ∷ c; marker = false }) ps
          refl m n,
      omega arith,
    )

Packetizes-bounds :
    {mtu : ℕ} {nal : Bytes} {ps : List Packet}
    → 3 ≤ mtu
    → Packetizes mtu nal ps
    → Fit mtu ps × LastMarked ps
Packetizes-bounds lo empty = (tt, tt)
Packetizes-bounds lo (single h rest fits) = ((fits, tt), refl)
Packetizes-bounds lo (split h rest over r) = let (f, m, _) = Splits-bounds lo r in (f, m)

-- For a limit of at least three bytes, every payload fits the limit, and exactly the last packet of a
-- NAL unit is marked.
pub packetize_bounds :
    (nal : Bytes) (mtu : ℕ) {ps : List Packet}
    → 3 ≤ mtu
    → mtu < size_mod
    → packetize nal mtu ≡ some ps
    → Fit mtu ps × LastMarked ps
packetize_bounds nal mtu lo hi e = Packetizes-bounds lo (packetize-Packetizes nal mtu lo hi e)
