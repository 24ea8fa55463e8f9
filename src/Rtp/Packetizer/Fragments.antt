-- ===== src/Rtp/Packetizer/Fragments.antt =====
-- The fragmenting loop ends, and what it returns, as a relation between the data and the packets.
use rtsp_server.Prelude.{
  ℕ, zero, suc, ◌-◌, ◌≤◌, ◌<◌, ◌≡◌, ◌≢◌, refl, sym, ap, subst, inl, inr, Bool, true, false, [], ◌∷◌,
  ◌++◌, List, none, some, arith, length, take, drop, min, leb, Bool-cases, take-append-drop,
  length-take, length-drop, take_all, drop_all, bit_and, bit_or,
}
use rtsp_server.Prelude.Bits.{Bytes, size_mod, size_sub}
use rtsp_server.Rtp.Packetizer.{Packet, fu_header, fragment_loop, packetize_fuel, packetize}

-- `Splits first d ps`: the packets carry `d` in order, in pieces of at most `size` bytes, each
-- behind the indicator and its FU header; the S bit is set on the first piece if `first` holds, and
-- the E bit and the marker on the last.
pub data Splits (indicator nal_type size : ℕ) : Bool → Bytes → List Packet → Type 0 where
  final :
      {first : Bool} (d : Bytes)
      → length d ≤ size
      → Splits indicator nal_type size first d
          (record { payload = indicator ∷ fu_header nal_type first true ∷ d; marker = true } ∷ [])
  piece :
      {first : Bool} {d : Bytes} {ps : List Packet} (c rest : Bytes)
      → length c ≤ size
      → d ≡ c ++ rest
      → Splits indicator nal_type size false rest ps
      → Splits indicator nal_type size first d
          (record { payload = indicator ∷ fu_header nal_type first false ∷ c; marker = false } ∷ ps)

module _ (indicator nal_type size : ℕ) where
  fragment_loop_last :
      (fuel : ℕ) (x : ℕ) (d : Bytes) (first : Bool)
      → length (x ∷ d) ≤ size
      → fragment_loop (suc fuel) indicator nal_type size (x ∷ d) first
        ≡ some (
            record { payload = indicator ∷ fu_header nal_type first true ∷ x ∷ d; marker = true }
            ∷ [])
  unfolding fragment_loop
  fragment_loop_last fuel x d first h =
      let e : min (length (x ∷ d)) size ≡ length (x ∷ d) = omega arith in
      rw e
        (ground (arith, take_all (length d) d (omega arith), drop_all (length d) d (omega arith)))

  fragment_loop_piece :
      (fuel : ℕ) (x : ℕ) (d : Bytes) (first : Bool) (ps : List Packet)
      → size < length (x ∷ d)
      → fragment_loop fuel indicator nal_type size (drop size (x ∷ d)) false ≡ some ps
      → fragment_loop (suc fuel) indicator nal_type size (x ∷ d) first
        ≡ some (
            record {
              payload = indicator ∷ fu_header nal_type first false ∷ take size (x ∷ d);
              marker = false;
            }
            ∷ ps)
  unfolding fragment_loop
  fragment_loop_piece fuel x d first ps h e =
      let m : min (length (x ∷ d)) size ≡ size = omega arith in rw m (ground (arith, e))

  fragment_loop_lem :
      (fuel : ℕ) (d : Bytes) (first : Bool)
      → 0 < size
      → length d ≤ fuel
      → d ≢ []
      → (ps : List Packet) × (fragment_loop fuel indicator nal_type size d first ≡ some ps)
        × Splits indicator nal_type size first d ps
  fragment_loop_lem fuel [] first pos h ne = absurd (ne refl)
  fragment_loop_lem zero (x ∷ d) first pos h ne = absurd (omega arith)
  fragment_loop_lem (suc fuel) (x ∷ d) first pos h ne =
      elim (Bool-cases (leb (length (x ∷ d)) size)) [
        | inl fits ↦
            (_, fragment_loop_last fuel x d first (ground arith), final (x ∷ d) (ground arith))
        | inr over ↦
            let rest = drop size (x ∷ d) in
            let n : length rest ≡ length (x ∷ d) - size = length-drop size (x ∷ d) in
            let (ps, e, r) =
              fragment_loop_lem fuel (drop size (x ∷ d)) false pos (ground (arith, n))
                (λ z. ground (arith, n, ap length z)) in
            (
              _,
              fragment_loop_piece fuel x d first ps (ground arith) e,
              piece (take size (x ∷ d)) rest (omega (arith, length-take size (x ∷ d)))
                  (sym (take-append-drop size (x ∷ d))) r,
            )
      ]

-- A payload size of two leaves no room for data: no fuel is enough, the loop never ends.
fragment_loop_stuck :
    (fuel indicator nal_type x : ℕ) (d : Bytes) (first : Bool)
    → fragment_loop fuel indicator nal_type 0 (x ∷ d) first ≡ none
unfolding fragment_loop
fragment_loop_stuck zero indicator nal_type x d first = refl
fragment_loop_stuck (suc fuel) indicator nal_type x d first =
    let m : min (length (x ∷ d)) 0 ≡ 0 = omega arith in
    rw m (rw (fragment_loop_stuck fuel indicator nal_type x d false))

size_sub_two : (mtu : ℕ) → 3 ≤ mtu → mtu < size_mod → size_sub mtu 2 ≡ mtu - 2
size_sub_two mtu lo hi = omega arith

-- What `packetize` returns for a NAL unit: one packet, or a fragmentation of what follows the
-- header byte, with room for the two FU bytes in every payload.
pub data Packetizes (mtu : ℕ) : Bytes → List Packet → Type 0 where
  empty : Packetizes mtu [] []
  single :
      (h : ℕ) (rest : Bytes)
      → length (h ∷ rest) ≤ mtu
      → Packetizes mtu (h ∷ rest) (record { payload = h ∷ rest; marker = true } ∷ [])
  split :
      (h : ℕ) (rest : Bytes) {ps : List Packet}
      → mtu < length (h ∷ rest)
      → Splits (bit_or (bit_and h 0x60) 28) (bit_and h 0x1F) (mtu - 2) true rest ps
      → Packetizes mtu (h ∷ rest) ps

-- With three bytes of room the packetizer always returns.
pub packetize_total :
    (nal : Bytes) (mtu : ℕ)
    → 3 ≤ mtu
    → mtu < size_mod
    → (ps : List Packet) × (packetize nal mtu ≡ some ps) × Packetizes mtu nal ps
packetize_total [] mtu lo hi = ([], unfold packetize in refl, empty)
packetize_total (h ∷ rest) mtu lo hi = elim (Bool-cases (leb (length (h ∷ rest)) mtu)) [
  | inl fits ↦ (
    record { payload = h ∷ rest; marker = true } ∷ [],
    unfold packetize in rw fits,
    single h rest (ground arith),
  )
  | inr over ↦
      let ind = bit_or (bit_and h 0x60) 28 in
      let ty = bit_and h 0x1F in
      let (ps, e, r) =
        fragment_loop_lem ind ty (mtu - 2) (length (h ∷ rest)) rest true (omega arith) (omega arith)
          (λ z. ground (arith, ap length z)) in
      (
        ps,
        unfold packetize in rw over (rw (size_sub_two mtu lo hi) e),
        split h rest (ground arith) r,
      )
]

pub packetize-Packetizes :
    (nal : Bytes) (mtu : ℕ) {ps : List Packet}
    → 3 ≤ mtu
    → mtu < size_mod
    → packetize nal mtu ≡ some ps
    → Packetizes mtu nal ps
packetize-Packetizes nal mtu {ps} lo hi e =
    let (qs, f, r) = packetize_total nal mtu lo hi in
    let same : qs ≡ ps = cc in subst (Packetizes mtu nal) same r

-- With a limit of exactly two bytes a NAL unit of three bytes or more is never packetized: the loop
-- makes no progress, whatever the number of rounds.
pub packetize_two :
    (fuel h x y : ℕ) (rest : Bytes) → packetize_fuel fuel (h ∷ x ∷ y ∷ rest) 2 ≡ none
packetize_two fuel h x y rest =
    let e : leb (length (h ∷ x ∷ y ∷ rest)) 2 ≡ false = ground arith in
    unfold packetize_fuel in rw e (fragment_loop_stuck fuel _ _ x (y ∷ rest) true)
