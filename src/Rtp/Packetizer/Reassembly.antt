-- ===== src/Rtp/Packetizer/Reassembly.antt =====
-- A receiver (RFC 6184, section 5.8) puts the NAL unit together again.
use rtsp_server.Prelude.{
  ℕ, ◌+◌, ◌*◌, ◌/◌, ◌%◌, ◌≤◌, ◌<◌, ◌≡◌, ◌≢◌, refl, Bool, true, false, not, ◌&&◌, [], ◌∷◌, ◌++◌,
  List, map, arith, Option, none, some, if◌then◌else◌, ◌==◌, leb, bit_and, bit_or,
}
use rtsp_server.Prelude.Bits.{
  Bytes, size_mod, bit_and_31, bit_and_96, bit_or_28, bit_or_128, bit_or_64,
}
use rtsp_server.Rtp.Packetizer.{Packet, fu_header, packetize}
use rtsp_server.Rtp.Packetizer.Fragments.{
  Splits, final, piece, Packetizes, single, split, packetize_total, packetize-Packetizes,
}
use rtsp_server.Rtp.Packetizer.Bounds.{Fit, LastMarked, packetize_bounds}

abbrev append? : Bytes → Option Bytes → Option Bytes
append? d none = none
append? d (some r) = some (d ++ r)

-- The fragment with the E bit is the last.
abbrev closes : Bytes → List Bytes → Option Bytes
closes d [] = some d
closes d (_ ∷ _) = none

abbrev same : Bool → Bool → Bool
same true b = b
same false b = not b

-- The data of a run of FU-A payloads; the S bit must stand on the first and on no other.
pub join_fragments : Bool → List Bytes → Option Bytes
join_fragments first ((ind ∷ fu ∷ d) ∷ ps) =
    let more = append? d (join_fragments false ps) in
    if not (ind % 32 == 28 && same first (leb 128 fu))
    then none
    else if fu / 64 % 2 == 1
    then closes d ps
    else more
join_fragments _ _ = none

-- The NAL unit that a sequence of payloads carries: one payload as it is, or a run of fragments,
-- with the header byte put together from the indicator and the first FU header.
pub reassemble : List Bytes → Option Bytes
unfolding join_fragments
reassemble ((h ∷ []) ∷ []) = some (h ∷ [])
reassemble ((h ∷ b ∷ d) ∷ ps) =
    if h % 32 == 28
    then append? ((h / 32 * 32 + b % 32) ∷ []) (join_fragments true ((h ∷ b ∷ d) ∷ ps))
    else closes (h ∷ b ∷ d) ps
reassemble _ = none

-- The FU header holds the type and the two bits.
fu_header_lem :
    (t : ℕ) (first last : Bool)
    → t < 32
    → fu_header t first last ≡ t + (if first then 128 else 0) + (if last then 64 else 0)
unfolding fu_header
fu_header_lem t true true h = ground (arith, bit_or_128 t, bit_or_64 t)
fu_header_lem t true false h = ground (arith, bit_or_128 t)
fu_header_lem t false true h = ground (arith, bit_or_64 t)
fu_header_lem t false false h = omega arith

abbrev pub payloads : List Packet → List Bytes
payloads = map (λ p. p.payload)

join_final :
    (indicator t : ℕ) (first : Bool) (d : Bytes)
    → t < 32
    → indicator % 32 ≡ 28
    → join_fragments first ((indicator ∷ fu_header t first true ∷ d) ∷ []) ≡ some d
unfolding join_fragments
join_final indicator t true d ht hi = rw (fu_header_lem t true true ht) (ground arith)
join_final indicator t false d ht hi = rw (fu_header_lem t false true ht) (ground arith)

join_piece :
    (indicator t : ℕ) (first : Bool) (c rest : Bytes) (ps : List Bytes)
    → t < 32
    → indicator % 32 ≡ 28
    → join_fragments false ps ≡ some rest
    → join_fragments first ((indicator ∷ fu_header t first false ∷ c) ∷ ps) ≡ some (c ++ rest)
unfolding join_fragments
join_piece indicator t true c rest ps ht hi e =
    rw (fu_header_lem t true false ht) (ground (arith, e))
join_piece indicator t false c rest ps ht hi e =
    rw (fu_header_lem t false false ht) (ground (arith, e))

join_fragments-Splits :
    {indicator t size : ℕ} {first : Bool} {d : Bytes} {ps : List Packet}
    → t < 32
    → indicator % 32 ≡ 28
    → Splits indicator t size first d ps
    → join_fragments first (payloads ps) ≡ some d
join_fragments-Splits {indicator} {t} {first = first} ht hi (final d fits) =
    join_final indicator t first d ht hi
join_fragments-Splits {indicator} {t} {first = first} ht hi (piece {ps = ps} c rest fits e r) =
    rw e (join_piece indicator t first c rest (payloads ps) ht hi (join_fragments-Splits ht hi r))

-- The header byte, from the indicator and the first FU header.
header_back :
    (h fu : ℕ) → h < 128 → fu % 32 ≡ h % 32 → bit_or (bit_and h 0x60) 28 / 32 * 32 + fu % 32 ≡ h
header_back h fu small e =
    let a : bit_and h 0x60 ≡ (h / 32 % 4) * 32 = bit_and_96 h (omega arith) in
    rw a (omega (arith, bit_or_28 (h / 32 % 4)))

reassemble_run :
    (indicator fu h : ℕ) (d rest : Bytes) (ps : List Bytes)
    → indicator % 32 ≡ 28
    → indicator / 32 * 32 + fu % 32 ≡ h
    → join_fragments true ((indicator ∷ fu ∷ d) ∷ ps) ≡ some rest
    → reassemble ((indicator ∷ fu ∷ d) ∷ ps) ≡ some (h ∷ rest)
reassemble_run indicator fu h d rest ps hi e j = unfold reassemble in rw (j, e) (ground arith)

indicator_type : (h : ℕ) → h < 256 → bit_or (bit_and h 0x60) 28 % 32 ≡ 28
indicator_type h small = rw (bit_and_96 h small) (omega (arith, bit_or_28 (h / 32 % 4)))

nal_type-lt : (h : ℕ) → h < 256 → bit_and h 0x1F < 32
nal_type-lt h small = rw (bit_and_31 h small) (omega arith)

fu_type :
    (h : ℕ) (first last : Bool) → h < 256 → fu_header (bit_and h 0x1F) first last % 32 ≡ h % 32
fu_type h first last small =
    rw (bit_and_31 h small, fu_header_lem (h % 32) first last (omega arith)) (ground arith)

reassemble-Splits :
    {h : ℕ} {size : ℕ} {rest : Bytes} {ps : List Packet}
    → h < 128
    → Splits (bit_or (bit_and h 0x60) 28) (bit_and h 0x1F) size true rest ps
    → reassemble (payloads ps) ≡ some (h ∷ rest)
reassemble-Splits {h} small (final d fits) =
    let ind = bit_or (bit_and h 0x60) 28 in
    let ty = bit_and h 0x1F in
    let i = indicator_type h (omega arith) in
    reassemble_run ind (fu_header ty true true) h d d [] i
      (header_back h (fu_header ty true true) small (fu_type h true true (omega arith)))
      (join_final ind ty true d (nal_type-lt h (omega arith)) i)
reassemble-Splits {h} small (piece {ps = ps} c rest fits e r) =
    let ind = bit_or (bit_and h 0x60) 28 in
    let ty = bit_and h 0x1F in
    let i = indicator_type h (omega arith) in
    let t = nal_type-lt h (omega arith) in
    rw e (
      reassemble_run ind (fu_header ty true false) h c (c ++ rest) (payloads ps) i
        (header_back h (fu_header ty true false) small (fu_type h true false (omega arith)))
        (join_piece ind ty true c rest (payloads ps) t i (join_fragments-Splits t i r)))

reassemble-Packetizes :
    (h : ℕ) (rest : Bytes) {mtu : ℕ} {ps : List Packet}
    → h < 128
    → h % 32 ≢ 28
    → 3 ≤ mtu
    → Packetizes mtu (h ∷ rest) ps
    → reassemble (payloads ps) ≡ some (h ∷ rest)
reassemble-Packetizes h [] small whole lo (single _ _ fits) = unfold reassemble in refl
reassemble-Packetizes h (b ∷ d) small whole lo (single _ _ fits) = unfold reassemble in ground arith
reassemble-Packetizes h rest small whole lo (split _ _ over r) = reassemble-Splits small r

-- The receiver gets back each NAL unit whose forbidden bit is zero and whose type is not that of a
-- fragment, for every limit that leaves room for data.
pub reassemble-packetize :
    (h : ℕ) (rest : Bytes) (mtu : ℕ) {ps : List Packet}
    → h < 128
    → h % 32 ≢ 28
    → 3 ≤ mtu
    → mtu < size_mod
    → packetize (h ∷ rest) mtu ≡ some ps
    → reassemble (payloads ps) ≡ some (h ∷ rest)
reassemble-packetize h rest mtu {ps} small whole lo hi e =
    reassemble-Packetizes h rest small whole lo (packetize-Packetizes (h ∷ rest) mtu lo hi e)

-- With three bytes of room the packetizer returns for every NAL unit whose forbidden bit is zero and
-- whose type is not that of a fragment: the receiver gets the unit back, every payload fits the
-- limit, and exactly the last packet is marked.
pub packetize_delivers :
    (h : ℕ) (rest : Bytes) (mtu : ℕ)
    → h < 128
    → h % 32 ≢ 28
    → 3 ≤ mtu
    → mtu < size_mod
    → (ps : List Packet) × (packetize (h ∷ rest) mtu ≡ some ps)
      × (reassemble (payloads ps) ≡ some (h ∷ rest))
      × Fit mtu ps
      × LastMarked ps
packetize_delivers h rest mtu small whole lo hi =
    let (ps, e, _) = packetize_total (h ∷ rest) mtu lo hi in
    let (fit, marked) = packetize_bounds (h ∷ rest) mtu lo hi e in
    (ps, e, reassemble-packetize h rest mtu small whole lo hi e, fit, marked)
