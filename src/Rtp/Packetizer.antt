-- ===== src/Rtp/Packetizer.antt =====
-- src/rtp/H264Packetizer.cpp: a NAL unit as RTP payloads (RFC 6184).
pub mod Fragments
pub mod Bounds
pub mod Reassembly
use rtsp_server.Prelude.{
  ℕ, zero, suc, ◌+◌, ◌≤◌, Bool, true, false, [], ◌∷◌, List, Option, none, some, bit_and, bit_or,
  if◌then◌else◌, length, take, drop, min, ◌==◌, leb,
}
use rtsp_server.Prelude.Bits.{Bytes, size_sub}

pub record Packet : Type 0 where
  pub payload : Bytes
  pub marker : Bool

abbrev pub k_default_mtu : ℕ
k_default_mtu = 1400

-- The FU header: the NAL type with the S bit and the E bit.
unfoldable pub fu_header : ℕ → Bool → Bool → ℕ
fu_header nal_type first last =
    let h = if first then bit_or nal_type 0x80 else nal_type in if last then bit_or h 0x40 else h

abbrev cons? : Packet → Option (List Packet) → Option (List Packet)
cons? p none = none
cons? p (some ps) = some (p ∷ ps)

-- The `while` loop over `data`, one round for each unit of fuel; `none` when the fuel runs out.
unfoldable pub fragment_loop : ℕ → ℕ → ℕ → ℕ → Bytes → Bool → Option (List Packet)
unfolding fu_header
fragment_loop fuel indicator nal_type size [] first = some []
fragment_loop zero indicator nal_type size (d ∷ rest) first = none
fragment_loop (suc fuel) indicator nal_type size (d ∷ rest) first =
    let chunk = min (length (d ∷ rest)) size in
    let last = chunk == length (d ∷ rest) in
    cons?
      (record {
        payload = indicator ∷ fu_header nal_type first last ∷ take chunk (d ∷ rest);
        marker = last;
      })
      (fragment_loop fuel indicator nal_type size (drop chunk (d ∷ rest)) false)

fragments : ℕ → ℕ → ℕ → Bytes → Option (List Packet)
unfolding fragment_loop
fragments fuel mtu nal_header rest =
    let nal_type = bit_and nal_header 0x1F in
    let nri = bit_and nal_header 0x60 in
    let fu_indicator = bit_or nri 28 in
    fragment_loop fuel fu_indicator nal_type (size_sub mtu 2) rest true

unfoldable pub packetize_fuel : ℕ → Bytes → ℕ → Option (List Packet)
unfolding fragments
packetize_fuel fuel [] mtu = some []
packetize_fuel fuel (h ∷ rest) mtu =
    if leb (length (h ∷ rest)) mtu
    then some (record { payload = h ∷ rest; marker = true } ∷ [])
    else fragments fuel mtu h rest

-- One round for each byte is more than the loop makes; see `Fragments`.
unfoldable pub packetize : Bytes → ℕ → Option (List Packet)
unfolding packetize_fuel
packetize nal mtu = packetize_fuel (length nal) nal mtu
