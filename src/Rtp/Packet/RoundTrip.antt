-- ===== src/Rtp/Packet/RoundTrip.antt =====
-- A receiver's reading of the header (RFC 3550, section 5.1) recovers every field.
use rtsp_server.Prelude.{
  ℕ, ◌+◌, ◌*◌, ◌%◌, ◌<◌, ◌≡◌, refl, Bool, true, false, ◌&&◌, ◌∷◌, arith, Option, none, some, ◌==◌,
  leb, bit_and, bit_or, if◌then◌else◌, length,
}
use rtsp_server.Prelude.Bits.{Bytes, u8, holds_below, at_below}
use rtsp_server.Rtp.Packet.{build}

pub record Fields : Type 0 where
  pub marker : Bool
  pub payload_type : ℕ
  pub seq : ℕ
  pub timestamp : ℕ
  pub ssrc : ℕ
  pub payload : Bytes

-- Version 2 with no padding, no extension and no contributing source; then the fixed fields.
pub parse : Bytes → Option Fields
parse (v ∷ m ∷ s1 ∷ s0 ∷ t3 ∷ t2 ∷ t1 ∷ t0 ∷ c3 ∷ c2 ∷ c1 ∷ c0 ∷ payload) =
    if v == 128
    then some (record {
      marker = leb 128 m;
      payload_type = m % 128;
      seq = s1 * 256 + s0;
      timestamp = t3 * 16777216 + t2 * 65536 + t1 * 256 + t0;
      ssrc = c3 * 16777216 + c2 * 65536 + c1 * 256 + c0;
      payload = payload;
    })
    else none
parse _ = none

second_byte_table :
    holds_below
      (λ x. u8 (bit_or 0x80 (bit_and x 0x7F)) == x + 128 && u8 (bit_or 0x00 (bit_and x 0x7F)) == x)
      128
    ≡ true
unfolding holds_below
second_byte_table = refl

second_byte :
    (x : ℕ) (marker : Bool)
    → x < 128
    → u8 (bit_or (if marker then 0x80 else 0x00) (bit_and x 0x7F)) ≡ (if marker then x + 128 else x)
second_byte x true h = ground (arith, at_below _ 128 x h second_byte_table)
second_byte x false h = ground (arith, at_below _ 128 x h second_byte_table)

-- Every field of a packet that `RTPPacket::build` makes is read back, for a payload type of seven
-- bits, a 16-bit sequence number and a 32-bit timestamp and SSRC.
pub parse-build :
    (payload : Bytes) (payload_type seq timestamp ssrc : ℕ) (marker : Bool)
    → payload_type < 128
    → seq < 65536
    → timestamp < 4294967296
    → ssrc < 4294967296
    → parse (build payload payload_type seq timestamp ssrc marker)
      ≡ some (record {
        marker = marker;
        payload_type = payload_type;
        seq = seq;
        timestamp = timestamp;
        ssrc = ssrc;
        payload = payload;
      })
unfolding parse build
parse-build payload pt seq ts ssrc true hp hs ht hc = ground (arith, second_byte pt true hp)
parse-build payload pt seq ts ssrc false hp hs ht hc = ground (arith, second_byte pt false hp)

-- The header is twelve bytes, and all that is put on the wire are bytes.
pub length-build :
    (payload : Bytes) (payload_type seq timestamp ssrc : ℕ) (marker : Bool)
    → length (build payload payload_type seq timestamp ssrc marker) ≡ 12 + length payload
unfolding build
length-build payload pt seq ts ssrc marker = omega arith
