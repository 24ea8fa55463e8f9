-- ===== src/Rtp/Packet.antt =====
-- src/rtp/RTPPacket.cpp: the wire form of an RTP packet.
pub mod RoundTrip
use rtsp_server.Prelude.{ℕ, ◌+◌, ◌/◌, ◌%◌, Bool, [], ◌∷◌, ◌++◌, bit_and, bit_or, if◌then◌else◌}
use rtsp_server.Prelude.Bits.{Bytes, u8}

-- A 16-bit and a 32-bit number, most significant byte first.
abbrev pub be16 : ℕ → Bytes
be16 n = u8 (n / 256) ∷ u8 n ∷ []

abbrev pub be32 : ℕ → Bytes
be32 n = u8 (n / 16777216) ∷ u8 (n / 65536) ∷ u8 (n / 256) ∷ u8 n ∷ []

-- The arguments, in the order of the source: payload, payload type, sequence number, timestamp,
-- SSRC and marker.
unfoldable pub build : Bytes → ℕ → ℕ → ℕ → ℕ → Bool → Bytes
build payload payload_type seq timestamp ssrc marker =
    (0x80
      ∷ u8 (bit_or (if marker then 0x80 else 0x00) (bit_and payload_type 0x7F))
      ∷ (be16 seq ++ be32 timestamp ++ be32 ssrc))
    ++ payload
