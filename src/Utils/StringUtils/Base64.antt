-- ===== src/Utils/StringUtils/Base64.antt =====
-- An independent decoder, and the round trip of the encoder through it.
use rtsp_server.Prelude.{
  ℕ, ◌+◌, ◌-◌, ◌*◌, ◌/◌, ◌%◌, ◌<◌, ◌≡◌, refl, true, ◌&&◌, ◌||◌, [], ◌∷◌, arith, All, ◌==◌, leb,
  Option, none, some, if◌then◌else◌, ==_iff,
}
use rtsp_server.Prelude.Bits.{Bytes, holds_below, at_below}
use rtsp_server.Utils.StringUtils.{b64_char, base64_encode}

-- The value of a digit of RFC 4648; 64 for `=`, and 65 for any other byte.
pub b64_value : ℕ → ℕ
b64_value c =
    if leb b'A' c && leb c b'Z'
    then c - b'A'
    else if leb b'a' c && leb c b'z'
    then c - b'a' + 26
    else if leb b'0' c && leb c b'9'
    then c - b'0' + 52
    else if c == b'+'
    then 62
    else if c == b'/'
    then 63
    else if c == b'='
    then 64
    else 65

-- One group of four digits, by their values: the bytes that it stands for.
pub group : ℕ → ℕ → ℕ → ℕ → Bytes → Option Bytes
group p q r s rest =
    if leb 64 p || leb 64 q
    then none
    else if r == 64 && s == 64
    then some ((p * 4 + q / 16) ∷ [])
    else if leb 64 r
    then none
    else if s == 64
    then some ((p * 4 + q / 16) ∷ (q % 16 * 16 + r / 4) ∷ [])
    else if leb 64 s
    then none
    else some ((p * 4 + q / 16) ∷ (q % 16 * 16 + r / 4) ∷ (r % 4 * 64 + s) ∷ rest)

pub base64_decode : Bytes → Option Bytes
unfolding b64_value group
base64_decode [] = some []
base64_decode (p ∷ q ∷ r ∷ s ∷ rest) = elim (base64_decode rest) [
  | none ↦ none
  | some out ↦ group (b64_value p) (b64_value q) (b64_value r) (b64_value s) out
]
base64_decode _ = none

value_table : holds_below (λ i. b64_value (b64_char i) == i) 64 ≡ true
unfolding holds_below b64_value b64_char
value_table = refl

b64_value-b64_char : (i : ℕ) → i < 64 → b64_value (b64_char i) ≡ i
b64_value-b64_char i h = (==_iff _ _).0 (at_below _ 64 i h value_table)

b64_value_pad : b64_value b'=' ≡ 64
unfolding b64_value
b64_value_pad = refl

-- Decoding what `base64Encode` returns gives the bytes back, for every sequence of bytes.
pub base64_decode-base64_encode :
    (s : Bytes) → All (λ x. x < 256) s → base64_decode (base64_encode s) ≡ some s
unfolding base64_decode base64_encode
base64_decode-base64_encode [] h = refl
base64_decode-base64_encode (x ∷ []) h =
    rw
      (
        b64_value-b64_char (x * 65536 / 262144 % 64) (omega arith),
        b64_value-b64_char (x * 65536 / 4096 % 64) (omega arith),
      )
      (unfold group in ground arith)
base64_decode-base64_encode (x ∷ y ∷ []) h =
    let b = x * 65536 + y * 256 in
    rw
      (
        b64_value-b64_char (b / 262144 % 64) (omega arith),
        b64_value-b64_char (b / 4096 % 64) (omega arith),
        b64_value-b64_char (b / 64 % 64) (omega arith),
      )
      (unfold group in ground arith)
base64_decode-base64_encode (x ∷ y ∷ z ∷ rest) h =
    let b = x * 65536 + y * 256 + z in
    rw
      (
        base64_decode-base64_encode rest h.1.1.1,
        b64_value-b64_char (b / 262144 % 64) (omega arith),
        b64_value-b64_char (b / 4096 % 64) (omega arith),
        b64_value-b64_char (b / 64 % 64) (omega arith),
        b64_value-b64_char (b % 64) (omega arith),
      )
      (unfold group in ground arith)
