-- ===== src/Utils/StringUtils/UrlDecode.antt =====
-- Percent-decoding against the encodings of RFC 3986.
use rtsp_server.Prelude.{
  ℕ, ◌+◌, ◌*◌, ◌≤◌, ◌≡◌, ◌≢◌, refl, ap, ◌∙◌, ◌⊎◌, [], ◌∷◌, arith, none, some, length,
}
use rtsp_server.Prelude.Bits.{Bytes}
use rtsp_server.Utils.StringUtils.{hex_val, escaped_byte, url_decode}

-- `Encodes e s`: the text `e` is a percent-encoding of `s`. Any byte but `%` may stand for itself.
pub data Encodes : Bytes → Bytes → Type 0 where
  done : Encodes [] []
  plain : {c : ℕ} {e s : Bytes} → c ≢ b'%' → Encodes e s → Encodes (c ∷ e) (c ∷ s)
  escape :
      {h l b hi lo : ℕ} {e s : Bytes}
      → hex_val h ≡ some hi
      → hex_val l ≡ some lo
      → b ≡ hi * 16 + lo
      → Encodes e s
      → Encodes (b'%' ∷ h ∷ l ∷ e) (b ∷ s)

escaped_byte_plain : (c h l : ℕ) → c ≢ b'%' → escaped_byte c h l ≡ none
unfolding escaped_byte
escaped_byte_plain c h l ne = ground arith

escaped_byte_hex :
    (h l : ℕ) {hi lo : ℕ}
    → hex_val h ≡ some hi
    → hex_val l ≡ some lo
    → escaped_byte b'%' h l ≡ some (hi * 16 + lo)
unfolding escaped_byte
escaped_byte_hex h l p q = ground arith

url_decode_plain : (c : ℕ) (e : Bytes) → c ≢ b'%' → url_decode (c ∷ e) ≡ c ∷ url_decode e
unfolding url_decode
url_decode_plain c [] ne = refl
url_decode_plain c (h ∷ []) ne = refl
url_decode_plain c (h ∷ l ∷ e) ne = rw (escaped_byte_plain c h l ne, url_decode)

url_decode_escape :
    (h l b : ℕ) {hi lo : ℕ} (e : Bytes)
    → hex_val h ≡ some hi
    → hex_val l ≡ some lo
    → b ≡ hi * 16 + lo
    → url_decode (b'%' ∷ h ∷ l ∷ e) ≡ b ∷ url_decode e
unfolding url_decode
url_decode_escape h l b e p q r = ground (arith, escaped_byte_hex h l p q)

-- Decoding inverts every percent-encoding.
pub url_decode-Encodes : {e s : Bytes} → Encodes e s → url_decode e ≡ s
url_decode-Encodes done = unfold url_decode in refl
url_decode-Encodes (plain {c} {e} ne r) =
    url_decode_plain c e ne ∙ ap (◌∷◌ c) (url_decode-Encodes r)
url_decode-Encodes (escape {h} {l} {b} {e = e} p q v r) =
    url_decode_escape h l b e p q v ∙ ap (◌∷◌ b) (url_decode-Encodes r)

-- A percent sign with no two hexadecimal digits behind it is kept.
pub url_decode_malformed :
    (h l : ℕ) (s : Bytes)
    → (hex_val h ≡ none) ⊎ (hex_val l ≡ none)
    → url_decode (b'%' ∷ h ∷ l ∷ s) ≡ b'%' ∷ url_decode (h ∷ l ∷ s)
url_decode_malformed h l s e =
    let bad : escaped_byte b'%' h l ≡ none = unfold escaped_byte in ground arith in
    unfold url_decode in rw (bad, url_decode)

pub length-url_decode-le : (s : Bytes) → length (url_decode s) ≤ length s
unfolding url_decode
length-url_decode-le [] = omega arith
length-url_decode-le (c ∷ []) = omega arith
length-url_decode-le (c ∷ h ∷ []) = omega arith
length-url_decode-le (c ∷ h ∷ l ∷ s) =
    ground (arith, length-url_decode-le (h ∷ l ∷ s), length-url_decode-le s)
