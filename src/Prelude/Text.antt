-- ===== src/Prelude/Text.antt =====
-- `std::string` over its bytes: literals, search and substrings. A position is `none` where the
-- library returns `npos`.
use Prim.Native.Char.{code}
use Prim.Native.String.{String}
use rtsp_server.Prelude.{
  ℕ, suc, ◌+◌, Bool, true, false, ◌&&◌, [], ◌∷◌, ◌==◌, Option, none, some, take, drop, ◌≡◌, refl,
  arith, ==_iff, if◌then◌else◌,
}
use rtsp_server.Prelude.Bits.{Bytes}
use mathlib.Core.Option

-- The bytes of an ASCII literal.
abbrev pub codes : String → Bytes
codes String.[] = []
codes (String.◌∷◌ c s) = code c ∷ codes s

unfoldable pub bytes_eq : Bytes → Bytes → Bool
bytes_eq [] [] = true
bytes_eq (x ∷ xs) (y ∷ ys) = x == y && bytes_eq xs ys
bytes_eq _ _ = false

unfoldable pub starts_with : Bytes → Bytes → Bool
starts_with [] s = true
starts_with (p ∷ ps) [] = false
starts_with (p ∷ ps) (c ∷ s) = p == c && starts_with ps s

-- `s.find(p)`: the first position at which `p` stands.
unfoldable pub find : Bytes → Bytes → Option ℕ
unfolding starts_with
find p [] = if starts_with p [] then some 0 else none
find p (c ∷ s) = if starts_with p (c ∷ s) then some 0 else Option.map suc (find p s)

-- `s.find(p, from)`.
unfoldable pub find_from : Bytes → Bytes → ℕ → Option ℕ
unfolding find
find_from p s from = Option.map (λ i. i + from) (find p (drop from s))

-- `s.rfind(c)`: the last position of a byte.
unfoldable pub rfind : ℕ → Bytes → Option ℕ
rfind b [] = none
rfind b (c ∷ s) = elim (rfind b s) [
  | some i ↦ some (suc i)
  | none ↦ if c == b then some 0 else none
]

-- `s.substr(pos, count)`.
abbrev pub substr : Bytes → ℕ → ℕ → Bytes
substr s pos count = take count (drop pos s)

unfoldable pub contains : Bytes → Bytes → Bool
unfolding find
contains p s = elim (find p s) [ some _ ↦ true | none ↦ false ]

pub bytes_eq_sound : (s t : Bytes) → bytes_eq s t ≡ true → s ≡ t
unfolding bytes_eq
bytes_eq_sound [] [] h = refl
bytes_eq_sound [] (y ∷ t) h = ground arith
bytes_eq_sound (x ∷ s) [] h = ground arith
bytes_eq_sound (x ∷ s) (y ∷ t) h = ground (arith, bytes_eq_sound s t, ==_iff x y)

pub bytes_eq_refl : (s : Bytes) → bytes_eq s s ≡ true
unfolding bytes_eq
bytes_eq_refl [] = refl
bytes_eq_refl (x ∷ s) = ground (arith, bytes_eq_refl s, ==_iff x x)
