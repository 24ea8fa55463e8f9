-- ===== src/Prelude/Bits.antt =====
-- Bytes and machine words: `uint8_t`, `uint16_t`, `uint32_t` and `size_t` as native numbers with
-- their wrap-around written out, and a byte's bit operations by a table of all its values.
use rtsp_server.Prelude.{
  ℕ, zero, suc, ◌+◌, ◌-◌, ◌*◌, ◌/◌, ◌%◌, ◌<◌, ◌≡◌, refl, Bool, true, ◌&&◌, List, arith, ◌==◌,
  ==_iff, bit_and, bit_or, false, if◌then◌else◌,
}

abbrev pub Bytes : Type 0
Bytes = List ℕ

abbrev pub u8 : ℕ → ℕ
u8 n = n % 256

abbrev pub u16 : ℕ → ℕ
u16 n = n % 65536

abbrev pub u32 : ℕ → ℕ
u32 n = n % 4294967296

abbrev pub size_mod : ℕ
size_mod = 18446744073709551616

-- `size_t` sums and differences.
abbrev pub size_add : ℕ → ℕ → ℕ
size_add a b = (a + b) % size_mod

abbrev pub size_sub : ℕ → ℕ → ℕ
size_sub a b = (a + size_mod - b) % size_mod

-- `uint32_t` difference.
abbrev pub sub32 : ℕ → ℕ → ℕ
sub32 a b = (a + 4294967296 - b) % 4294967296

-- Whether a test holds of every number below a bound; it is run on each of them.
unfoldable pub holds_below : (ℕ → Bool) → ℕ → Bool
holds_below test zero = true
holds_below test (suc k) = let rest = holds_below test k in if test k then rest else false

pub at_below : (test : ℕ → Bool) (n x : ℕ) → x < n → holds_below test n ≡ true → test x ≡ true
unfolding holds_below
at_below test zero x less all = absurd (omega (arith, less))
at_below test (suc k) x less all = ground (arith, at_below test k x)

and_31_table : holds_below (λ x. bit_and x 0x1F == x % 32) 256 ≡ true
unfolding holds_below
and_31_table = refl

and_96_table : holds_below (λ x. bit_and x 0x60 == (x / 32 % 4) * 32) 256 ≡ true
unfolding holds_below
and_96_table = refl

or_28_table : holds_below (λ x. bit_or (x * 32) 28 == x * 32 + 28) 4 ≡ true
unfolding holds_below
or_28_table = refl

or_128_table : holds_below (λ x. bit_or x 0x80 == x + 128) 128 ≡ true
unfolding holds_below
or_128_table = refl

or_64_table :
    holds_below (λ x. bit_or x 0x40 == x + 64 && bit_or (x + 128) 0x40 == x + 192) 64 ≡ true
unfolding holds_below
or_64_table = refl

-- The low five bits, `x & 0x1F`.
pub bit_and_31 : (x : ℕ) → x < 256 → bit_and x 0x1F ≡ x % 32
bit_and_31 x h = (==_iff _ _).0 (at_below _ 256 x h and_31_table)

-- The two NRI bits, `x & 0x60`.
pub bit_and_96 : (x : ℕ) → x < 256 → bit_and x 0x60 ≡ (x / 32 % 4) * 32
bit_and_96 x h = (==_iff _ _).0 (at_below _ 256 x h and_96_table)

pub bit_or_28 : (x : ℕ) → x < 4 → bit_or (x * 32) 28 ≡ x * 32 + 28
bit_or_28 x h = (==_iff _ _).0 (at_below _ 4 x h or_28_table)

pub bit_or_128 : (x : ℕ) → x < 128 → bit_or x 0x80 ≡ x + 128
bit_or_128 x h = (==_iff _ _).0 (at_below _ 128 x h or_128_table)

pub bit_or_64 : (x : ℕ) → x < 64 → (bit_or x 0x40 ≡ x + 64) × (bit_or (x + 128) 0x40 ≡ x + 192)
bit_or_64 x h = ground (arith, at_below _ 64 x h or_64_table)
