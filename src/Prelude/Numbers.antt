-- ===== src/Prelude/Numbers.antt =====
-- Numbers as text: `std::to_string`, `std::stoi` and `std::stoul`. A result `none` is a thrown
-- exception.
use rtsp_server.Prelude.{
  refl, ap, lt→ltb, ℕ, zero, suc, ◌+◌, ◌-◌, ◌*◌, ◌/◌, ◌%◌, ◌≤◌, ◌<◌, ◌≡◌, sym, subst, inl, inr, ◌∙◌,
  Bool, true, false, ◌&&◌, ◌||◌, [], ◌∷◌, arith, ◌==◌, leb, ltb, Option, none, some, if◌then◌else◌,
  Bool-cases, All,
}
use rtsp_server.Prelude.Bits.{Bytes, size_mod}

-- `negsuc n` is -(n + 1).
pub data ℤ : Type 0 where
  pos : ℕ → ℤ
  negsuc : ℕ → ℤ

abbrev pub pos_part : ℤ → ℕ
pos_part (pos n) = n
pos_part (negsuc n) = 0

abbrev pub neg_part : ℤ → ℕ
neg_part (pos n) = 0
neg_part (negsuc n) = suc n

-- a - b, as an integer.
abbrev pub sub_ℕ : ℕ → ℕ → ℤ
sub_ℕ a b = if leb b a then pos (a - b) else negsuc (b - a - 1)

infixl 65 ◌+ℤ◌ ◌-ℤ◌
unfoldable pub ◌+ℤ◌ : ℤ → ℤ → ℤ
a +ℤ b = sub_ℕ (pos_part a + pos_part b) (neg_part a + neg_part b)

unfoldable pub ◌-ℤ◌ : ℤ → ℤ → ℤ
a -ℤ b = sub_ℕ (pos_part a + neg_part b) (neg_part a + pos_part b)

abbrev pub ltb_ℤ : ℤ → ℤ → Bool
ltb_ℤ a b = ltb (pos_part a + neg_part b) (pos_part b + neg_part a)

abbrev pub is_digit : ℕ → Bool
is_digit c = leb b'0' c && leb c b'9'

-- The white space of the C locale.
abbrev pub is_space : ℕ → Bool
is_space c = c == 32 || (leb 9 c && leb c 13)

digits_acc : ℕ → ℕ → Bytes → Bytes
digits_acc zero n acc = acc
digits_acc (suc f) n acc =
    let rest = digits_acc f (n / 10) ((48 + n % 10) ∷ acc) in
    if ltb n 10 then (48 + n) ∷ acc else rest

-- `std::to_string` of a number that is not negative.
unfoldable pub to_string : ℕ → Bytes
unfolding digits_acc
to_string n = digits_acc (suc n) n []

-- `std::to_string` of an `int`.
unfoldable pub int_to_string : ℤ → Bytes
unfolding to_string
int_to_string (pos n) = to_string n
int_to_string (negsuc n) = b'-' ∷ to_string (suc n)

digits_from : ℕ → Bytes → ℕ
digits_from acc [] = acc
digits_from acc (c ∷ s) = if is_digit c then digits_from (acc * 10 + (c - 48)) s else acc

-- The number that the leading digits spell, if there is a digit.
digits_value : Bytes → Option ℕ
unfolding digits_from
digits_value [] = none
digits_value (c ∷ s) = if is_digit c then some (digits_from (c - 48) s) else none

unfoldable pub skip_space : Bytes → Bytes
skip_space [] = []
skip_space (c ∷ s) = if is_space c then skip_space s else c ∷ s

-- The sign (true for `-`) and the text after it.
abbrev sign : Bytes → Bool × Bytes
sign [] = (false, [])
sign (c ∷ s) = if c == b'-' then (true, s) else if c == b'+' then (false, s) else (false, c ∷ s)

-- An `int` of this sign and magnitude, or an exception out of range.
abbrev to_int : Bool → ℕ → Option ℤ
to_int true zero = some (pos 0)
to_int true (suc n) = if ltb n 2147483648 then some (negsuc n) else none
to_int false n = if ltb n 2147483648 then some (pos n) else none

stoi_signed : Bool × Bytes → Option ℤ
unfolding digits_value
stoi_signed (neg, s) = elim (digits_value s) [ none ↦ none | some n ↦ to_int neg n ]

unfoldable pub stoi : Bytes → Option ℤ
unfolding stoi_signed skip_space
stoi s = stoi_signed (sign (skip_space s))

-- `strtoul` negates a signed number in `unsigned long`.
stoul_signed : Bool × Bytes → Option ℕ
unfolding digits_value
stoul_signed (neg, s) = elim (digits_value s) [
  | none ↦ none
  | some n ↦ if ltb n size_mod then some (if neg then (size_mod - n) % size_mod else n) else none
]

unfoldable pub stoul : Bytes → Option ℕ
unfolding stoul_signed skip_space
stoul s = stoul_signed (sign (skip_space s))

digits_from-digits_acc :
    (f n acc : ℕ) (rest : Bytes)
    → n < f
    → digits_value (digits_acc f n rest) ≡ some (digits_from n rest)
unfolding digits_acc digits_from digits_value
digits_from-digits_acc zero n acc rest h = absurd (omega arith)
digits_from-digits_acc (suc f) n acc rest h = elim (Bool-cases (ltb n 10)) [
  | inl small ↦ ground arith
  | inr big ↦
      rw big
        (digits_from-digits_acc f (n / 10) acc ((48 + n % 10) ∷ rest) (ground arith) ∙ ground arith)
]

digits_acc_head :
    (f n : ℕ) (rest : Bytes)
    → n < f
    → (d : ℕ) × (t : Bytes) × (digits_acc f n rest ≡ d ∷ t) × (48 ≤ d) × (d ≤ 57)
unfolding digits_acc
digits_acc_head zero n rest h = absurd (omega arith)
digits_acc_head (suc f) n rest h = elim (Bool-cases (ltb n 10)) [
  | inl small ↦ (48 + n, rest, ground arith, ground arith, ground arith)
  | inr big ↦ rw big (digits_acc_head f (n / 10) ((48 + n % 10) ∷ rest) (ground arith))
]

-- A text that begins with a digit has no sign and no white space in front.
skip_sign : (d : ℕ) (t : Bytes) → 48 ≤ d → d ≤ 57 → sign (skip_space (d ∷ t)) ≡ (false, d ∷ t)
unfolding skip_space
skip_sign d t lo hi = ground arith

-- The range of an `int`.
abbrev pub InInt : ℤ → Type 0
InInt (pos n) = n < 2147483648
InInt (negsuc n) = n < 2147483648

stoi_signed-some :
    (neg : Bool) (s : Bytes) {n : ℕ} → digits_value s ≡ some n → stoi_signed (neg, s) ≡ to_int neg n
unfolding stoi_signed
stoi_signed-some neg s e = rw (e, stoi_signed)

digits_value-to_string : (n : ℕ) → digits_value (to_string n) ≡ some n
unfolding to_string digits_from
digits_value-to_string n = digits_from-digits_acc (suc n) n 0 [] (omega arith)

sign-to_string : (n : ℕ) → sign (skip_space (to_string n)) ≡ (false, to_string n)
unfolding to_string
sign-to_string n =
    let (d, t, e, lo, hi) = digits_acc_head (suc n) n [] (omega arith) in
    subst (λ s. sign (skip_space s) ≡ (false, s)) (sym e) (skip_sign d t lo hi)

-- `std::stoi` reads back what `std::to_string` prints, for every `int`.
pub stoi-int_to_string : (z : ℤ) → InInt z → stoi (int_to_string z) ≡ some z
unfolding int_to_string
stoi-int_to_string (pos n) h =
    unfold stoi in
    rw (sign-to_string n, stoi_signed-some false (to_string n) (digits_value-to_string n))
      (ground arith)
stoi-int_to_string (negsuc n) h =
    unfold stoi in
    rw (stoi_signed-some true (to_string (suc n)) (digits_value-to_string (suc n))) (ground arith)

stoul_signed-some :
    (s : Bytes) {n : ℕ} → digits_value s ≡ some n → n < size_mod → stoul_signed (false, s) ≡ some n
unfolding stoul_signed
stoul_signed-some s {n} e h = rw (e, stoul_signed) (rw (lt→ltb n size_mod h) refl)

-- `std::stoul` reads back what `std::to_string` prints, for every `unsigned long`.
pub stoul-to_string : (n : ℕ) → n < size_mod → stoul (to_string n) ≡ some n
unfolding stoul
stoul-to_string n h =
    ap stoul_signed (sign-to_string n)
    ∙ stoul_signed-some (to_string n) (digits_value-to_string n) h

digits_acc-All {κ} :
    (P : ℕ → Type κ)
    → ((c : ℕ) → 48 ≤ c → c ≤ 57 → P c)
    → (f n : ℕ) (rest : Bytes) → All P rest
    → All P (digits_acc f n rest)
unfolding digits_acc
digits_acc-All P h zero n rest a = a
digits_acc-All P h (suc f) n rest a = elim (Bool-cases (ltb n 10)) [
  | inl small ↦ rw small (h (48 + n) (omega arith) (ground arith), a)
  | inr big ↦ rw big (
      digits_acc-All P h f (n / 10) ((48 + n % 10) ∷ rest)
        (h (48 + n % 10) (omega arith) (omega arith), a))
]

-- A decimal number holds digits only.
pub to_string-All {κ} :
    (P : ℕ → Type κ) → ((c : ℕ) → 48 ≤ c → c ≤ 57 → P c) → (n : ℕ) → All P (to_string n)
unfolding to_string
to_string-All P h n = digits_acc-All P h (suc n) n [] tt
