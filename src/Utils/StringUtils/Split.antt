-- ===== src/Utils/StringUtils/Split.antt =====
-- Splitting loses nothing.
use rtsp_server.Prelude.{
  ℕ, ◌≡◌, ◌≢◌, refl, sym, inl, inr, List, [], ◌∷◌, ◌++◌, arith, All, All-append, Bool-cases, ◌==◌,
  append_assoc, append-nil,
}
use rtsp_server.Prelude.Bits.{Bytes}
use rtsp_server.Utils.StringUtils.{split_loop, split}

-- The tokens with the delimiter between them.
abbrev pub join : ℕ → List Bytes → Bytes
join d [] = []
join d (t ∷ []) = t
join d (t ∷ u ∷ r) = t ++ d ∷ join d (u ∷ r)

-- No byte of the text is the delimiter.
abbrev pub Lacks : ℕ → Bytes → Type 0
Lacks d = All (λ c. c ≢ d)

split_loop-ne-nil :
    (d : ℕ) (t s : Bytes) → (u : Bytes) × (r : List Bytes) × (split_loop d t s ≡ u ∷ r)
unfolding split_loop
split_loop-ne-nil d t [] = (t, [], refl)
split_loop-ne-nil d t (c ∷ s) = elim (Bool-cases (c == d)) [
  | inl e ↦ (t, split_loop d [] s, ground arith)
  | inr e ↦ let (u, r, p) = split_loop-ne-nil d (t ++ c ∷ []) s in (u, r, ground (arith, p))
]

join-cons :
    (d : ℕ) (t : Bytes) (ts : List Bytes) (u : Bytes) (r : List Bytes)
    → ts ≡ u ∷ r
    → join d (t ∷ ts) ≡ t ++ d ∷ join d ts
join-cons d t ts u r e = rw e

join-split_loop : (d : ℕ) (t s : Bytes) → join d (split_loop d t s) ≡ t ++ s
unfolding split_loop
join-split_loop d t [] = sym (append-nil t)
join-split_loop d t (c ∷ s) = elim (Bool-cases (c == d)) [
  | inl e ↦
      let (u, r, p) = split_loop-ne-nil d [] s in
      ground (arith, join-cons d t (split_loop d [] s) u r p, join-split_loop d [] s)
  | inr e ↦ ground (arith, join-split_loop d (t ++ c ∷ []) s, append_assoc t (c ∷ []) s)
]

split_loop-Lacks : (d : ℕ) (t s : Bytes) → Lacks d t → All (Lacks d) (split_loop d t s)
unfolding split_loop
split_loop-Lacks d t [] h = (h, tt)
split_loop-Lacks d t (c ∷ s) h = elim (Bool-cases (c == d)) [
  | inl e ↦ ground (arith, split_loop-Lacks d [] s tt)
  | inr e ↦ ground (
    arith,
    split_loop-Lacks d (t ++ c ∷ []) s
        (All-append (λ x. x ≢ d) t (c ∷ []) h ((λ x. ground arith), tt)),
  )
]

-- The tokens hold no delimiter, and with one between each two they make up the text again.
pub split_lem : (s : Bytes) (d : ℕ) → (join d (split s d) ≡ s) × All (Lacks d) (split s d)
unfolding split
split_lem s d = (join-split_loop d [] s, split_loop-Lacks d [] s tt)

split_loop-append :
    (d : ℕ) (t s r : Bytes) → Lacks d s → split_loop d t (s ++ d ∷ r) ≡ (t ++ s) ∷ split_loop d [] r
unfolding split_loop
split_loop-append d t [] r h = ground (arith, append-nil t)
split_loop-append d t (c ∷ s) r h =
    ground (arith, split_loop-append d (t ++ c ∷ []) s r h.1, append_assoc t (c ∷ []) s)

split_loop-last : (d : ℕ) (t s : Bytes) → Lacks d s → split_loop d t s ≡ (t ++ s) ∷ []
unfolding split_loop
split_loop-last d t [] h = ground (arith, append-nil t)
split_loop-last d t (c ∷ s) h =
    ground (arith, split_loop-last d (t ++ c ∷ []) s h.1, append_assoc t (c ∷ []) s)

-- A text up to the first delimiter is the first token.
pub split-append : (d : ℕ) (s r : Bytes) → Lacks d s → split (s ++ d ∷ r) d ≡ s ∷ split r d
unfolding split
split-append d s r h = split_loop-append d [] s r h

pub split-Lacks : (d : ℕ) (s : Bytes) → Lacks d s → split s d ≡ s ∷ []
unfolding split
split-Lacks d s h = split_loop-last d [] s h
