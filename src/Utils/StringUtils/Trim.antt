-- ===== src/Utils/StringUtils/Trim.antt =====
-- `trim` takes white space off both ends, and nothing else.
use rtsp_server.Prelude.{
  ℕ, ◌≡◌, refl, sym, ap, ◌∙◌, true, false, [], ◌∷◌, ◌++◌, All, append_assoc, append-nil,
}
use rtsp_server.Prelude.Bits.{Bytes}
use rtsp_server.Prelude.Numbers.{is_space, skip_space}
use rtsp_server.Utils.StringUtils.{trim, trim_end}

abbrev pub Blank : Bytes → Type 0
Blank = All (λ c. is_space c ≡ true)

-- A text that neither begins nor ends in white space.
pub data IsTrimmed : Bytes → Type 0 where
  nothing : IsTrimmed []
  one : (c : ℕ) → is_space c ≡ false → IsTrimmed (c ∷ [])
  more :
      {s : Bytes} (c d : ℕ) (mid : Bytes)
      → is_space c ≡ false
      → is_space d ≡ false
      → s ≡ mid ++ d ∷ []
      → IsTrimmed (c ∷ s)

trim_end-Blank : (q : Bytes) → Blank q → trim_end q ≡ []
unfolding trim_end
trim_end-Blank [] h = refl
trim_end-Blank (c ∷ q) h = rw (trim_end-Blank q h.1, h.0, trim_end) refl

trim_end-last :
    (mid : Bytes) (d : ℕ) (q : Bytes)
    → is_space d ≡ false
    → Blank q
    → trim_end (mid ++ d ∷ q) ≡ mid ++ d ∷ []
unfolding trim_end
trim_end-last [] d q h b = rw (trim_end-Blank q b, h, trim_end) refl
trim_end-last (x ∷ []) d q h b = rw (trim_end-last [] d q h b, trim_end) refl
trim_end-last (x ∷ y ∷ mid) d q h b = rw (trim_end-last (y ∷ mid) d q h b, trim_end) refl

skip_space-Blank : (p s : Bytes) → Blank p → skip_space (p ++ s) ≡ skip_space s
unfolding skip_space
skip_space-Blank [] s h = refl
skip_space-Blank (c ∷ p) s h = rw h.0 (skip_space-Blank p s h.1)

skip_space-solid : (c : ℕ) (s : Bytes) → is_space c ≡ false → skip_space (c ∷ s) ≡ c ∷ s
unfolding skip_space
skip_space-solid c s h = rw h refl

trim-IsTrimmed :
    {s : Bytes} (q : Bytes) → IsTrimmed s → Blank q → trim_end (skip_space (s ++ q)) ≡ s
trim-IsTrimmed q nothing b =
    ap (λ t. trim_end (skip_space t)) (sym (append-nil q))
    ∙ ap trim_end (skip_space-Blank q [] b)
    ∙ unfold skip_space trim_end in refl
trim-IsTrimmed q (one c h) b = rw (skip_space-solid c q h) (trim_end-last [] c q h b)
trim-IsTrimmed q (more {s = s} c d mid h k e) b =
    let f : s ++ q ≡ mid ++ d ∷ q = ap (λ x. x ++ q) e ∙ append_assoc mid (d ∷ []) q in
    ap trim_end (skip_space-solid c (s ++ q) h)
    ∙ (ap (λ x. trim_end (c ∷ x)) f ∙ (trim_end-last (c ∷ mid) d q k b ∙ ap (◌∷◌ c) (sym e)))

-- White space round a trimmed text is all that is taken off.
pub trim_lem : (p s q : Bytes) → Blank p → IsTrimmed s → Blank q → trim (p ++ (s ++ q)) ≡ s
unfolding trim
trim_lem p s q hp t hq = rw (skip_space-Blank p (s ++ q) hp) (trim-IsTrimmed q t hq)

-- A text without white space.
abbrev pub Solid : Bytes → Type 0
Solid = All (λ c. is_space c ≡ false)

snoc :
    (c : ℕ) (s : Bytes)
    → is_space c ≡ false
    → Solid s
    → (d : ℕ) × (mid : Bytes) × (c ∷ s ≡ mid ++ d ∷ []) × (is_space d ≡ false)
snoc c [] h t = (c, [], refl, h)
snoc c (x ∷ s) h t = let (d, mid, e, k) = snoc x s t.0 t.1 in (d, c ∷ mid, ap (◌∷◌ c) e, k)

pub Solid-IsTrimmed : (s : Bytes) → Solid s → IsTrimmed s
Solid-IsTrimmed [] h = IsTrimmed.nothing
Solid-IsTrimmed (c ∷ []) h = IsTrimmed.one c h.0
Solid-IsTrimmed (c ∷ x ∷ s) h =
    let (d, mid, e, k) = snoc x s h.1.0 h.1.1 in IsTrimmed.more c d mid h.0 k e
