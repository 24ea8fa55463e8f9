-- ===== src/Media/AnnexB/Views.antt =====
-- The scan always ends, its views lie inside the buffer, and the copies are those of the views.
use rtsp_server.Prelude.{
  ℕ, zero, suc, ◌+◌, ◌≤◌, ◌<◌, ◌≡◌, refl, [], List, map, Option, none, some, ◌⊎◌, inl, inr, arith,
  length, leb, Bool-cases, All, ap, ◌∙◌,
}
use mathlib.Core.Option
use rtsp_server.Prelude.Bits.{Bytes}
use rtsp_server.Media.AnnexB.{start_code_length, emit, scan, scan_all, split_view, slice, split}

ℕ-cases : (n : ℕ) → (n ≡ 0) ⊎ ((k : ℕ) × (n ≡ suc k))
ℕ-cases zero = inl refl
ℕ-cases (suc k) = inr (k, refl)

start_code_length-le : (buf : Bytes) (i : ℕ) → start_code_length buf i ≤ 4
unfolding start_code_length
start_code_length-le buf i = ground arith

-- A view inside a buffer of the given size, with at least one byte.
abbrev pub InBuffer : ℕ → ℕ × ℕ → Type 0
InBuffer size v = (v.0 + v.1 ≤ size) × (1 ≤ v.1)

abbrev view : ℕ → ℕ → ℕ × ℕ
view start len = (start, len)

-- `scan` ends within `size - i` rounds, and its views lie in the buffer.
abbrev Good : Bytes → Option (List (ℕ × ℕ)) → Type 0
Good buf none = ⊥
Good buf (some vs) = All (InBuffer (length buf)) vs

emit-Good :
    (buf : Bytes) (start end : ℕ) (r : Option (List (ℕ × ℕ)))
    → end ≤ length buf
    → Good buf r
    → Good buf (emit view start end r)
emit-Good buf start end none h g = g
emit-Good buf start end (some vs) h g = ground arith

scan-Good :
    (fuel : ℕ) (buf : Bytes) (i start : ℕ)
    → length buf < fuel + i
    → 0 < fuel
    → Good buf (scan view fuel buf i start)
unfolding scan
scan-Good zero buf i start h pos = absurd (omega arith)
scan-Good (suc fuel) buf i start h pos = elim (Bool-cases (leb (length buf) i)) [
  | inl done ↦ rw (done, scan) (emit-Good buf start (length buf) (some []) (omega arith) tt)
  | inr more ↦ elim (ℕ-cases (start_code_length buf i)) [
    | inl z ↦ rw (more, z, scan) (scan-Good fuel buf (i + 1) start (omega arith) (ground arith))
    | inr (k, s) ↦
        rw (more, s, scan)
          (emit-Good buf start i _ (ground arith)
            (scan-Good fuel buf (i + suc k) (i + suc k) (omega arith) (ground arith)))
  ]
]

Good-some :
    (buf : Bytes) (r : Option (List (ℕ × ℕ)))
    → Good buf r
    → (vs : List (ℕ × ℕ)) × (r ≡ some vs) × All (InBuffer (length buf)) vs
Good-some buf none g = absurd g
Good-some buf (some vs) g = (vs, refl, g)

split_view-Good : (buf : Bytes) → Good buf (split_view buf)
split_view-Good buf = elim (ℕ-cases (start_code_length buf 0)) [
  | inl z ↦
      unfold split_view scan_all in
      rw (z, scan_all) (scan-Good (length buf + 1) buf 0 (length buf) (omega arith) (omega arith))
  | inr (k, s) ↦
      unfold split_view scan_all in
      rw (s, scan_all) (scan-Good (length buf + 1) buf (suc k) (suc k) (omega arith) (omega arith))
]

-- `splitView` always returns, and each view is a nonempty part of the buffer.
pub split_view_total :
    (buf : Bytes)
    → (vs : List (ℕ × ℕ)) × (split_view buf ≡ some vs) × All (InBuffer (length buf)) vs
split_view_total buf = Good-some buf (split_view buf) (split_view-Good buf)

map-emit {ℓ} :
    {A : Type ℓ} (f : ℕ → ℕ → A) (start end : ℕ) (r : Option (List (ℕ × ℕ)))
    → emit f start end (Option.map (map (λ v. f v.0 v.1)) r)
      ≡ Option.map (map (λ v. f v.0 v.1)) (emit view start end r)
map-emit f start end none = refl
map-emit f start end (some vs) = ground arith

map-scan {ℓ} :
    {A : Type ℓ} (f : ℕ → ℕ → A) (fuel : ℕ) (buf : Bytes) (i start : ℕ)
    → scan f fuel buf i start ≡ Option.map (map (λ v. f v.0 v.1)) (scan view fuel buf i start)
unfolding scan
map-scan f zero buf i start = refl
map-scan f (suc fuel) buf i start = elim (Bool-cases (leb (length buf) i)) [
  | inl done ↦ rw (done, scan) (map-emit f start (length buf) (some []))
  | inr more ↦ elim (ℕ-cases (start_code_length buf i)) [
    | inl z ↦ rw (more, z, scan) (map-scan f fuel buf (i + 1) start)
    | inr (k, s) ↦
        rw (more, s, scan)
          (ap (emit f start i) (map-scan f fuel buf (i + suc k) (i + suc k))
            ∙ map-emit f start i (scan view fuel buf (i + suc k) (i + suc k)))
  ]
]

-- `split` returns copies of exactly the bytes that `splitView` points at.
pub split-split_view :
    (buf : Bytes) → split buf ≡ Option.map (map (λ v. slice buf v.0 v.1)) (split_view buf)
split-split_view buf = elim (ℕ-cases (start_code_length buf 0)) [
  | inl z ↦
      unfold split split_view scan_all in
      rw (z, scan_all) (map-scan (slice buf) _ buf 0 (length buf))
  | inr (k, s) ↦
      unfold split split_view scan_all in
      rw (s, scan_all) (map-scan (slice buf) _ buf (suc k) (suc k))
]
