-- ===== src/Media/AnnexB/Stream.antt =====
-- A well-formed byte stream is split into the NAL units that were put into it.
use rtsp_server.Prelude.{
  ℕ, zero, suc, ◌+◌, ◌-◌, ◌≤◌, ◌<◌, ◌≡◌, ◌≢◌, refl, ap, ◌∙◌, Bool, true, false, [], ◌∷◌, ◌++◌, List,
  some, arith, length, drop, leb, if◌then◌else◌, take-append,
}
use rtsp_server.Prelude.Bits.{Bytes}
use rtsp_server.Prelude.Text.{starts_with}
use rtsp_server.Media.AnnexB.{start_code_length, scan, scan_all, slice, split}

-- Two zero bytes and then a zero or a one.
abbrev pub Prefix : Bytes → Type 0
Prefix [] = ⊥
Prefix (x ∷ []) = ⊥
Prefix (x ∷ y ∷ []) = ⊥
Prefix (x ∷ y ∷ z ∷ s) = (x ≡ 0) × (y ≡ 0) × (z ≤ 1)

-- The bytes of a NAL unit: not empty, with no such prefix inside (the encoder puts in emulation
-- prevention bytes), and with a last byte that is not zero (it holds the stop bit).
abbrev pub IsNal : Bytes → Type 0
IsNal [] = ⊥
IsNal (c ∷ []) = c ≢ 0
IsNal (c ∷ d ∷ s) = (¬ Prefix (c ∷ d ∷ s)) × IsNal (d ∷ s)

abbrev pub start_code : Bool → Bytes
start_code true = 0 ∷ 0 ∷ 0 ∷ 1 ∷ []
start_code false = 0 ∷ 0 ∷ 1 ∷ []

-- `Stream b ns`: the bytes `b` are the NAL units `ns`, each behind a start code of three or four
-- bytes.
pub data Stream : Bytes → List Bytes → Type 0 where
  stop : Stream [] []
  unit :
      {b : Bytes} {ns : List Bytes} (four : Bool) (nal rest : Bytes)
      → IsNal nal
      → b ≡ start_code four ++ (nal ++ rest)
      → Stream rest ns
      → Stream b (nal ∷ ns)

-- No start code begins inside a NAL unit, whatever follows.
no_code :
    (c : ℕ) (nal rest : Bytes)
    → IsNal (c ∷ nal)
    → (starts_with (start_code true) (c ∷ (nal ++ rest)) ≡ false)
      × (starts_with (start_code false) (c ∷ (nal ++ rest)) ≡ false)
unfolding starts_with
no_code c [] rest h = ground arith
no_code c (d ∷ []) rest h = ground arith
no_code c (d ∷ e ∷ nal) rest h = ground (arith)

drop-add : (i : ℕ) (buf : Bytes) (c : ℕ) (s : Bytes) → drop i buf ≡ c ∷ s → drop (i + 1) buf ≡ s
drop-add zero [] c s e = cc
drop-add zero (x ∷ buf) c s e = ground arith
drop-add (suc i) [] c s e = cc
drop-add (suc i) (x ∷ buf) c s e =
    let n : suc i + 1 ≡ suc (i + 1) = omega arith in rw n (drop-add i buf c s e)

drop-ne-nil-lt : (i : ℕ) (buf : Bytes) (c : ℕ) (s : Bytes) → drop i buf ≡ c ∷ s → i < length buf
drop-ne-nil-lt zero [] c s e = cc
drop-ne-nil-lt zero (x ∷ buf) c s e = omega arith
drop-ne-nil-lt (suc i) [] c s e = cc
drop-ne-nil-lt (suc i) (x ∷ buf) c s e = omega (arith, drop-ne-nil-lt i buf c s e)

drop-nil-le : (i : ℕ) (buf : Bytes) → drop i buf ≡ [] → length buf ≤ i
drop-nil-le zero [] e = omega arith
drop-nil-le zero (x ∷ buf) e = cc
drop-nil-le (suc i) [] e = omega arith
drop-nil-le (suc i) (x ∷ buf) e = omega (arith, drop-nil-le i buf e)

drop-append-add : (i : ℕ) (buf s t : Bytes) → drop i buf ≡ s ++ t → drop (i + length s) buf ≡ t
drop-append-add i buf [] t e = let n : i + 0 ≡ i = omega arith in rw n e
drop-append-add i buf (c ∷ s) t e =
    let n : i + suc (length s) ≡ (i + 1) + length s = omega arith in
    rw n (drop-append-add (i + 1) buf s t (drop-add i buf c (s ++ t) e))

code_inside :
    (buf : Bytes) (i c : ℕ) (nal rest : Bytes)
    → drop i buf ≡ c ∷ (nal ++ rest)
    → IsNal (c ∷ nal)
    → start_code_length buf i ≡ 0
unfolding start_code_length
code_inside buf i c nal rest e h = rw e (ground (arith, no_code c nal rest h))

code_here :
    (buf : Bytes) (i : ℕ) (four : Bool) (s : Bytes)
    → drop i buf ≡ start_code four ++ s
    → start_code_length buf i ≡ suc (if four then 3 else 2)
unfolding start_code_length starts_with
code_here buf i true s e = rw e
code_here buf i false s e = rw e

code_after :
    (buf : Bytes) (i : ℕ) (four : Bool) (s : Bytes)
    → drop i buf ≡ start_code four ++ s
    → drop (i + suc (if four then 3 else 2)) buf ≡ s
code_after buf i true s e = drop-append-add i buf (0 ∷ 0 ∷ 0 ∷ 1 ∷ []) s e
code_after buf i false s e = drop-append-add i buf (0 ∷ 0 ∷ 1 ∷ []) s e

code_fuel :
    (size fuel i : ℕ) (four : Bool)
    → size < suc fuel + i
    → size < fuel + (i + suc (if four then 3 else 2))
code_fuel size fuel i true h = omega arith
code_fuel size fuel i false h = omega arith

split_first :
    (b : Bytes) (four : Bool) (s : Bytes)
    → b ≡ start_code four ++ s
    → let j = suc (if four then 3 else 2) in split b ≡ scan (slice b) (length b + 1) b j j
unfolding split scan_all
split_first b four s e = rw (code_here b 0 four s e, scan_all)

module _ (buf : Bytes) where
  scan_skip :
      (fuel i start c : ℕ) (nal rest : Bytes)
      → drop i buf ≡ c ∷ (nal ++ rest)
      → IsNal (c ∷ nal)
      → scan (slice buf) (suc fuel) buf i start ≡ scan (slice buf) fuel buf (i + 1) start
  unfolding scan
  scan_skip fuel i start c nal rest e h =
      let more : leb (length buf) i ≡ false =
        let l = drop-ne-nil-lt i buf c (nal ++ rest) e in ground arith in
      rw (more, code_inside buf i c nal rest e h, scan)

  scan_end :
      (fuel i start : ℕ)
      → i ≡ length buf
      → start < i
      → scan (slice buf) (suc fuel) buf i start ≡ some (slice buf start (i - start) ∷ [])
  unfolding scan
  scan_end fuel i start e h =
      let done : leb (length buf) i ≡ true = ground arith in rw (done, scan) (ground arith)

  scan_code :
      (fuel i start : ℕ) (four : Bool) (s : Bytes) (nals : List Bytes)
      → drop i buf ≡ start_code four ++ s
      → start < i
      → let j = i + suc (if four then 3 else 2) in
        scan (slice buf) fuel buf j j ≡ some nals
        → scan (slice buf) (suc fuel) buf i start ≡ some (slice buf start (i - start) ∷ nals)
  unfolding scan
  scan_code fuel i start four s nals e h r =
      let l : i < length buf = code_room i four s e in
      let more : leb (length buf) i ≡ false = ground arith in
      rw (more, code_here buf i four s e, scan) (rw r (ground arith))
    where
      code_room :
          (i : ℕ) (four : Bool) (s : Bytes) → drop i buf ≡ start_code four ++ s → i < length buf
      code_room i true s e = drop-ne-nil-lt i buf 0 _ e
      code_room i false s e = drop-ne-nil-lt i buf 0 _ e

  slice_nal :
      (j : ℕ) (nal rest : Bytes) → drop j buf ≡ nal ++ rest → slice buf j (j + length nal - j) ≡ nal
  slice_nal j nal rest e =
      let n : j + length nal - j ≡ length nal = omega arith in rw (n, e) (take-append nal rest)

  Scans : ℕ → ℕ → ℕ → ℕ → List Bytes → Type 0
  Scans fuel i start end ns =
      scan (slice buf) fuel buf i start ≡ some (slice buf start (end - start) ∷ ns)

  mutual
    unfolding Scans

    -- From inside a NAL unit to its end.
    walk :
        (fuel i start c : ℕ) (nal rest : Bytes) (ns : List Bytes)
        → drop i buf ≡ c ∷ (nal ++ rest)
        → IsNal (c ∷ nal)
        → Stream rest ns
        → length buf < fuel + i
        → start ≤ i
        → Scans fuel i start (i + suc (length nal)) ns
    walk zero i start c nal rest ns e h r f l =
        absurd (omega (arith, drop-ne-nil-lt i buf c (nal ++ rest) e))
    walk (suc fuel) i start c [] rest ns e h r f l =
        scan_skip fuel i start c [] rest e h
        ∙ boundary fuel (i + 1) start rest ns (drop-add i buf c rest e) r (omega arith)
            (omega (arith, drop-ne-nil-lt i buf c rest e)) (omega arith)
    walk (suc fuel) i start c (d ∷ nal) rest ns e h r f l =
        let n : i + suc (suc (length nal)) ≡ (i + 1) + suc (length nal) = omega arith in
        scan_skip fuel i start c (d ∷ nal) rest e h
        ∙ rw n (
            walk fuel (i + 1) start d nal rest ns (drop-add i buf c (d ∷ (nal ++ rest)) e) h.1 r
              (omega arith) (omega arith))

    -- At the end of a NAL unit.
    boundary :
        (fuel i start : ℕ) (rest : Bytes) (ns : List Bytes)
        → drop i buf ≡ rest
        → Stream rest ns
        → start < i
        → i ≤ length buf
        → length buf < fuel + i
        → Scans fuel i start i ns
    boundary zero i start rest ns e r h l f = absurd (omega arith)
    boundary (suc fuel) i start rest ns e stop h l f =
        scan_end fuel i start (omega (arith, drop-nil-le i buf e)) h
    boundary (suc fuel) i start rest _ e (unit {ns = ns} four [] rest' nal_ok b r) h l f =
        absurd nal_ok
    boundary (suc fuel) i start rest _ e (unit {ns = ns} four (c ∷ nal) rest' nal_ok b r) h l f =
        let j = i + suc (if four then 3 else 2) in
        let code : drop i buf ≡ start_code four ++ (c ∷ (nal ++ rest')) = e ∙ b in
        let at : drop j buf ≡ c ∷ (nal ++ rest') =
          code_after buf i four (c ∷ (nal ++ rest')) code in
        scan_code fuel i start four _ _ code h (
          walk fuel j j c nal rest' ns at nal_ok r (code_fuel (length buf) fuel i four f)
            (omega arith))
        ∙ ap (λ x. some (slice buf start (i - start) ∷ x ∷ ns)) (slice_nal j (c ∷ nal) rest' at)

-- The NAL units of every well-formed stream come back, in order, with nothing added.
pub split-Stream : {b : Bytes} {ns : List Bytes} → Stream b ns → split b ≡ some ns
unfolding Scans
split-Stream stop = unfold split scan_all scan start_code_length starts_with in refl
split-Stream (unit four [] rest nal_ok e r) = absurd nal_ok
split-Stream {b} (unit {ns = ns} four (c ∷ nal) rest nal_ok e r) =
    let j = suc (if four then 3 else 2) in
    let z : 0 + j ≡ j = omega arith in
    let at : drop j b ≡ c ∷ (nal ++ rest) = rw z at (code_after b 0 four (c ∷ (nal ++ rest)) e) in
    let w = walk b (length b + 1) j j c nal rest ns at nal_ok r (omega arith) (omega arith) in
    split_first b four (c ∷ (nal ++ rest)) e
    ∙ w
    ∙ ap (λ x. some (x ∷ ns)) (slice_nal b j (c ∷ nal) rest at)
