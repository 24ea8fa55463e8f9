-- ===== src/Media/AnnexB.antt =====
-- include/rtspserver/media/AnnexBParser.hpp: NAL units in an Annex-B byte stream.
pub mod Stream
pub mod Views
use rtsp_server.Prelude.{
  ℕ, zero, suc, ◌+◌, ◌-◌, Bool, true, false, [], ◌∷◌, List, Option, none, some, length, take, drop,
  leb, ltb, if◌then◌else◌,
}
use rtsp_server.Prelude.Bits.{Bytes}
use rtsp_server.Prelude.Text.{starts_with}

-- The length of the start code at `offset`, or 0. Both tests compare only bytes inside the buffer.
unfoldable pub start_code_length : Bytes → ℕ → ℕ
unfolding starts_with
start_code_length buf offset =
    if starts_with (0 ∷ 0 ∷ 0 ∷ 1 ∷ []) (drop offset buf)
    then 4
    else if starts_with (0 ∷ 0 ∷ 1 ∷ []) (drop offset buf)
    then 3
    else 0

module _ {ℓ} {A : Type ℓ} where
  -- `if (nal_start < end) nals.emplace_back(...)`, in front of what later rounds append.
  abbrev pub emit : (ℕ → ℕ → A) → ℕ → ℕ → Option (List A) → Option (List A)
  emit view start end none = none
  emit view start end (some nals) =
      some (if ltb start end then view start (end - start) ∷ nals else nals)

  -- The `while` loop and what follows it; `view start len` is the element that is emplaced. A round
  -- takes one unit of fuel, and `none` means that the fuel ran out.
  unfoldable pub scan : (ℕ → ℕ → A) → ℕ → Bytes → ℕ → ℕ → Option (List A)
  scan view zero buf i start = none
  scan view (suc fuel) buf i start = elim (leb (length buf) i) [
    | true ↦ emit view start (length buf) (some [])
    | false ↦ elim (start_code_length buf i) [
      | zero ↦ scan view fuel buf (i + 1) start
      | suc k ↦ emit view start i (scan view fuel buf (i + suc k) (i + suc k))
    ]
  ]

  -- Without a start code at the front, `nal_start` is the sentinel `size`.
  unfoldable pub scan_all : (ℕ → ℕ → A) → Bytes → Option (List A)
  scan_all view buf = elim (start_code_length buf 0) [
    | zero ↦ scan view (length buf + 1) buf 0 (length buf)
    | suc k ↦ scan view (length buf + 1) buf (suc k) (suc k)
  ]

-- A view is an offset and a length into the buffer.
unfoldable pub split_view : Bytes → Option (List (ℕ × ℕ))
split_view buf = scan_all (λ start len. (start, len)) buf

-- A copy of the bytes.
abbrev pub slice : Bytes → ℕ → ℕ → Bytes
slice buf start len = take len (drop start buf)

unfoldable pub split : Bytes → Option (List Bytes)
split buf = scan_all (slice buf) buf
