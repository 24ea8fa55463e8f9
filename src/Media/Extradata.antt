-- ===== src/Media/Extradata.antt =====
-- `MediaSource::parseExtradata` of src/media/MediaSource.cpp: the SPS and the PPS of a stream, from
-- an AVC decoder configuration record or from an Annex-B stream. A position in the record is what
-- is left from there.
use rtsp_server.Prelude.{
  ℕ, zero, suc, ◌+◌, ◌*◌, Bool, true, false, not, ◌&&◌, [], ◌∷◌, List, Option, none, some, length,
  take, drop, ltb, ◌==◌, bit_and, if◌then◌else◌,
}
use rtsp_server.Prelude.Bits.{Bytes}
use rtsp_server.Media.AnnexB.{split}

abbrev pub is_nil : Bytes → Bool
is_nil [] = true
is_nil (c ∷ s) = false

-- The fields of `stream_info_` that are set, and the result.
abbrev pub Parsed : Type 0
Parsed = (Bytes × Bytes) × Bool

-- One of the two loops over parameter sets: the sets up to the first that does not fit, and what is
-- left where the loop ends.
unfoldable pub sets : ℕ → Bytes → List Bytes × Bytes
sets zero rest = ([], rest)
sets (suc n) (hi ∷ lo ∷ rest) =
    let len = hi * 256 + lo in
    let r = sets n (drop len rest) in
    if ltb (length rest) len then ([], rest) else (take len rest ∷ r.0, r.1)
sets (suc n) rest = ([], rest)

-- The first set, or what there was.
abbrev pub first_or : Bytes → List Bytes → Bytes
first_or old [] = old
first_or old (s ∷ ss) = s

abbrev pub complete : Bytes × Bytes → Parsed
complete info = (info, not (is_nil info.0) && not (is_nil info.1))

-- After the SPS.
unfoldable pub parse_pps : Bytes → Bytes → Bytes → Parsed
parse_pps sps pps [] = ((sps, pps), false)
parse_pps sps pps (num_pps ∷ rest) = complete (sps, first_or pps (sets num_pps rest).0)

unfoldable pub parse_avcc : Bytes × Bytes → Bytes → Parsed
parse_avcc info (v ∷ profile ∷ constraints ∷ level ∷ size ∷ num ∷ x ∷ rest) =
    let r = sets (bit_and num 0x1F) (x ∷ rest) in parse_pps (first_or info.0 r.0) info.1 r.1
parse_avcc info _ = (info, false)

-- A NAL unit of an Annex-B stream; only the first SPS and the first PPS are kept.
unfoldable pub keep_nal : Bytes → Bytes × Bytes → Bytes × Bytes
keep_nal [] info = info
keep_nal (h ∷ t) info =
    let type = bit_and h 0x1F in
    if type == 7 && is_nil info.0
    then (h ∷ t, info.1)
    else if type == 8 && is_nil info.1
    then (info.0, h ∷ t)
    else info

unfoldable pub keep_nals : List Bytes → Bytes × Bytes → Bytes × Bytes
keep_nals [] info = info
keep_nals (nal ∷ nals) info = keep_nals nals (keep_nal nal info)

abbrev pub units : Option (List Bytes) → List Bytes
units none = []
units (some nals) = nals

unfoldable pub parse_extradata : Bytes × Bytes → Bytes → Parsed
parse_extradata info (v ∷ b ∷ c ∷ d ∷ extra) =
    if v == 1
    then parse_avcc info (v ∷ b ∷ c ∷ d ∷ extra)
    else complete (keep_nals (units (split (v ∷ b ∷ c ∷ d ∷ extra))) info)
parse_extradata info _ = (info, false)
