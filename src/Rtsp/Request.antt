-- ===== src/Rtsp/Request.antt =====
-- src/rtsp/RTSPRequest.cpp: a request and its parser.
pub mod Lines
pub mod RoundTrip
use rtsp_server.Prelude.{
  ℕ, zero, suc, ◌+◌, ◌-◌, Bool, true, false, [], ◌∷◌, List, Option, none, some, length, take, drop,
  leb, if◌then◌else◌,
}
use rtsp_server.Prelude.Bits.{Bytes, size_add}
use rtsp_server.Prelude.Text.{codes, bytes_eq, find}
use rtsp_server.Prelude.Numbers.{ℤ, negsuc, stoi, stoul}
use rtsp_server.Utils.StringUtils.{trim, to_lower, split}

-- `std::unordered_map` of strings: one entry for each key.
abbrev pub Headers : Type 0
Headers = List (Bytes × Bytes)

pub record Request : Type 0 where
  pub method : Bytes
  pub url : Bytes
  pub version : Bytes
  pub headers : Headers
  pub body : Bytes

unfoldable pub lookup : Bytes → Headers → Option Bytes
lookup k [] = none
lookup k ((j, v) ∷ m) = if bytes_eq j k then some v else lookup k m

-- `headers[k] = v`.
unfoldable pub insert : Bytes → Bytes → Headers → Headers
insert k v [] = (k, v) ∷ []
insert k v ((j, w) ∷ m) = if bytes_eq j k then (j, v) ∷ m else (j, w) ∷ insert k v m

abbrev crlf : Bytes
crlf = 13 ∷ 10 ∷ []

-- `nextLine` on what is left of the text: the line and the text after it.
pub next_line : Bytes → Option (Bytes × Bytes)
next_line s = elim (find crlf s) [ none ↦ none | some i ↦ some (take i s, drop (i + 2) s) ]

-- One header line; a line without a colon is passed over.
add_header : Bytes → Headers → Headers
unfolding insert
add_header line hs = elim (find (codes ":") line) [
  | none ↦ hs
  | some colon ↦ insert (to_lower (trim (take colon line))) (trim (drop (colon + 1) line)) hs
]

-- The header loop: the headers and the text after the blank line. The fuel bounds the lines.
pub header_loop : ℕ → Bytes → Headers → Headers × Bytes
header_loop zero s hs = (hs, s)
header_loop (suc fuel) s hs = elim (next_line s) [
  | none ↦ (hs, s)
  | some (line, rest) ↦ elim line [
    | [] ↦ (hs, rest)
    | c ∷ cs ↦ header_loop fuel rest (add_header (c ∷ cs) hs)
  ]
]

-- The body, by `Content-Length`; `pos` is where it begins in a text of `size` bytes.
body_of : ℕ → Bytes → Headers → Bytes
body_of size rest hs = elim (lookup (codes "content-length") hs) [
  | none ↦ []
  | some v ↦ elim (stoul v) [
    | none ↦ []
    | some body_len ↦
        if leb (size_add (size - length rest) body_len) size then take body_len rest else []
  ]
]

-- `version.find("RTSP/") != 0`.
is_rtsp : Bytes → Bool
is_rtsp version = elim (find (codes "RTSP/") version) [ some zero ↦ true | _ ↦ false ]

-- After a request line of these three parts.
with_headers : ℕ → Bytes → Bytes → Bytes → Headers × Bytes → Request
with_headers size method url version (hs, rest) = record {
  method = method;
  url = url;
  version = version;
  headers = hs;
  body = body_of size rest hs;
}

parse_parts : Bytes → Bytes → List Bytes → Option Request
parse_parts raw rest (m ∷ u ∷ v ∷ more) =
    if is_rtsp (trim v)
    then some
        (with_headers (length raw) (trim m) (trim u) (trim v) (header_loop (length raw) rest []))
    else none
parse_parts raw rest _ = none

unfoldable pub parse : Bytes → Option Request
unfolding parse_parts with_headers is_rtsp body_of header_loop add_header next_line
parse raw = elim (next_line raw) [
  | none ↦ none
  | some (first, rest) ↦ parse_parts raw rest (split first b' ')
]

-- The header's value, or the empty text.
unfoldable pub header : Request → Bytes → Bytes
header req name = elim (lookup (to_lower name) req.headers) [ none ↦ [] | some v ↦ v ]

cseq_value : Bytes → ℤ
cseq_value [] = negsuc 0
cseq_value (c ∷ s) = elim (stoi (c ∷ s)) [ none ↦ negsuc 0 | some n ↦ n ]

unfoldable pub cseq : Request → ℤ
unfolding cseq_value
cseq req = cseq_value (header req (codes "cseq"))
