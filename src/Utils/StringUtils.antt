-- ===== src/Utils/StringUtils.antt =====
-- src/utils/StringUtils.cpp, over strings of bytes in the C locale.
pub mod Split
pub mod Trim
pub mod Base64
pub mod UrlDecode
pub mod Url
use rtsp_server.Prelude.{
  ℕ, zero, suc, ◌+◌, ◌-◌, ◌*◌, ◌/◌, ◌%◌, ◌<◌, Bool, true, false, ◌&&◌, ◌||◌, [], ◌∷◌, ◌++◌, List,
  map, ◌==◌, leb, ltb, Option, none, some, take, drop, get_elem?, if◌then◌else◌,
}
use rtsp_server.Prelude.Bits.{Bytes}
use rtsp_server.Prelude.Text.{codes, find, find_from, rfind, contains}
use rtsp_server.Prelude.Numbers.{ℤ, pos, negsuc, is_space, skip_space, stoi}

-- The loop over `last`: drops the white space at the end.
trim_end : Bytes → Bytes
trim_end [] = []
trim_end (c ∷ s) = elim (trim_end s) [ [] ↦ if is_space c then [] else c ∷ [] | d ∷ t ↦ c ∷ d ∷ t ]

unfoldable pub trim : Bytes → Bytes
unfolding trim_end skip_space
trim s = trim_end (skip_space s)

abbrev pub lower : ℕ → ℕ
lower c = if leb b'A' c && leb c b'Z' then c + 32 else c

unfoldable pub to_lower : Bytes → Bytes
to_lower s = map lower s

-- `token` is what has been read since `start`.
split_loop : ℕ → Bytes → Bytes → List Bytes
split_loop d token [] = token ∷ []
split_loop d token (c ∷ s) =
    if c == d then token ∷ split_loop d [] s else split_loop d (token ++ c ∷ []) s

unfoldable pub split : Bytes → ℕ → List Bytes
unfolding split_loop
split s d = split_loop d [] s

abbrev b64_table : Bytes
b64_table = codes "ABCDEFGHIJKLMNOPQRSTUVWXYZabcdefghijklmnopqrstuvwxyz0123456789+/"

-- `kB64Table[i]`, for an index below 64.
b64_char : ℕ → ℕ
b64_char i = elim (get_elem? b64_table i) [ some c ↦ c | none ↦ 0 ]

-- The loop over three bytes at a time; `b` is the 24-bit group, its parts disjoint.
unfoldable pub base64_encode : Bytes → Bytes
unfolding b64_char
base64_encode [] = []
base64_encode (x ∷ []) =
    let b = x * 65536 in b64_char (b / 262144 % 64) ∷ b64_char (b / 4096 % 64) ∷ b'=' ∷ b'=' ∷ []
base64_encode (x ∷ y ∷ []) =
    let b = x * 65536 + y * 256 in
    b64_char (b / 262144 % 64) ∷ b64_char (b / 4096 % 64) ∷ b64_char (b / 64 % 64) ∷ b'=' ∷ []
base64_encode (x ∷ y ∷ z ∷ rest) =
    let b = x * 65536 + y * 256 + z in
    b64_char (b / 262144 % 64)
    ∷ b64_char (b / 4096 % 64)
    ∷ b64_char (b / 64 % 64)
    ∷ b64_char (b % 64)
    ∷ base64_encode rest

-- `host` and `port`, or `none` where the function returns false.
checked_port : Bytes → Option ℤ → Option (Bytes × ℕ)
checked_port [] _ = none
checked_port (c ∷ host) none = none
checked_port (c ∷ host) (some (negsuc p)) = none
checked_port (c ∷ host) (some (pos p)) = if ltb p 1 || ltb 65535 p then none else some (c ∷ host, p)

unfoldable pub parse_host_port : Bytes → Option (Bytes × ℕ)
unfolding checked_port
parse_host_port s = elim (rfind b':' s) [
  | none ↦ none
  | some colon ↦ checked_port (take colon s) (stoi (drop (colon + 1) s))
]

unfoldable pub url_path : Bytes → Bytes
url_path url = elim (find (codes "//") url) [
  | none ↦ url
  | some dslash ↦ elim (find_from (codes "/") url (dslash + 2)) [
    | none ↦ codes "/"
    | some slash ↦ drop slash url
  ]
]

unfoldable pub is_track : Bytes → Bool
unfolding contains to_lower
is_track segment =
    contains (codes "trackid") (to_lower segment) || contains (codes "track") (to_lower segment)

unfoldable pub strip_track_suffix : Bytes → Bytes
strip_track_suffix path = elim (rfind b'/' path) [
  | none ↦ path
  | some zero ↦ path
  | some (suc i) ↦ if is_track (drop (i + 2) path) then take (suc i) path else path
]

-- `hexVal`, `none` for -1.
unfoldable pub hex_val : ℕ → Option ℕ
hex_val c =
    if leb b'0' c && leb c b'9'
    then some (c - b'0')
    else if leb b'A' c && leb c b'F'
    then some (c - b'A' + 10)
    else if leb b'a' c && leb c b'f'
    then some (c - b'a' + 10)
    else none

-- The byte that `%hl` stands for.
unfoldable pub escaped_byte : ℕ → ℕ → ℕ → Option ℕ
unfolding hex_val
escaped_byte c h l = elim (hex_val h) [
  | none ↦ none
  | some hi ↦ elim (hex_val l) [
    | none ↦ none
    | some lo ↦ if c == b'%' then some (hi * 16 + lo) else none
  ]
]

unfoldable pub url_decode : Bytes → Bytes
url_decode [] = []
url_decode (c ∷ []) = c ∷ []
url_decode (c ∷ h ∷ []) = c ∷ h ∷ []
url_decode (c ∷ h ∷ l ∷ s) = elim (escaped_byte c h l) [
  | some b ↦ b ∷ url_decode s
  | none ↦ c ∷ url_decode (h ∷ l ∷ s)
]
