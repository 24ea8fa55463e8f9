-- ===== src/Rtsp/Response.antt =====
-- src/rtsp/RTSPResponse.cpp: responses. The text of the current time is an argument, `date`.
pub mod Client
pub mod Wire
use rtsp_server.Prelude.{
  ℕ, Bool, true, false, [], ◌∷◌, ◌++◌, none, some, length, ◌==◌, ltb, if◌then◌else◌,
}
use rtsp_server.Prelude.Bits.{Bytes}
use rtsp_server.Prelude.Text.{codes, bytes_eq}
use rtsp_server.Prelude.Numbers.{ℤ, to_string as decimal, int_to_string}
use rtsp_server.Rtsp.Request.{Headers, lookup}

-- `headers` is a `std::map`: its entries stand in the order of their keys.
pub record Response : Type 0 where
  pub status : ℕ
  pub reason : Bytes
  pub headers : Headers
  pub body : Bytes

-- The order of `std::string`.
unfoldable pub bytes_lt : Bytes → Bytes → Bool
bytes_lt s [] = false
bytes_lt [] (y ∷ t) = true
bytes_lt (x ∷ s) (y ∷ t) = if x == y then bytes_lt s t else ltb x y

-- `headers[k] = v`.
unfoldable pub put : Bytes → Bytes → Headers → Headers
unfolding bytes_lt bytes_eq
put k v [] = (k, v) ∷ []
put k v ((j, w) ∷ m) =
    if bytes_eq j k
    then (j, v) ∷ m
    else if bytes_lt k j
    then (k, v) ∷ (j, w) ∷ m
    else (j, w) ∷ put k v m

abbrev pub crlf : Bytes
crlf = 13 ∷ 10 ∷ []

header_lines : Headers → Bytes
header_lines [] = []
header_lines ((k, v) ∷ m) = k ++ (codes ": " ++ (v ++ (crlf ++ header_lines m)))

-- The fallback line for a body without `Content-Length`.
pub length_line : Bytes → Headers → Bytes
length_line [] hs = []
length_line (c ∷ s) hs = elim (lookup (codes "Content-Length") hs) [
  | some _ ↦ []
  | none ↦ codes "Content-Length: " ++ (decimal (length (c ∷ s)) ++ crlf)
]

unfoldable pub to_string : Response → Bytes
unfolding header_lines length_line
to_string r =
    codes "RTSP/1.0 "
    ++ (decimal r.status
        ++ (b' '
            ∷ (r.reason
                ++ (crlf
                    ++ (codes "Server: RTSP-Server/1.0"
                        ++ (crlf
                            ++ (header_lines r.headers
                                ++ (length_line r.body r.headers ++ (crlf ++ r.body)))))))))

abbrev pub ok_base : Response
ok_base = record { status = 200; reason = codes "OK"; headers = []; body = [] }

abbrev pub set_header : Bytes → Bytes → Response → Response
set_header k v r = record r { headers = put k v r.headers }

abbrev pub set_unless_empty : Bytes → Bytes → Response → Response
set_unless_empty k [] r = r
set_unless_empty k (c ∷ v) r = set_header k (c ∷ v) r

module _ (date : Bytes) where
  unfoldable pub options : ℤ → Bytes → Response
  unfolding int_to_string
  options cseq public_methods = set_header (codes "Date") date (
      set_header (codes "Public") public_methods
        (set_header (codes "CSeq") (int_to_string cseq) ok_base))

  unfoldable pub describe : ℤ → Bytes → Bytes → Response
  describe cseq sdp base_url =
      record (set_header (codes "Content-Length") (decimal (length sdp)) (
        set_header (codes "Content-Base") base_url (
          set_header (codes "Content-Type") (codes "application/sdp") (
            set_header (codes "Date") date
              (set_header (codes "CSeq") (int_to_string cseq) ok_base))))) { body = sdp }

  unfoldable pub setup : ℤ → Bytes → Bytes → Response
  setup cseq session_id transport = set_header (codes "Date") date (
      set_header (codes "Session") (session_id ++ codes ";timeout=60") (
        set_header (codes "Transport") transport
          (set_header (codes "CSeq") (int_to_string cseq) ok_base)))

  unfoldable pub play : ℤ → Bytes → Bytes → Bytes → Response
  play cseq session_id range rtp_info = set_unless_empty (codes "RTP-Info") rtp_info (
      set_unless_empty (codes "Range") range (
        set_header (codes "Date") date (
          set_header (codes "Session") session_id
            (set_header (codes "CSeq") (int_to_string cseq) ok_base))))

  unfoldable pub ok : ℤ → Bytes → Response
  ok cseq session_id =
      set_unless_empty (codes "Session") session_id
        (set_header (codes "Date") date (set_header (codes "CSeq") (int_to_string cseq) ok_base))

  unfoldable pub error : ℤ → ℕ → Bytes → Response
  error cseq status_code reason_phrase = set_header (codes "Date") date (
      set_header (codes "CSeq") (int_to_string cseq)
        (record ok_base { status = status_code; reason = reason_phrase }))
