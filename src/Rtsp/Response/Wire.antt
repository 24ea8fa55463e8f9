-- ===== src/Rtsp/Response/Wire.antt =====
-- What a client reads off the wire.
use rtsp_server.Prelude.{
  ℕ, suc, ◌<◌, ◌≡◌, refl, ap, ◌∙◌, Bool, true, false, not, ◌&&◌, [], ◌∷◌, ◌++◌, some, length, All,
  arith, take-append, drop-append,
}
use rtsp_server.Prelude.Bits.{Bytes, size_mod}
use rtsp_server.Prelude.Text.{codes, bytes_eq}
use rtsp_server.Prelude.Numbers.{
  ℤ, pos, negsuc, to_string as decimal, int_to_string, stoul-to_string, to_string-All, is_space,
}
use rtsp_server.Utils.StringUtils.{to_lower}
use rtsp_server.Utils.StringUtils.Trim.{Solid, Solid-IsTrimmed}
use rtsp_server.Rtsp.Request.{Headers, lookup, insert}
use rtsp_server.Rtsp.Request.Lines.{IsLine, lines_text, store}
use rtsp_server.Rtsp.Response.{put, length_line, to_string, describe}
use rtsp_server.Rtsp.Response.Client.{
  body_length, with_body, read_response, IsValue, IsName, Solid-Lacks, header_field-IsLine,
  fields_of, status_line_of, server_field, to_string-lines, read_response_lem,
}

digits-Solid : (n : ℕ) → Solid (decimal n)
digits-Solid n = to_string-All (λ c. is_space c ≡ false) (λ c lo hi. ground arith) n

int-Solid : (z : ℤ) → Solid (int_to_string z)
unfolding int_to_string
int-Solid (pos n) = digits-Solid n
int-Solid (negsuc n) = (refl, digits-Solid (suc n))

Solid-IsValue : (s : Bytes) → Solid s → IsValue s
Solid-IsValue s h = record { one_line = Solid-Lacks s h; trimmed = Solid-IsTrimmed s h }

-- The headers of the answer to DESCRIBE, as `std::map` orders them.
described : Bytes → ℤ → Bytes → Bytes → Headers
described date cseq sdp base =
    (codes "CSeq", int_to_string cseq)
    ∷ (codes "Content-Base", base)
    ∷ (codes "Content-Length", decimal (length sdp))
    ∷ (codes "Content-Type", codes "application/sdp")
    ∷ (codes "Date", date)
    ∷ []

describe-headers :
    (date : Bytes) (cseq : ℤ) (sdp base : Bytes)
    → (describe date cseq sdp base).headers ≡ described date cseq sdp base
unfolding describe described put
describe-headers date cseq sdp base = refl

-- The same as the client keeps them, behind the name of the server.
abbrev pub kept : Bytes → ℤ → Bytes → Bytes → Headers
kept date cseq sdp base =
    (codes "server", codes "RTSP-Server/1.0")
    ∷ (codes "cseq", int_to_string cseq)
    ∷ (codes "content-base", base)
    ∷ (codes "content-length", decimal (length sdp))
    ∷ (codes "content-type", codes "application/sdp")
    ∷ (codes "date", date)
    ∷ []

store-kept :
    (date : Bytes) (cseq : ℤ) (sdp base : Bytes)
    → store (server_field ∷ fields_of (described date cseq sdp base)) [] ≡ kept date cseq sdp base
unfolding store fields_of described insert to_lower bytes_eq
store-kept date cseq sdp base = refl

is_solid : Bytes → Bool
is_solid [] = true
is_solid (c ∷ s) = not (is_space c) && is_solid s

-- For a literal, by a test.
literal : (s : Bytes) → is_solid s ≡ true → Solid s
unfolding is_solid
literal [] h = tt
literal (c ∷ s) h = (ground arith, literal s (ground arith))

fields-IsLine :
    (date : Bytes) (cseq : ℤ) (sdp base : Bytes)
    → IsValue date
    → IsValue base
    → All IsLine (server_field ∷ fields_of (described date cseq sdp base))
unfolding fields_of described is_solid
fields-IsLine date cseq sdp base d b =
    let solid =
      λ (k v : Bytes) (n : IsName k) (w : Solid v). header_field-IsLine k v n (Solid-IsValue v w) in
    (
      solid (codes "Server") (codes "RTSP-Server/1.0") (literal (codes "Server") refl, omega arith)
          (literal (codes "RTSP-Server/1.0") refl),
      (
        solid (codes "CSeq") (int_to_string cseq) (literal (codes "CSeq") refl, omega arith)
            (int-Solid cseq),
        (
          header_field-IsLine (codes "Content-Base") base
              (literal (codes "Content-Base") refl, omega arith) b,
          (
            solid (codes "Content-Length") (decimal (length sdp))
                (literal (codes "Content-Length") refl, omega arith) (digits-Solid (length sdp)),
            (
              solid (codes "Content-Type") (codes "application/sdp")
                  (literal (codes "Content-Type") refl, omega arith)
                  (literal (codes "application/sdp") refl),
              (
                header_field-IsLine (codes "Date") date (literal (codes "Date") refl, omega arith)
                    d,
                tt,
              ),
            ),
          ),
        ),
      ),
    )

with_body_lem :
    (line : Bytes) (hs : Headers) (body rest : Bytes)
    → body_length hs ≡ some (length body)
    → with_body line hs (body ++ rest) (body_length hs)
      ≡ some (record { status_line = line; headers = hs; body = body; rest = rest })
unfolding with_body
with_body_lem line hs body rest e =
    ap (with_body line hs (body ++ rest)) e ∙ rw (take-append body rest, drop-append body rest) refl

kept-body_length :
    (date : Bytes) (cseq : ℤ) (sdp base : Bytes)
    → length sdp < size_mod
    → body_length (kept date cseq sdp base) ≡ some (length sdp)
unfolding body_length lookup bytes_eq
kept-body_length date cseq sdp base h = stoul-to_string (length sdp) h

describe-length_line :
    (date : Bytes) (cseq : ℤ) (sdp base body : Bytes)
    → length_line body (described date cseq sdp base) ≡ []
unfolding length_line described lookup bytes_eq
describe-length_line date cseq sdp base [] = refl
describe-length_line date cseq sdp base (c ∷ s) = refl

two_hundred : decimal 200 ≡ codes "200"
unfolding decimal
two_hundred = refl

describe-text :
    (date : Bytes) (cseq : ℤ) (sdp base rest : Bytes)
    → to_string (describe date cseq sdp base) ++ rest
      ≡ codes "RTSP/1.0 200 OK"
        ++ 13
          ∷ 10
          ∷ lines_text (server_field ∷ fields_of (described date cseq sdp base)) (sdp ++ rest)
describe-text date cseq sdp base rest =
    to_string-lines (describe date cseq sdp base) rest (
      ap (length_line (describe date cseq sdp base).body) (describe-headers date cseq sdp base)
      ∙ describe-length_line date cseq sdp base (describe date cseq sdp base).body)
    ∙ (ap
          (λ hs.
            status_line_of (describe date cseq sdp base)
            ++ 13
              ∷ 10
              ∷ lines_text (server_field ∷ fields_of hs)
                  ((describe date cseq sdp base).body ++ rest))
          (describe-headers date cseq sdp base)
        ∙ unfold describe in
          ap
            (λ n.
              (codes "RTSP/1.0 " ++ (n ++ (b' ' ∷ codes "OK")))
              ++ 13
                ∷ 10
                ∷ lines_text (server_field ∷ fields_of (described date cseq sdp base))
                    (sdp ++ rest))
            two_hundred)

-- A client reads off an answer to DESCRIBE its status, its headers and exactly the session
-- description, whatever follows, if the date and the base URL stand on one line and neither begins nor
-- ends in white space.
pub describe-wire :
    (date : Bytes) (cseq : ℤ) (sdp base rest : Bytes)
    → IsValue date
    → IsValue base
    → length sdp < size_mod
    → read_response (to_string (describe date cseq sdp base) ++ rest)
      ≡ some (record {
        status_line = codes "RTSP/1.0 200 OK";
        headers = kept date cseq sdp base;
        body = sdp;
        rest = rest;
      })
describe-wire date cseq sdp base rest d b h =
    let hs = kept date cseq sdp base in
    let ls = server_field ∷ fields_of (described date cseq sdp base) in
    ap read_response (describe-text date cseq sdp base rest)
    ∙ (read_response_lem (codes "RTSP/1.0 200 OK") (sdp ++ rest) ls (omega arith)
          (fields-IsLine date cseq sdp base d b)
        ∙ (ap (λ m. with_body (codes "RTSP/1.0 200 OK") m (sdp ++ rest) (body_length m))
              (store-kept date cseq sdp base)
            ∙ with_body_lem (codes "RTSP/1.0 200 OK") hs sdp rest
                (kept-body_length date cseq sdp base h)))
