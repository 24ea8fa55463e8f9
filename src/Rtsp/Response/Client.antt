-- ===== src/Rtsp/Response/Client.antt =====
-- A client that reads answers off the wire, and what it reads of any of them.
use rtsp_server.Prelude.{
  ℕ, ◌<◌, ◌≡◌, ◌≢◌, refl, sym, ap, ◌∙◌, true, false, [], ◌∷◌, ◌++◌, List, Option, none, some,
  length, take, drop, All, All-append, arith, length-append, append_assoc, append-nil,
}
use rtsp_server.Prelude.Bits.{Bytes}
use rtsp_server.Prelude.Text.{codes}
use rtsp_server.Prelude.Numbers.{to_string as decimal, stoul, is_space}
use rtsp_server.Utils.StringUtils.Split.{Lacks}
use rtsp_server.Utils.StringUtils.Trim.{IsTrimmed, Solid, Solid-IsTrimmed}
use rtsp_server.Rtsp.Request.{Headers, lookup, next_line, header_loop}
use rtsp_server.Rtsp.Request.Lines.{
  HeaderLine, field, IsLine, header_line, line_text, lines_text, store, next_line_lem,
  header_loop_lem, length-lines_text,
}
use rtsp_server.Rtsp.Response.{Response, header_lines, length_line, to_string}

-- What a client has read: the status line, the headers by their names in lower case, the body and
-- what follows.
pub record Reading : Type 0 where
  pub status_line : Bytes
  pub headers : Headers
  pub body : Bytes
  pub rest : Bytes

-- As many bytes as the headers say.
unfoldable pub body_length : Headers → Option ℕ
body_length hs = elim (lookup (codes "content-length") hs) [ none ↦ some 0 | some v ↦ stoul v ]

unfoldable pub with_body : Bytes → Headers → Bytes → Option ℕ → Option Reading
with_body line hs s none = none
with_body line hs s (some n) =
    some (record { status_line = line; headers = hs; body = take n s; rest = drop n s })

after_line : ℕ → Option (Bytes × Bytes) → Option Reading
after_line fuel none = none
after_line fuel (some (line, s)) =
    let r = header_loop fuel s [] in with_body line r.0 r.1 (body_length r.0)

-- A client: a line, headers up to a blank line, and the body by its length.
pub read_response : Bytes → Option Reading
read_response s = after_line (length s) (next_line s)

-- A header's value on the wire.
pub record IsValue (v : Bytes) : Type 0 where
  pub one_line : Lacks 13 v
  pub trimmed : IsTrimmed v

abbrev header_field : Bytes → Bytes → HeaderLine
header_field k v = field [] k [] (32 ∷ []) v []

-- A name without white space and colons.
abbrev pub IsName : Bytes → Type 0
IsName k = Solid k × Lacks b':' k

pub Solid-Lacks : (s : Bytes) → Solid s → Lacks 13 s
Solid-Lacks [] h = tt
Solid-Lacks (c ∷ s) h =
    ((λ e. let q : true ≡ false = sym (ap is_space e) ∙ h.0 in cc), Solid-Lacks s h.1)

pub header_field-IsLine : (k v : Bytes) → IsName k → IsValue v → IsLine (header_field k v)
header_field-IsLine k v n w =
    header_line [] k [] (32 ∷ []) v [] tt tt (refl, tt) tt (Solid-IsTrimmed k n.0) w.trimmed n.1
      (unfold line_text in
        All-append (λ x. x ≢ 13) (k ++ []) (b':' ∷ 32 ∷ (v ++ []))
          (All-append (λ x. x ≢ 13) k [] (Solid-Lacks k n.0) tt)
          ((λ e. ground arith), ((λ e. ground arith), All-append (λ x. x ≢ 13) v [] w.one_line tt)))

field_text :
    (k v x : Bytes)
    → line_text (header_field k v) ++ 13 ∷ 10 ∷ x ≡ k ++ (58 ∷ 32 ∷ (v ++ 13 ∷ 10 ∷ x))
unfolding line_text
field_text k v x = simp (append-nil, append_assoc)

unfoldable pub fields_of : Headers → List HeaderLine
fields_of [] = []
fields_of ((k, v) ∷ m) = header_field k v ∷ fields_of m

fields_text :
    (hs : Headers) (s : Bytes) → lines_text (fields_of hs) s ≡ header_lines hs ++ (13 ∷ 10 ∷ s)
unfolding fields_of lines_text header_lines
fields_text [] s = refl
fields_text ((k, v) ∷ m) s =
    field_text k v (lines_text (fields_of m) s)
    ∙ (ap (λ x. k ++ (58 ∷ 32 ∷ (v ++ 13 ∷ 10 ∷ x))) (fields_text m s) ∙ simp append_assoc)

abbrev pub status_line_of : Response → Bytes
status_line_of r = codes "RTSP/1.0 " ++ (decimal r.status ++ (b' ' ∷ r.reason))

abbrev pub server_field : HeaderLine
server_field = header_field (codes "Server") (codes "RTSP-Server/1.0")

-- A response with its length among its headers, or with no body, as lines.
pub to_string-lines :
    (r : Response) (rest : Bytes)
    → length_line r.body r.headers ≡ []
    → to_string r ++ rest
      ≡ status_line_of r
        ++ 13 ∷ 10 ∷ lines_text (server_field ∷ fields_of r.headers) (r.body ++ rest)
unfolding to_string lines_text line_text
to_string-lines r rest e = rw (e, fields_text r.headers (r.body ++ rest)) (simp append_assoc)

pub read_response_lem :
    (line s : Bytes) (ls : List HeaderLine)
    → Lacks 13 line
    → All IsLine ls
    → read_response (line ++ 13 ∷ 10 ∷ lines_text ls s)
      ≡ with_body line (store ls []) s (body_length (store ls []))
unfolding read_response
read_response_lem line s ls h a =
    let fuel = length (line ++ 13 ∷ 10 ∷ lines_text ls s) in
    let n : length ls < fuel =
      omega (arith, length-append line (13 ∷ 10 ∷ lines_text ls s), length-lines_text ls s) in
    ap (after_line fuel) (next_line_lem line (lines_text ls s) h)
    ∙ unfold after_line in
      ap (λ (r : Headers × Bytes). with_body line r.0 r.1 (body_length r.0))
        (header_loop_lem fuel ls s [] a n)
