-- ===== src/Rtsp/Request/RoundTrip.antt =====
-- A request is read back as it was written.
use rtsp_server.Prelude.{
  ℕ, ◌+◌, ◌-◌, ◌≤◌, ◌<◌, ◌≡◌, ◌≢◌, refl, sym, ap, ◌∙◌, true, [], ◌∷◌, ◌++◌, List, Option, none,
  some, length, All, All-append, arith, leb, length-append, append-nil, take_all,
}
use rtsp_server.Prelude.Bits.{Bytes, size_mod, size_add}
use rtsp_server.Prelude.Text.{codes, find, starts_with}
use rtsp_server.Prelude.Numbers.{to_string, stoul-to_string}
use rtsp_server.Utils.StringUtils.{trim, split}
use rtsp_server.Utils.StringUtils.Split.{Lacks, split-append, split-Lacks}
use rtsp_server.Utils.StringUtils.Trim.{IsTrimmed, trim_lem}
use rtsp_server.Rtsp.Request.{
  Headers, lookup, next_line, header_loop, body_of, is_rtsp, with_headers, parse_parts, parse,
}
use rtsp_server.Rtsp.Request.Lines.{
  HeaderLine, IsLine, store, lines_text, next_line_lem, header_loop_lem, length-lines_text,
}

-- What the headers say of the body.
pub data Announces (hs : Headers) : Bytes → Type 0 where
  no_body : lookup (codes "content-length") hs ≡ none → Announces hs []
  its_length :
      {body : Bytes}
      → lookup (codes "content-length") hs ≡ some (to_string (length body))
      → Announces hs body

body_of_lem :
    (size : ℕ) (hs : Headers) (body : Bytes)
    → Announces hs body
    → length body ≤ size
    → size < size_mod
    → body_of size body hs ≡ body
unfolding body_of
body_of_lem size hs body (no_body e) h k = rw (e, body_of) refl
body_of_lem size hs body (its_length e) h k =
    let fits : leb (size_add (size - length body) (length body)) size ≡ true = ground arith in
    rw (e, body_of)
      (rw
        (
          stoul-to_string (length body) (omega arith),
          fits,
          take_all (length body) body (omega arith),
        )
        refl)

-- The text of a request.
unfoldable pub print : Bytes → Bytes → Bytes → List HeaderLine → Bytes → Bytes
print method url version ls body =
    (method ++ b' ' ∷ (url ++ b' ' ∷ version)) ++ 13 ∷ 10 ∷ lines_text ls body

-- A part of the request line.
pub record IsPart (s : Bytes) : Type 0 where
  pub no_blank : Lacks b' ' s
  pub no_return : Lacks 13 s
  pub trimmed : IsTrimmed s

trim-part : (s : Bytes) → IsPart s → trim s ≡ s
trim-part s p = ap trim (sym (append-nil s)) ∙ trim_lem [] s [] tt p.trimmed tt

parse-line :
    (raw first rest : Bytes)
    → next_line raw ≡ some (first, rest)
    → parse raw ≡ parse_parts raw rest (split first b' ')
unfolding parse
parse-line raw first rest e =
    ap
      (λ (o : Option (Bytes × Bytes)). elim o [
        | none ↦ none
        | some x ↦ parse_parts raw x.1 (split x.0 b' ')
      ])
      e

split-first :
    (method url version : Bytes)
    → IsPart method
    → IsPart url
    → IsPart version
    → split (method ++ b' ' ∷ (url ++ b' ' ∷ version)) b' ' ≡ method ∷ url ∷ version ∷ []
split-first method url version m u v =
    split-append b' ' method (url ++ b' ' ∷ version) m.no_blank
    ∙ ap (◌∷◌ method) (
        split-append b' ' url version u.no_blank
        ∙ ap (◌∷◌ url) (split-Lacks b' ' version v.no_blank))

first-Lacks :
    (method url version : Bytes)
    → IsPart method
    → IsPart url
    → IsPart version
    → Lacks 13 (method ++ b' ' ∷ (url ++ b' ' ∷ version))
first-Lacks method url version m u v =
    All-append (λ x. x ≢ 13) method (b' ' ∷ (url ++ b' ' ∷ version)) m.no_return
      (
        (λ e. ground arith),
        All-append (λ x. x ≢ 13) url (b' ' ∷ version) u.no_return
            ((λ e. ground arith), v.no_return),
      )

is_rtsp_lem : (rest : Bytes) → is_rtsp (codes "RTSP/" ++ rest) ≡ true
unfolding is_rtsp find starts_with
is_rtsp_lem rest = refl

parse_parts_lem :
    (raw lines method url rest : Bytes)
    → IsPart method
    → IsPart url
    → IsPart (codes "RTSP/" ++ rest)
    → parse_parts raw lines (method ∷ url ∷ (codes "RTSP/" ++ rest) ∷ [])
      ≡ some (
          with_headers
            (length raw)
            method
            url
            (codes "RTSP/" ++ rest)
            (header_loop (length raw) lines []))
unfolding parse_parts
parse_parts_lem raw lines method url rest m u v =
    rw (trim-part (codes "RTSP/" ++ rest) v, is_rtsp_lem rest, trim-part method m, trim-part url u)
      refl

-- A request comes back as it was printed: the three parts of its first line, its headers, the later of
-- two with one name, in any case and with any white space round them, and its body, if there is one
-- with its length in the headers.
pub parse-print :
    (method url rest : Bytes) (ls : List HeaderLine) (body : Bytes)
    → IsPart method
    → IsPart url
    → IsPart (codes "RTSP/" ++ rest)
    → All IsLine ls
    → Announces (store ls []) body
    → length (print method url (codes "RTSP/" ++ rest) ls body) < size_mod
    → parse (print method url (codes "RTSP/" ++ rest) ls body)
      ≡ some (record {
        method = method;
        url = url;
        version = codes "RTSP/" ++ rest;
        headers = store ls [];
        body = body;
      })
unfolding print
parse-print method url rest ls body m u v h a k =
    let version = codes "RTSP/" ++ rest in
    let first = method ++ b' ' ∷ (url ++ b' ' ∷ version) in
    let raw = first ++ 13 ∷ 10 ∷ lines_text ls body in
    let n : length ls + length body < length raw =
      omega
        (arith, length-append first (13 ∷ 10 ∷ lines_text ls body), length-lines_text ls body) in
    parse-line raw first (lines_text ls body)
      (next_line_lem first (lines_text ls body) (first-Lacks method url version m u v))
    ∙ (ap (parse_parts raw (lines_text ls body)) (split-first method url version m u v)
        ∙ (parse_parts_lem raw (lines_text ls body) method url rest m u v
            ∙ (ap (λ (r : Headers × Bytes). some (with_headers (length raw) method url version r))
                  (header_loop_lem (length raw) ls body [] h (omega arith))
                ∙ unfold with_headers in
                  ap
                    (λ (b : Bytes). some (record {
                      method = method;
                      url = url;
                      version = version;
                      headers = store ls [];
                      body = b;
                    }))
                    (body_of_lem (length raw) (store ls []) body a (omega arith) k))))
