-- ===== src/Rtsp/Request/Lines.antt =====
-- The lines of the headers, and the loop that reads them.
use rtsp_server.Prelude.{
  ℕ, zero, suc, ◌+◌, ◌<◌, ◌≡◌, ◌≢◌, refl, sym, ap, ◌∙◌, true, false, [], ◌∷◌, ◌++◌, List, none,
  some, length, drop, All, All-append, arith, length-append, take-append, drop-append, drop-drop,
}
use rtsp_server.Prelude.Bits.{Bytes}
use rtsp_server.Prelude.Text.{codes, find, starts_with}
use rtsp_server.Prelude.Numbers.{is_space}
use rtsp_server.Utils.StringUtils.{to_lower}
use rtsp_server.Utils.StringUtils.Split.{Lacks}
use rtsp_server.Utils.StringUtils.Trim.{Blank, IsTrimmed, trim_lem}
use rtsp_server.Utils.StringUtils.Url.{find-append, drop-suc-append}
use rtsp_server.Rtsp.Request.{Headers, insert, crlf, next_line, add_header, header_loop}

-- A line between the request line and the blank one: a header with white space where it may stand, or
-- a line without a colon.
pub data HeaderLine : Type 0 where
  field : (before name after before_value value after_value : Bytes) → HeaderLine
  other : ℕ → Bytes → HeaderLine

unfoldable pub line_text : HeaderLine → Bytes
line_text (field a name b c value d) = (a ++ (name ++ b)) ++ b':' ∷ (c ++ (value ++ d))
line_text (other c s) = c ∷ s

-- No line holds a carriage return, and no name a colon.
pub data IsLine : HeaderLine → Type 0 where
  header_line :
      (a name b c value d : Bytes)
      → Blank a
      → Blank b
      → Blank c
      → Blank d
      → IsTrimmed name
      → IsTrimmed value
      → Lacks b':' name
      → Lacks 13 (line_text (field a name b c value d))
      → IsLine (field a name b c value d)
  other_line : (c : ℕ) (s : Bytes) → Lacks b':' (c ∷ s) → Lacks 13 (c ∷ s) → IsLine (other c s)

-- The headers of some lines; a later value replaces an earlier one.
unfoldable pub store : List HeaderLine → Headers → Headers
store [] hs = hs
store (field a name b c value d ∷ ls) hs = store ls (insert (to_lower name) value hs)
store (other c s ∷ ls) hs = store ls hs

unfoldable pub lines_text : List HeaderLine → Bytes → Bytes
lines_text [] rest = 13 ∷ 10 ∷ rest
lines_text (l ∷ ls) rest = line_text l ++ 13 ∷ 10 ∷ lines_text ls rest

pub next_line_lem :
    (line rest : Bytes) → Lacks 13 line → next_line (line ++ 13 ∷ 10 ∷ rest) ≡ some (line, rest)
unfolding next_line
next_line_lem line rest h =
    let e : find crlf (line ++ 13 ∷ 10 ∷ rest) ≡ some (length line) =
      find-append 13 (10 ∷ []) line (13 ∷ 10 ∷ rest) h (unfold starts_with in refl) in
    let after : drop (length line + 2) (line ++ 13 ∷ 10 ∷ rest) ≡ rest =
      sym (drop-drop (length line) 2 (line ++ 13 ∷ 10 ∷ rest))
      ∙ ap (drop 2) (drop-append line (13 ∷ 10 ∷ rest)) in
    rw (e, next_line) (rw (take-append line (13 ∷ 10 ∷ rest), after) refl)

Blank-Lacks : (b : ℕ) (p : Bytes) → is_space b ≡ false → Blank p → Lacks b p
Blank-Lacks b [] s h = tt
Blank-Lacks b (c ∷ p) s h =
    ((λ e. let q : true ≡ false = sym h.0 ∙ (ap is_space e ∙ s) in cc), Blank-Lacks b p s h.1)

find_absent : (b : ℕ) (s : Bytes) → Lacks b s → find (b ∷ []) s ≡ none
unfolding find starts_with
find_absent b [] h = refl
find_absent b (c ∷ s) h = ground (arith, find_absent b s h.1)

-- A header line adds its header.
add_header-field :
    (a name b c value d : Bytes) (hs : Headers)
    → IsLine (field a name b c value d)
    → add_header (line_text (field a name b c value d)) hs ≡ insert (to_lower name) value hs
unfolding add_header line_text
add_header-field a name b c value d hs
      (header_line a' name' b' c' value' d' ha hb hc hd tn tv colon cr) =
    let front = a ++ (name ++ b) in
    let back = c ++ (value ++ d) in
    let lacks : Lacks b':' front =
      All-append (λ x. x ≢ b':') a (name ++ b) (Blank-Lacks b':' a refl ha)
        (All-append (λ x. x ≢ b':') name b colon (Blank-Lacks b':' b refl hb)) in
    let e : find (codes ":") (front ++ b':' ∷ back) ≡ some (length front) =
      find-append b':' [] front (b':' ∷ back) lacks (unfold starts_with in refl) in
    rw (e, add_header)
      (rw
        (
          take-append front (b':' ∷ back),
          drop-suc-append front back b':',
          trim_lem a name b ha tn hb,
          trim_lem c value d hc tv hd,
        )
        refl)

uncons : (x : Bytes) (c : ℕ) (t : Bytes) → (d : ℕ) × (ts : Bytes) × (x ++ c ∷ t ≡ d ∷ ts)
uncons [] c t = (c, t, refl)
uncons (d ∷ x) c t = (d, x ++ c ∷ t, refl)

loop_line :
    (fuel : ℕ) (line rest : Bytes) (hs : Headers)
    → (c : ℕ) (cs : Bytes) → line ≡ c ∷ cs
    → Lacks 13 line
    → header_loop (suc fuel) (line ++ 13 ∷ 10 ∷ rest) hs
      ≡ header_loop fuel rest (add_header line hs)
unfolding header_loop
loop_line fuel line rest hs c cs e h = rw (next_line_lem line rest h, header_loop) (rw e refl)

-- One line of the loop.
header_loop-line :
    (fuel : ℕ) (l : HeaderLine) (rest : Bytes) (hs : Headers)
    → IsLine l
    → header_loop (suc fuel) (line_text l ++ 13 ∷ 10 ∷ rest) hs
      ≡ header_loop fuel rest (store (l ∷ []) hs)
unfolding store
header_loop-line fuel (field a name b c value d) rest hs
      (header_line a' n' b' c' v' d' ha hb hc hd tn tv colon cr) =
    let (x, xs, e) = uncons (a ++ (name ++ b)) b':' (c ++ (value ++ d)) in
    loop_line fuel (line_text (field a name b c value d)) rest hs x xs (unfold line_text in e) cr
    ∙ ap (header_loop fuel rest) (
        add_header-field a name b c value d hs
          (header_line a name b c value d ha hb hc hd tn tv colon cr))
header_loop-line fuel (other c s) rest hs (other_line c' s' colon cr) =
    unfold line_text add_header in
    loop_line fuel (c ∷ s) rest hs c s refl cr
    ∙ ap (header_loop fuel rest) (rw (find_absent b':' (c ∷ s) colon, add_header) refl)

store-cons :
    (l : HeaderLine) (ls : List HeaderLine) (hs : Headers)
    → store (l ∷ ls) hs ≡ store ls (store (l ∷ []) hs)
unfolding store
store-cons (field a name b c value d) ls hs = refl
store-cons (other c s) ls hs = refl

-- With more fuel than lines the loop stores the headers and stops behind the blank line.
pub header_loop_lem :
    (fuel : ℕ) (ls : List HeaderLine) (rest : Bytes) (hs : Headers)
    → All IsLine ls
    → length ls < fuel
    → header_loop fuel (lines_text ls rest) hs ≡ (store ls hs, rest)
unfolding lines_text
header_loop_lem zero ls rest hs h lt = absurd (omega arith)
header_loop_lem (suc fuel) [] rest hs h lt =
    unfold header_loop store in rw (next_line_lem [] rest tt, header_loop) refl
header_loop_lem (suc fuel) (l ∷ ls) rest hs h lt =
    header_loop-line fuel l (lines_text ls rest) hs h.0
    ∙ (header_loop_lem fuel ls rest (store (l ∷ []) hs) h.1 (omega arith)
        ∙ ap (λ (m : Headers). (m, rest)) (sym (store-cons l ls hs)))

pub length-lines_text :
    (ls : List HeaderLine) (rest : Bytes) → length ls + length rest < length (lines_text ls rest)
unfolding lines_text
length-lines_text [] rest = omega arith
length-lines_text (l ∷ ls) rest =
    omega
      (arith, length-append (line_text l) (13 ∷ 10 ∷ lines_text ls rest), length-lines_text ls rest)
