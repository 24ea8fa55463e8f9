-- ===== src/Utils/StringUtils/Url.antt =====
-- What the helpers for addresses and paths find in a well-formed text.
use rtsp_server.Prelude.{
  ℕ, suc, ◌+◌, ◌≤◌, ◌<◌, ◌≡◌, ◌≢◌, refl, inl, inr, ◌⊎◌, true, [], ◌∷◌, ◌++◌, arith, Option, none,
  some, length, take, drop, Option-cases, take-append, drop-append, if◌then◌else◌,
}
use native.Mathlib.Nat.{add_comm}
use rtsp_server.Prelude.Bits.{Bytes}
use rtsp_server.Prelude.Text.{codes, find, find_from, rfind, starts_with}
use rtsp_server.Prelude.Numbers.{
  ℤ, pos, negsuc, to_string, int_to_string, stoi, stoi-int_to_string, to_string-All,
}
use rtsp_server.Utils.StringUtils.Split.{Lacks}
use rtsp_server.Utils.StringUtils.{
  checked_port, parse_host_port, url_path, is_track, strip_track_suffix,
}

-- The last `b` of a text is the one with no other behind it.
rfind_absent : (b : ℕ) (s : Bytes) → Lacks b s → rfind b s ≡ none
unfolding rfind
rfind_absent b [] h = refl
rfind_absent b (c ∷ s) h = rw (rfind_absent b s h.1) (ground arith)

pub rfind-append : (b : ℕ) (s t : Bytes) → Lacks b t → rfind b (s ++ b ∷ t) ≡ some (length s)
unfolding rfind
rfind-append b [] t h = rw (rfind_absent b t h) (ground arith)
rfind-append b (c ∷ s) t h = rw (rfind-append b s t h)

pub drop-suc-append : (s t : Bytes) (c : ℕ) → drop (length s + 1) (s ++ c ∷ t) ≡ t
drop-suc-append [] t c = refl
drop-suc-append (x ∷ s) t c =
    let e : suc (length s) + 1 ≡ suc (length s + 1) = omega arith in rw e (drop-suc-append s t c)

-- A decimal number holds digits only.
digits-Lacks : (b n : ℕ) → (b < 48) ⊎ (57 < b) → Lacks b (to_string n)
digits-Lacks b n h = to_string-All (λ c. c ≢ b) (λ c lo hi. ground arith) n

-- A nonempty host, a colon and a port from 1 to 65535 in decimal are read back.
pub parse_host_port_lem :
    (h : ℕ) (host : Bytes) (p : ℕ)
    → 1 ≤ p
    → p ≤ 65535
    → parse_host_port (h ∷ (host ++ b':' ∷ to_string p)) ≡ some (h ∷ host, p)
parse_host_port_lem h host p lo hi =
    let r : rfind b':' (h ∷ (host ++ b':' ∷ to_string p)) ≡ some (length (h ∷ host)) =
      rfind-append b':' (h ∷ host) (to_string p) (digits-Lacks b':' p (inr (omega arith))) in
    let n : stoi (to_string p) ≡ some (pos p) =
      unfold int_to_string in stoi-int_to_string (pos p) (omega arith) in
    let a : take (length (h ∷ host)) (h ∷ (host ++ b':' ∷ to_string p)) ≡ h ∷ host =
      take-append (h ∷ host) (b':' ∷ to_string p) in
    let b : drop (length (h ∷ host) + 1) (h ∷ (host ++ b':' ∷ to_string p)) ≡ to_string p =
      drop-suc-append (h ∷ host) (to_string p) b':' in
    unfold parse_host_port in ground (arith, r, a, b, n)

-- A port that is returned lies between 1 and 65535, and the host is not empty.
checked_port_range :
    (host : Bytes) (v : Option ℤ) {h : Bytes} {p : ℕ}
    → checked_port host v ≡ some (h, p)
    → (1 ≤ p) × (p ≤ 65535) × (h ≢ []) × (h ≡ host)
unfolding checked_port
checked_port_range [] v e = cc
checked_port_range (c ∷ host) none e = cc
checked_port_range (c ∷ host) (some (negsuc n)) e = cc
checked_port_range (c ∷ host) (some (pos n)) e = ground arith

-- A port that is accepted is from 1 to 65535, and the host before it is not empty.
pub parse_host_port_range :
    (s : Bytes) (h : Bytes) (p : ℕ)
    → parse_host_port s ≡ some (h, p)
    → (1 ≤ p) × (p ≤ 65535) × (h ≢ [])
parse_host_port_range s h p e = elim (Option-cases (rfind b':' s)) [
  | inl n ↦ unfold parse_host_port in ground (arith, n)
  | inr (colon, q) ↦
      let (lo, hi, ne, _) =
        checked_port_range (take colon s) (stoi (drop (colon + 1) s)) {h = h} {p = p}
          (unfold parse_host_port in ground (arith, q)) in
      (lo, hi, ne)
]

-- A text that lacks the pattern's first byte is passed over.
pub find-append :
    (b : ℕ) (p s t : Bytes)
    → Lacks b s
    → starts_with (b ∷ p) t ≡ true
    → find (b ∷ p) (s ++ t) ≡ some (length s)
unfolding find starts_with
find-append b p [] [] h e = cc
find-append b p [] (c ∷ t) h e = rw e
find-append b p (c ∷ s) t h e = ground (arith, find-append b p s t h.1 e)

drop-length-add : (n : ℕ) (s t : Bytes) → drop (n + length s) (s ++ t) ≡ drop n t
drop-length-add n [] t = let e : n + 0 ≡ n = omega arith in rw e
drop-length-add n (c ∷ s) t =
    let e : n + suc (length s) ≡ suc (n + length s) = omega arith in rw e (drop-length-add n s t)

-- Of an absolute URL the path is what follows the authority, its slash included.
pub url_path_lem :
    (scheme authority path : Bytes)
    → Lacks b'/' scheme
    → Lacks b'/' authority
    → url_path (scheme ++ b'/' ∷ b'/' ∷ (authority ++ b'/' ∷ path)) ≡ b'/' ∷ path
url_path_lem scheme authority path hs ha =
    let tail = authority ++ b'/' ∷ path in
    let url = scheme ++ b'/' ∷ b'/' ∷ tail in
    let p : find (codes "//") url ≡ some (length scheme) =
      find-append b'/' (b'/' ∷ []) scheme (b'/' ∷ b'/' ∷ tail) hs (unfold starts_with in refl) in
    let q : drop (length scheme + 2) url ≡ tail =
      rw (add_comm (length scheme) 2) (drop-length-add 2 scheme (b'/' ∷ b'/' ∷ tail)) in
    let r : find (codes "/") tail ≡ some (length authority) =
      find-append b'/' [] authority (b'/' ∷ path) ha (unfold starts_with in refl) in
    let u : find_from (codes "/") url (length scheme + 2)
        ≡ some (length authority + (length scheme + 2)) =
      unfold find_from in rw (q, r) in
    let v : drop (length authority + (length scheme + 2)) url ≡ b'/' ∷ path =
      let e : length authority + (length scheme + 2) ≡ (2 + length authority) + length scheme =
        omega arith in
      rw (e, drop-length-add (2 + length authority) scheme (b'/' ∷ b'/' ∷ tail))
        (let f : 2 + length authority ≡ suc (suc (length authority)) = omega arith in
          rw f (drop-append authority (b'/' ∷ path))) in
    unfold url_path in ground (arith, p, u, v)

-- Only a last segment that names a track is cut off, with its slash.
pub strip_track_suffix_lem :
    (c : ℕ) (base segment : Bytes)
    → Lacks b'/' segment
    → strip_track_suffix (c ∷ (base ++ b'/' ∷ segment))
      ≡ (if is_track segment then c ∷ base else c ∷ (base ++ b'/' ∷ segment))
strip_track_suffix_lem c base segment h =
    let path = c ∷ (base ++ b'/' ∷ segment) in
    let r : rfind b'/' path ≡ some (suc (length base)) = rfind-append b'/' (c ∷ base) segment h in
    let d : drop (length base + 2) path ≡ segment =
      let e : length base + 2 ≡ suc (length base) + 1 = omega arith in
      rw e (drop-suc-append (c ∷ base) segment b'/') in
    let t : take (suc (length base)) path ≡ c ∷ base = take-append (c ∷ base) (b'/' ∷ segment) in
    unfold strip_track_suffix in ground (arith, r, d, t)
