-- ===== src/Session/Handlers/Media.antt =====
-- `openMedia` and `handleDescribe`.
use rtsp_server.Prelude.{
  ℕ, Bool, true, false, ◌||◌, [], ◌∷◌, ◌++◌, Option, none, some, if◌then◌else◌, ◌==◌,
}
use rtsp_server.Prelude.Bits.{Bytes}
use rtsp_server.Prelude.Text.{codes, bytes_eq}
use rtsp_server.Prelude.Numbers.{ℤ}
use rtsp_server.Utils.StringUtils.{url_path, url_decode, strip_track_suffix}
use rtsp_server.Rtsp.Request.{Request, cseq}
use rtsp_server.Rtsp.Response.{describe, error}
use rtsp_server.Sdp.{build}
use rtsp_server.Session.State.{
  Outcome, returned, threw, Session, Env, payload_type, audio_payload_type,
}
use rtsp_server.Session.Outbox.{send_response}

-- Drops a slash at the front.
abbrev pub drop_slash : Bytes → Bytes
drop_slash [] = []
drop_slash (c ∷ s) = if c == b'/' then s else c ∷ s

-- The first component of a relative path, `*p.begin()`.
unfoldable pub first_component : Bytes → Bytes
first_component [] = []
first_component (c ∷ s) = if c == b'/' then [] else c ∷ first_component s

-- `escaped`: no relative path from the root, or one that leaves it.
unfoldable pub escapes : Option Bytes → Bool
unfolding first_component bytes_eq
escapes none = true
escapes (some []) = false
escapes (some (c ∷ s)) = bytes_eq (first_component (c ∷ s)) (codes "..")

-- The path below the media root that a URL's path names.
unfoldable pub relative_path : Bytes → Bytes
relative_path path = drop_slash (strip_track_suffix (drop_slash (url_decode path)))

module _ {M D : Type 0} (env : Env M D) where
  -- `nptRange`.
  unfoldable pub npt_text : D → Bytes
  npt_text secs = codes "npt=" ++ (env.doubles.fixed3 secs ++ codes "-")

  abbrev pub Opened : Type 0
  Opened = Outcome (Session M D × Option M)

  unfoldable pub refuse : Session M D → ℤ → ℕ → Bytes → Opened
  refuse s cs status reason = returned (send_response (error env.date cs status reason) s, none)

  -- The check for a path outside the root; `none` for an exception.
  unfoldable pub escape_check : Bytes → Bytes → Option Bool
  escape_check root full = elim (env.weakly_canonical root) [
    | none ↦ none
    | some canonical_root ↦ elim (env.weakly_canonical full) [
      | none ↦ none
      | some canonical_full ↦ some (escapes (env.relative canonical_full canonical_root))
    ]
  ]

  unfoldable pub open_file : Bytes → ℤ → Session M D → Opened
  unfolding refuse
  open_file full cs s = elim (env.open_source full) [
    | none ↦ refuse (record s { media_source = none }) cs 415 (codes "Unsupported Media Type")
    | some m ↦ returned (record s { media_source = some m }, some m)
  ]

  unfoldable pub open_existing : Bytes → ℤ → Session M D → Opened
  unfolding open_file
  open_existing full cs s = elim (env.exists full) [
    | none ↦ threw (s, none)
    | some false ↦ refuse s cs 404 (codes "Not Found")
    | some true ↦ open_file full cs s
  ]

  unfoldable pub open_checked : Bytes → ℤ → Session M D → Opened
  unfolding open_existing
  open_checked full cs s = elim (escape_check s.media_root full) [
    | none ↦ threw (s, none)
    | some true ↦ refuse s cs 403 (codes "Forbidden")
    | some false ↦ open_existing full cs s
  ]

  -- The source that was opened, if any.
  unfoldable pub open_media : Bytes → ℤ → Session M D → Opened
  unfolding open_checked
  open_media url cs s =
      let path = url_path url in
      if bytes_eq path [] || bytes_eq path (codes "/")
      then refuse s cs 404 (codes "Not Found")
      else open_checked (env.path_append s.media_root (relative_path path)) cs s

  -- After a successful `openMedia`.
  unfoldable pub described : Request → M → Session M D → Session M D
  described req m s =
      let rel = strip_track_suffix (drop_slash (url_path req.url)) in
      let sdp =
        build env.doubles (env.stream_info m) (codes "0.0.0.0") rel req.url payload_type
          (env.audio_info m) audio_payload_type in
      send_response (describe env.date (cseq req) sdp (req.url ++ codes "/"))
        (record s { describe_done = true })

  unfoldable pub after_open : Request → Opened → Outcome (Session M D)
  unfolding described
  after_open req (threw (s, m)) = threw s
  after_open req (returned (s, none)) = returned s
  after_open req (returned (s, some m)) = returned (described req m s)

  unfoldable pub handle_describe : Request → Session M D → Outcome (Session M D)
  unfolding after_open
  handle_describe req s =
      after_open req (open_media req.url (cseq req) (record s { media_source = none }))
