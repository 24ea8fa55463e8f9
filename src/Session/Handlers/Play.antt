-- ===== src/Session/Handlers/Play.antt =====
-- `seekAndReset` and `handlePlay`.
use rtsp_server.Prelude.{
  ℕ, ◌+◌, ◌-◌, Bool, true, false, not, ◌||◌, ◌&&◌, [], ◌∷◌, ◌++◌, Option, none, some, if◌then◌else◌,
  ltb, ◌==◌, take, drop,
}
use rtsp_server.Prelude.Bits.{Bytes}
use rtsp_server.Prelude.Text.{codes, bytes_eq, find}
use rtsp_server.Prelude.Numbers.{ℤ, pos, negsuc, int_to_string, ◌+ℤ◌, ◌-ℤ◌}
use rtsp_server.Rtsp.Request.{Request, header, cseq}
use rtsp_server.Rtsp.Response.{play, error}
use rtsp_server.Session.State.{State, init, playing, paused, Session, Env}
use rtsp_server.Session.Outbox.{send_response}
use rtsp_server.Session.Handlers.Media.{npt_text}

-- Whether a time point is not the default one.
unfoldable pub is_set : ℤ → Bool
is_set (pos n) = not (n == 0)
is_set (negsuc n) = true

-- The two texts of `npt=start-end`.
unfoldable pub npt_parts : Bytes → Option (Bytes × Bytes)
npt_parts rh = elim (find (codes "npt=") rh) [
  | none ↦ none
  | some p ↦
      let val = drop (p + 4) rh in
      elim (find (codes "-") val) [
        | none ↦ none
        | some dash ↦ some (take dash val, drop (dash + 1) val)
      ]
]

-- Whether a text ends, and not in a slash.
unfoldable pub lacks_slash : Bytes → Bool
lacks_slash [] = false
lacks_slash (c ∷ []) = not (c == b'/')
lacks_slash (c ∷ d ∷ s) = lacks_slash (d ∷ s)

-- The URL of a track below the URL of a request.
unfoldable pub track_url : Bytes → Bytes → Bytes
track_url url track = (if lacks_slash url then url ++ (b'/' ∷ []) else url) ++ track

module _ {M D : Type 0} (env : Env M D) where
  abbrev pub or_else : D → Option D → D
  or_else d none = d
  or_else d (some x) = x

  abbrev pub known : Option D → Bool
  known none = false
  known (some x) = true

  -- `npt_start`, `npt_end_val` and `has_range`, before the Scale header is looked at.
  unfoldable pub npt_range : Bytes → D × D × Bool
  unfolding npt_parts
  npt_range rh =
      let d = env.doubles in
      elim (npt_parts rh) [
        | none ↦ (d.zero_d, d.minus_one, false)
        | some (start, end) ↦
            let no_start = bytes_eq start [] || bytes_eq start (codes "now") in
            let start_d = if no_start then none else d.stod start in
            let end_d = if bytes_eq end [] then none else d.stod end in
            (or_else d.zero_d start_d, or_else d.minus_one end_d, known start_d)
      ]

  unfoldable pub seek_and_reset : D → Bool → Session M D → Session M D
  seek_and_reset npt_secs adjust_offset s = elim s.media_source [
    | none ↦ s
    | some m ↦
        let m' = env.seek_to_seconds npt_secs m in
        let last = s.last_video_rtp in
        let idr_rtp = env.rtp_offset m' in
        let shifted : M =
          if adjust_offset && (not (last == 0) && ltb idr_rtp last)
          then env.adjust_rtp_offset (last - idr_rtp) m'
          else m' in
        record s {
          media_source = some shifted;
          first_frame = true;
          pending_vp = none;
          pending_ap = none;
        }
  ]

  -- Case A: the clock goes on from where it stopped.
  unfoldable pub resume : Session M D → Session M D
  resume s =
      let shifted = s.wall_start +ℤ (env.clock_now -ℤ s.pause_start) in
      if is_set s.pause_start
      then record s {
        wall_start = if s.first_frame then s.wall_start else shifted;
        pause_start = pos 0;
      }
      else s

  -- `peekNextVideoRTPTimestamp`, if there is a source.
  unfoldable pub peeked : Session M D → ℕ × Session M D
  peeked s = elim s.media_source [
    | none ↦ (0, s)
    | some m ↦ let r = env.peek_next m in (r.0, record s { media_source = some r.1 })
  ]

  -- The text for a track in the RTP-Info header.
  unfoldable pub info_text : Bytes → ℕ → ℕ → Bytes
  info_text url seq rtptime =
      codes "url="
      ++ (url
          ++ (codes ";seq="
              ++ (int_to_string (pos seq) ++ (codes ";rtptime=" ++ int_to_string (pos rtptime)))))

  unfoldable pub audio_info_text : Bytes → Session M D → Bytes
  audio_info_text url s = elim s.media_source [
    | none ↦ []
    | some m ↦
        if s.audio_transport_ready && (env.audio_info m).present
        then b','
          ∷ info_text (track_url url (codes "trackID=1")) s.audio_rtp_seq (env.audio_rtp_offset m)
        else []
  ]

  -- The pacing state of a play from the start or from a point that the client names.
  unfoldable pub restart : D → Session M D → Session M D
  restart npt_end_val s =
      let d = env.doubles in
      record s {
        loop_video_offset = 0;
        audio_loop_offset = 0;
        last_video_rtp = 0;
        last_frame_dur = none;
        resume_waiting_for_idr = true;
        last_keyframe_npt = d.zero_d;
        last_npt = d.zero_d;
        npt_end = npt_end_val;
        pause_start = pos 0;
      }

  abbrev pub Echo : Type 0
  Echo = Session M D × Bytes × Bytes

  -- Case C, with the Range and RTP-Info texts.
  unfoldable pub play_fresh : Bytes → D × D × Bool → Session M D → Echo
  unfolding info_text audio_info_text
  play_fresh url (npt_start, npt_end_val, has_range) s =
      let start = if has_range then npt_start else env.doubles.zero_d in
      let r = peeked (restart npt_end_val (seek_and_reset start false s)) in
      let rtp_info =
        info_text (track_url url (codes "trackID=0")) r.1.rtp_seq r.0 ++ audio_info_text url r.1 in
      (r.1, if has_range then npt_text env npt_start else codes "npt=0.000-", rtp_info)

  unfoldable pub play_scaled : Session M D → Echo
  play_scaled s =
      let s' = seek_and_reset s.last_keyframe_npt true s in
      (s', npt_text env (env.doubles.max_d env.doubles.zero_d s'.last_npt), [])

  unfoldable pub play_resumed : Session M D → Echo
  play_resumed s =
      let s' = resume s in (s', npt_text env (env.doubles.max_d env.doubles.zero_d s'.last_npt), [])

  -- The three cases, by the state. A Scale header makes the Range header no seek.
  unfoldable pub play_case : State → Request → Session M D → Echo
  play_case paused req s = play_resumed s
  play_case _ req s =
      if bytes_eq (header req (codes "scale")) []
      then play_fresh req.url (npt_range (header req (codes "range"))) s
      else play_scaled s

  -- The answer that ends a PLAY.
  unfoldable pub played : Request → Bytes → Echo → Session M D
  played req id e =
      send_response (play env.date (cseq req) id e.1 e.2) (record e.0 { state = playing })

  unfoldable pub play_in : State → Request → Session M D → Session M D
  play_in init req s =
      send_response (error env.date (cseq req) 455 (codes "Method Not Valid In This State")) s
  play_in a req s = played req s.session_id (play_case a req s)

  unfoldable pub handle_play : Request → Session M D → Session M D
  handle_play req s = play_in s.state req s
