-- ===== src/Session/Handlers.antt =====
-- The RTSP methods: `handleRequest` and the handlers that it calls.
pub mod Media
pub mod Setup
pub mod Play
pub mod Transitions
pub mod Clock
use rtsp_server.Prelude.{ℕ, Bool, true, false, [], ◌∷◌, ◌++◌, Option, none, some, if◌then◌else◌}
use rtsp_server.Prelude.Bits.{Bytes}
use rtsp_server.Prelude.Text.{codes, bytes_eq}
use rtsp_server.Rtsp.Request.{Request, cseq}
use rtsp_server.Rtsp.Response.{Response, options, ok, error, set_header}
use rtsp_server.Session.State.{
  State, init, ready, playing, paused, Outcome, returned, threw, Session, Env,
}
use rtsp_server.Session.Outbox.{send_response}
use Media.{handle_describe, npt_text}
use Setup.{handle_setup}
use Play.{handle_play}

module _ {M D : Type 0} (env : Env M D) where
  unfoldable pub handle_options : Request → Session M D → Session M D
  handle_options req s =
      send_response
        (options env.date (cseq req) (codes "OPTIONS, DESCRIBE, SETUP, PLAY, PAUSE, TEARDOWN")) s

  unfoldable pub pause_response : Request → Session M D → Response
  unfolding npt_text
  pause_response req s =
      let resp = ok env.date (cseq req) s.session_id in
      let d = env.doubles in
      let cur_secs = if d.lt s.last_npt d.zero_d then d.zero_d else s.last_npt in
      elim s.media_source [
        | none ↦ resp
        | some _ ↦ set_header (codes "Range") (npt_text env cur_secs) resp
      ]

  -- By the state of the session.
  unfoldable pub pause_in : State → Request → Session M D → Session M D
  pause_in playing req s =
      send_response (pause_response req s)
        (record s { pause_start = env.clock_now; state = paused })
  pause_in _ req s =
      send_response (error env.date (cseq req) 455 (codes "Method Not Valid In This State")) s

  unfoldable pub handle_pause : Request → Session M D → Session M D
  handle_pause req s = pause_in s.state req s

  unfoldable pub handle_teardown : Request → Session M D → Session M D
  handle_teardown req s =
      let s' = send_response (ok env.date (cseq req) s.session_id) (record s { state = init }) in
      record s' { close_after_write = true }

  unfoldable pub handle_request : Request → Session M D → Outcome (Session M D)
  handle_request req s =
      if bytes_eq req.method (codes "OPTIONS")
      then returned (handle_options req s)
      else if bytes_eq req.method (codes "DESCRIBE")
      then handle_describe env req s
      else if bytes_eq req.method (codes "SETUP")
      then handle_setup env req s
      else if bytes_eq req.method (codes "PLAY")
      then returned (handle_play env req s)
      else if bytes_eq req.method (codes "PAUSE")
      then returned (handle_pause req s)
      else if bytes_eq req.method (codes "TEARDOWN")
      then returned (handle_teardown req s)
      else returned (send_response (error env.date (cseq req) 501 (codes "Not Implemented")) s)
