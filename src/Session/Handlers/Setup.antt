-- ===== src/Session/Handlers/Setup.antt =====
-- `handleSetup`.
use rtsp_server.Prelude.{
  ℕ, ◌+◌, ◌-◌, Bool, true, false, not, ◌||◌, [], ◌∷◌, ◌++◌, Option, none, some, if◌then◌else◌, drop,
}
use rtsp_server.Prelude.Bits.{Bytes, u16}
use rtsp_server.Prelude.Text.{codes, bytes_eq, find, find_from, substr, contains}
use rtsp_server.Prelude.Numbers.{ℤ, pos, negsuc, int_to_string, stoi}
use rtsp_server.Rtp.Sender.{Sender, fresh, setup_udp, get_local_port}
use rtsp_server.Rtsp.Request.{Request, header, cseq}
use rtsp_server.Rtsp.Response.{setup, error}
use rtsp_server.Session.State.{ready, Outcome, returned, threw, Session, Env}
use rtsp_server.Session.Outbox.{send_response}

-- `static_cast<uint16_t>` of an `int`.
unfoldable pub port_of : ℤ → ℕ
port_of (pos n) = u16 n
port_of (negsuc n) = 65535 - u16 n

-- The pair of channels after the header is read, and whether no exception was thrown. The first
-- channel is assigned before the second is read.
unfoldable pub channel_pair : Bytes → ℤ → ℤ → (ℤ × ℤ) × Bool
channel_pair hdr a b = elim (find (codes "interleaved=") hdr) [
  | none ↦ ((a, b), true)
  | some il ↦ elim (find_from (codes "-") hdr (il + 12)) [
    | none ↦ ((a, b), true)
    | some dash ↦ elim (stoi (substr hdr (il + 12) (dash - (il + 12)))) [
      | none ↦ ((a, b), false)
      | some a' ↦ elim (stoi (drop (dash + 1) hdr)) [
        | none ↦ ((a', b), false)
        | some b' ↦ ((a', b'), true)
      ]
    ]
  ]
]

-- `port_str`, where the header has a client port.
unfoldable pub port_text : Bytes → Option Bytes
port_text hdr = elim (find (codes "client_port=") hdr) [
  | none ↦ none
  | some cp ↦ elim (find_from (codes "-") hdr (cp + 12)) [
    | some dash ↦ some (substr hdr (cp + 12) (dash - (cp + 12)))
    | none ↦ elim (find_from (codes ";") hdr (cp + 12)) [
      | some dash ↦ some (substr hdr (cp + 12) (dash - (cp + 12)))
      | none ↦ some (drop (cp + 12) hdr)
    ]
  ]
]

unfoldable pub tcp_transport : ℤ × ℤ → Bytes
tcp_transport p =
    codes "RTP/AVP/TCP;unicast;interleaved=" ++ (int_to_string p.0 ++ (b'-' ∷ int_to_string p.1))

unfoldable pub udp_transport : ℕ → ℕ → Bytes
udp_transport client server =
    codes "RTP/AVP;unicast;client_port="
    ++ (int_to_string (pos client)
        ++ (b'-' ∷ int_to_string (pos (client + 1))
            ++ (codes ";server_port="
                ++ (int_to_string (pos server)
                    ++ (b'-' ∷ int_to_string (pos (u16 (server + 1))))))))

unfoldable pub wants_tcp : Bytes → Bool
wants_tcp hdr = contains (codes "RTP/AVP/TCP") hdr || contains (codes "interleaved") hdr

-- `is_audio_track`.
unfoldable pub names_audio : Bytes → Bool
names_audio url = contains (codes "trackID=1") url

module _ {M D : Type 0} (env : Env M D) where
  -- The answer that ends a successful SETUP.
  unfoldable pub accept : Request → Bytes → Session M D → Session M D
  accept req transport s =
      let s' = if names_audio req.url then s else record s { state = ready } in
      send_response (setup env.date (cseq req) s'.session_id transport) s'

  -- The fields that the branch for TCP sets, and whether no exception was thrown.
  unfoldable pub bind_channels : Request → Bytes → Session M D → Session M D × Bool
  bind_channels req hdr s =
      let video = channel_pair hdr s.rtp_channel s.rtcp_channel in
      let audio = channel_pair hdr s.audio_rtp_channel s.audio_rtcp_channel in
      if names_audio req.url
      then (
        record s {
          use_tcp = true;
          audio_rtp_channel = audio.0.0;
          audio_rtcp_channel = audio.0.1;
          audio_transport_ready = if audio.1 then true else s.audio_transport_ready;
        },
        audio.1,
      )
      else (
        record s {
          use_tcp = true;
          rtp_channel = video.0.0;
          rtcp_channel = video.0.1;
          transport_ready = if video.1 then true else s.transport_ready;
        },
        video.1,
      )

  unfoldable pub setup_interleaved : Request → Bytes → Session M D → Outcome (Session M D)
  unfolding bind_channels
  setup_interleaved req hdr s =
      let bound = bind_channels req hdr s in
      let p = bound.0 in
      let pair : ℤ × ℤ =
        if names_audio req.url
        then (p.audio_rtp_channel, p.audio_rtcp_channel)
        else (p.rtp_channel, p.rtcp_channel) in
      if bound.1 then returned (accept req (tcp_transport pair) p) else threw p

  -- The sender that SETUP makes for a track, connected or not.
  unfoldable pub install : Request → Sender → Bool → Session M D → Session M D
  install req sender connected s =
      if names_audio req.url
      then record s {
        audio_rtp_sender = some sender;
        audio_transport_ready = if connected then true else s.audio_transport_ready;
      }
      else record s {
        rtp_sender = some sender;
        transport_ready = if connected then true else s.transport_ready;
      }

  unfoldable pub setup_port : Request → ℕ → Session M D → Session M D
  setup_port req port s =
      let r = setup_udp env.sockets fresh s.client_ip port in
      let s' = install req r.0 r.1 s in
      if r.1
      then accept req (udp_transport port (get_local_port env.sockets r.0)) s'
      else send_response (error env.date (cseq req) 500 (codes "Internal Server Error")) s'

  unfoldable pub setup_datagram : Request → Bytes → Session M D → Outcome (Session M D)
  setup_datagram req hdr s =
      let s' = record s { use_tcp = false } in
      elim (port_text hdr) [
        | none ↦
            returned
              (send_response (error env.date (cseq req) 461 (codes "Unsupported Transport")) s')
        | some text ↦ elim (stoi text) [
          | none ↦ threw s'
          | some port ↦ returned (setup_port req (port_of port) s')
        ]
      ]

  unfoldable pub has_source : Session M D → Bool
  has_source s = elim s.media_source [ some _ ↦ true | none ↦ false ]

  unfoldable pub handle_setup : Request → Session M D → Outcome (Session M D)
  handle_setup req s =
      let hdr = header req (codes "transport") in
      if not s.describe_done || not (has_source s)
      then returned
          (send_response (error env.date (cseq req) 455 (codes "Method Not Valid In This State")) s)
      else if bytes_eq hdr []
      then returned (send_response (error env.date (cseq req) 400 (codes "Bad Request")) s)
      else if wants_tcp hdr
      then setup_interleaved req hdr s
      else setup_datagram req hdr s
