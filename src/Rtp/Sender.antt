-- ===== src/Rtp/Sender.antt =====
-- src/rtp/RTPSender.cpp: the sender of RTP packets, over UDP or interleaved in the RTSP connection.
-- The kernel's answers to the socket calls are the record `Sockets`, and those to `sendmsg` a list.
pub mod Delivery
use rtsp_server.Prelude.{
  ℕ, zero, suc, ◌+◌, ◌-◌, ◌/◌, Bool, true, false, [], ◌∷◌, ◌++◌, List, Option, none, some, length,
  take, drop, ltb, leb, min, ◌==◌, if◌then◌else◌,
}
use rtsp_server.Prelude.Bits.{Bytes, u8, u16}

pub data Mode : Type 0 where
  unset udp tcp : Mode

-- `none` is the descriptor -1.
pub record Sender : Type 0 where
  pub mode : Mode
  pub ready : Bool
  pub udp_fd : Option ℕ
  pub tcp_fd : Option ℕ
  pub rtp_channel : ℕ

abbrev pub fresh : Sender
fresh = record { mode = unset; ready = false; udp_fd = none; tcp_fd = none; rtp_channel = 0 }

pub record Sockets : Type 0 where
  pub udp_socket : Option ℕ
  pub inet_pton : Bytes → Bool
  pub connect : ℕ → Bytes → ℕ → Bool
  -- `getsockname` on a descriptor: the local port.
  pub local_port : ℕ → Option ℕ

-- `close` and the descriptor that it closes.
unfoldable pub close : Sender → Sender × Option ℕ
close s =
    let closed : Option ℕ = elim s.mode [ udp ↦ s.udp_fd | _ ↦ none ] in
    let kept : Option ℕ = elim s.mode [ udp ↦ none | _ ↦ s.udp_fd ] in
    (
      record {
        mode = unset;
        ready = false;
        udp_fd = kept;
        tcp_fd = none;
        rtp_channel = s.rtp_channel;
      },
      closed,
    )

-- `setupUDP` with the local port left to the kernel; a failing `bind` is only logged.
unfoldable pub setup_udp : Sockets → Sender → Bytes → ℕ → Sender × Bool
setup_udp k s remote_ip remote_rtp_port = elim k.udp_socket [
  | none ↦ (record s { udp_fd = none }, false)
  | some fd ↦
      if k.inet_pton remote_ip
      then (if k.connect fd remote_ip remote_rtp_port
          then (record s { udp_fd = some fd; mode = udp; ready = true }, true)
          else (record s { udp_fd = none }, false))
      else (record s { udp_fd = none }, false)
]

port_or_zero : Option ℕ → ℕ
port_or_zero none = 0
port_or_zero (some p) = p

unfoldable pub get_local_port : Sockets → Sender → ℕ
unfolding port_or_zero
get_local_port k s = elim s.mode [
  | udp ↦ elim s.udp_fd [ none ↦ 0 | some fd ↦ port_or_zero (k.local_port fd) ]
  | _ ↦ 0
]

unfoldable pub setup_tcp : Sender → ℕ → ℕ → Sender
setup_tcp s tcp_fd rtp_channel = record s {
  tcp_fd = some tcp_fd;
  rtp_channel = u8 rtp_channel;
  mode = tcp;
  ready = true;
}

-- The two parts of the scatter-gather vector, after `advance` bytes of it have been taken.
unfoldable pub advance_iov : ℕ → List Bytes → List Bytes
advance_iov n [] = []
advance_iov n (v ∷ vs) =
    let rest = advance_iov (n - length v) vs in
    if n == 0 then v ∷ vs else if leb (length v) n then rest else drop n v ∷ vs

-- What `sendmsg` takes from the vector, when it takes `n` bytes.
abbrev pub flat : List Bytes → Bytes
flat [] = []
flat (v ∷ vs) = v ++ flat vs

-- The write loop: `results` are the return values of `sendmsg`, `none` for an error or nothing
-- written; the bytes put on the wire and the result. The kernel takes at most what it is offered,
-- and a list that ends stands for an error.
unfoldable pub write_loop : List (Option ℕ) → ℕ → List Bytes → Bytes × Bool
write_loop results zero iov = ([], true)
write_loop [] (suc r) iov = ([], false)
write_loop (none ∷ results) (suc r) iov = ([], false)
write_loop (some zero ∷ results) (suc r) iov = ([], false)
write_loop (some (suc n) ∷ results) (suc r) iov =
    let m = min (suc n) (suc r) in
    let rest = write_loop results (suc r - m) (advance_iov m iov) in
    (take m (flat iov) ++ rest.0, rest.1)

abbrev pub frame_header : ℕ → ℕ → Bytes
frame_header channel len = b'$' ∷ channel ∷ u8 (len / 256) ∷ u8 len ∷ []

unfoldable pub send_tcp_interleaved : List (Option ℕ) → Sender → Bytes → Bytes × Bool
send_tcp_interleaved results s payload =
    if ltb 65535 (length payload)
    then ([], false)
    else write_loop results (4 + length payload)
        (frame_header s.rtp_channel (length payload) ∷ payload ∷ [])

-- One datagram, or what the connection was given; `sent` is the kernel's answer for the datagram.
unfoldable pub send : Bool → List (Option ℕ) → Sender → Bytes → Bytes × Bool
unfolding send_tcp_interleaved write_loop
send sent results s packet =
    if s.ready
    then elim s.mode [
      | udp ↦ if sent then (packet, true) else ([], false)
      | _ ↦ send_tcp_interleaved results s packet
    ]
    else ([], false)
