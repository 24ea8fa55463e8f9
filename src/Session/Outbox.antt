-- ===== src/Session/Outbox.antt =====
-- The write side: `sendResponse`, `pushTCPFrame`, `sendVideoRTP`, `sendAudioRTP`, `enableWrite` and
-- `onWritable`.
pub mod Accounting
pub mod Wakeup
pub mod Watermark
use rtsp_server.Prelude.{
  ℕ, zero, suc, ◌+◌, ◌-◌, ◌/◌, ◌%◌, Bool, true, false, [], ◌∷◌, ◌++◌, List, Option, none, some,
  length, take, drop, ltb, leb, not, min, if◌then◌else◌,
}
use rtsp_server.Prelude.Bits.{Bytes, u8, u16}
use rtsp_server.Prelude.Numbers.{ℤ, pos, negsuc}
use rtsp_server.Rtp.Packet.{build}
use rtsp_server.Rtp.Sender.{Sender}
use rtsp_server.Rtsp.Response.{Response, to_string}
use rtsp_server.Session.State.{Session, k_outbox_hwm, payload_type}

-- `static_cast<uint8_t>` of an `int`.
abbrev pub byte_of : ℤ → ℕ
byte_of (pos n) = u8 n
byte_of (negsuc n) = 255 - u8 n

-- `[$, channel, length, packet]`, the length in 16 bits.
unfoldable pub interleaved : ℤ → Bytes → Bytes
interleaved channel rtp =
    let len = u16 (length rtp) in b'$' ∷ byte_of channel ∷ u8 (len / 256) ∷ u8 len ∷ rtp

-- What a call of `send` returns: a count, EAGAIN, EINTR, or any other error.
pub data SendResult : Type 0 where
  sent : ℕ → SendResult
  again interrupted failed : SendResult

-- The new state, the result, and the bytes written.
abbrev pub Written : Type 0 → Type 0 → Type 0
Written M D = Session M D × Bool × Bytes

abbrev pub buffer_of : Option Bytes → Bytes
buffer_of none = []
buffer_of (some b) = b

module _ {M D : Type 0} where
  unfoldable pub enable_write : Session M D → Session M D
  enable_write s =
      if s.epollout_armed then s else record s { epollout_armed = true; epoll_out = true }

  -- `outbox_bytes_` is counted before the buffer is queued.
  unfoldable pub push_outbox : Bytes → Session M D → Session M D
  unfolding enable_write
  push_outbox buf s =
      enable_write
        (record s { outbox_bytes = s.outbox_bytes + length buf; outbox = s.outbox ++ buf ∷ [] })

  unfoldable pub send_response : Response → Session M D → Session M D
  send_response r s = push_outbox (to_string r) s

  unfoldable pub push_tcp_frame : ℤ → Bytes → Session M D → Session M D
  push_tcp_frame channel rtp s =
      if ltb k_outbox_hwm s.outbox_bytes
      then record s { close_after_write = true }
      else push_outbox (interleaved channel rtp) s

  -- A `send` of the UDP sender; its result is not used.
  unfoldable pub send_video_rtp : Bytes → ℕ → Bool → Session M D → Session M D
  send_video_rtp payload ts marker s =
      let pkt = build payload payload_type s.rtp_seq ts s.ssrc marker in
      let s' = record s { rtp_seq = u16 (s.rtp_seq + 1) } in
      if s.use_tcp then push_tcp_frame s.rtp_channel pkt s' else elim s.rtp_sender [
        | none ↦ s'
        | some _ ↦ record s' { video_sent = s.video_sent ++ pkt ∷ [] }
      ]

  unfoldable pub send_audio_rtp : Bytes → Session M D → Session M D
  send_audio_rtp pkt s =
      if s.use_tcp then push_tcp_frame s.audio_rtp_channel pkt s else elim s.audio_rtp_sender [
        | none ↦ s
        | some _ ↦ record s { audio_sent = s.audio_sent ++ pkt ∷ [] }
      ]

  -- The next buffer, if there is none: `try_pop`, and the accounting. False: the outbox is empty.
  unfoldable pub refill : Session M D → Session M D × Bool
  refill s = elim s.wbuf [
    | some _ ↦ (s, true)
    | none ↦ elim s.outbox [
      | [] ↦ (record s { epoll_out = false; epollout_armed = false }, false)
      | buf ∷ rest ↦ (
        record s {
          outbox = rest;
          wbuf = some buf;
          outbox_bytes = s.outbox_bytes - min (length buf) s.outbox_bytes;
          woff = 0;
        },
        true,
      )
    ]
  ]

  -- After `send` took `n` bytes of the buffer.
  unfoldable pub advance : ℕ → Bytes → Session M D → Session M D
  advance n buf s =
      if leb (length buf) (s.woff + n)
      then record s { wbuf = none; woff = 0 }
      else record s { woff = s.woff + n }

  -- `onWritable`: the answers of `send`, one for each call, where a list that ends stands for
  -- EAGAIN; the new state, the result, and the bytes that the kernel took, at most what it is
  -- offered.
  unfoldable pub on_writable : List SendResult → Session M D → Written M D
  on_writable [] s = let p = refill s in (p.0, if p.1 then true else not p.0.close_after_write, [])
  on_writable (r ∷ rs) s =
      let p = refill s in
      elim p.1 [
        | false ↦ (p.0, not p.0.close_after_write, [])
        | true ↦ elim r [
          | again ↦ (p.0, true, [])
          | failed ↦ (p.0, false, [])
          | interrupted ↦ on_writable rs p.0
          | sent zero ↦ (p.0, false, [])
          | sent (suc n) ↦
              let buf = buffer_of p.0.wbuf in
              let taken = min (suc n) (length buf - p.0.woff) in
              let rest = on_writable rs (advance taken buf p.0) in
              (rest.0, rest.1, take taken (drop p.0.woff buf) ++ rest.2)
        ]
      ]
