-- ===== src/Session/Sending.antt =====
-- The packets of `pacerTick`: of a frame, step 8, and of a packet of audio, `sendOneAudio`.
use rtsp_server.Prelude.{
  ℕ, ◌+◌, ◌/◌, ◌%◌, ◌*◌, Bool, true, false, ◌&&◌, ◌||◌, [], ◌∷◌, List, Option, none, some, ◌==◌,
  length, bit_and, if◌then◌else◌,
}
use rtsp_server.Prelude.Bits.{Bytes, u16}
use rtsp_server.Rtp.Packet.{build}
use rtsp_server.Rtp.Packetizer.{Packet, packetize, k_default_mtu}
use rtsp_server.Media.Packets.{VideoPacket, AudioPacket}
use rtsp_server.Session.State.{Session, audio_payload_type}
use rtsp_server.Session.Outbox.{send_video_rtp, send_audio_rtp}

-- The NAL units that are sent for a frame: the parameter sets before a key frame, in place of those
-- that the frame has.
unfoldable pub frame_nals : Bool → List Bytes → List Bytes
frame_nals key [] = []
frame_nals key ([] ∷ nals) = frame_nals key nals
frame_nals key ((h ∷ t) ∷ nals) =
    let rest = frame_nals key nals in
    let type = bit_and h 0x1F in if key && (type == 7 || type == 8) then rest else (h ∷ t) ∷ rest

abbrev pub unless_empty : Bytes → List Bytes → List Bytes
unless_empty [] nals = nals
unless_empty (h ∷ t) nals = (h ∷ t) ∷ nals

unfoldable pub nal_list : Bytes → Bytes → VideoPacket → List Bytes
unfolding frame_nals
nal_list sps pps vp =
    let nals = frame_nals vp.is_key_frame vp.nals in
    if vp.is_key_frame then unless_empty sps (unless_empty pps nals) else nals

abbrev pub is_empty : {A : Type 0} → List A → Bool
is_empty [] = true
is_empty (x ∷ xs) = false

abbrev pub value_or : Option ℕ → ℕ
value_or none = 0
value_or (some n) = n

-- The AU header of RFC 3640 and the AAC frame.
unfoldable pub audio_payload : Bytes → Bytes
audio_payload aac =
    let au_size = u16 (length aac) in 0x00 ∷ 0x10 ∷ (au_size / 32) % 256 ∷ (au_size % 32) * 8 ∷ aac

-- The payloads of a NAL unit, which the packetizer always finds at this MTU.
abbrev pub payloads_of : Option (List Packet) → List Packet
payloads_of none = []
payloads_of (some ps) = ps

module _ {M D : Type 0} where
  -- The payloads of one NAL unit; the marker is set on the last one if the unit is the last.
  unfoldable pub send_payloads : List Packet → ℕ → Bool → Session M D → Session M D
  send_payloads [] ts last_nal s = s
  send_payloads (p ∷ ps) ts last_nal s =
      send_payloads ps ts last_nal (send_video_rtp p.payload ts (last_nal && is_empty ps) s)

  unfoldable pub send_nals : List Bytes → ℕ → Session M D → Session M D
  send_nals [] ts s = s
  send_nals (nal ∷ nals) ts s =
      send_nals nals ts
        (send_payloads (payloads_of (packetize nal k_default_mtu)) ts (is_empty nals) s)

  -- The packet of an AAC frame; an empty frame has none.
  unfoldable pub send_access_unit : Bytes → ℕ → Session M D → Session M D
  send_access_unit [] ts s = s
  send_access_unit (c ∷ cs) ts s =
      let pkt =
        build (audio_payload (c ∷ cs)) audio_payload_type s.audio_rtp_seq ts s.audio_ssrc true in
      send_audio_rtp pkt (record s { audio_rtp_seq = u16 (s.audio_rtp_seq + 1) })

  unfoldable pub send_one_audio : AudioPacket → Session M D → Session M D
  send_one_audio ap s = send_access_unit ap.payload ap.rtp_timestamp s
