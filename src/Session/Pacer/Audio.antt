-- ===== src/Session/Pacer/Audio.antt =====
-- The audio of a tick: the packets that are due, and the payload of each.
use rtsp_server.Prelude.{
  ℕ, zero, suc, ◌+◌, ◌*◌, ◌/◌, ◌%◌, if-elim, ◌<◌, ◌≡◌, refl, ap, ◌∙◌, Bool, true, false, [], ◌∷◌,
  List, Option, none, some, length, take, ltb, ◌==◌, if◌then◌else◌, arith, take_all, not, ◌++◌,
}
use rtsp_server.Prelude.Bits.{Bytes, u16, sub32}
use rtsp_server.Rtp.Packet.{build}
use rtsp_server.Prelude.Numbers.{ℤ, ◌+ℤ◌, ltb_ℤ}
use rtsp_server.Media.Packets.{AudioPacket}
use rtsp_server.Session.State.{k_outbox_hwm, audio_payload_type, Session, Env}
use rtsp_server.Session.Outbox.{
  interleaved, push_tcp_frame, push_outbox, enable_write, send_audio_rtp,
}
use rtsp_server.Session.Sending.{audio_payload, send_access_unit, send_one_audio}
use rtsp_server.Session.Pacer.{audio_due, audio_loop}

-- A receiver of RFC 3640 with one AU header of 13 bits for the size and 3 for the index.
unfoldable pub read_access_unit : Bytes → Option Bytes
read_access_unit (hi ∷ lo ∷ c ∷ d ∷ rest) =
    let size = c * 32 + d / 8 in
    if hi * 256 + lo == 16
    then (if ltb (length rest) size then none else some (take size rest))
    else none
read_access_unit _ = none

-- A receiver gets an AAC frame back from its payload if the frame has less than 8192 bytes, the
-- most that the size field of the AU header can tell.
pub read_access_unit-audio_payload :
    (aac : Bytes) → length aac < 8192 → read_access_unit (audio_payload aac) ≡ some aac
unfolding read_access_unit audio_payload
read_access_unit-audio_payload aac h =
    let size : (length aac % 65536 / 32) % 256 * 32 + ((length aac % 65536 % 32) * 8) / 8
        ≡ length aac =
      omega arith in
    let fits : ltb (length aac) (length aac) ≡ false = ground arith in
    rw (size, fits, take_all (length aac) aac (omega arith)) refl

module _ {M D : Type 0} where
  unfoldable pub send_each : List AudioPacket → Session M D → Session M D
  send_each [] s = s
  send_each (ap ∷ aps) s = send_each aps (send_one_audio ap s)

  -- The session with the source after the last read, and the packet that is kept.
  unfoldable pub stopped : M → Option AudioPacket → Session M D → Session M D
  stopped m none s = record s { media_source = some m }
  stopped m (some p) s = record s { media_source = some m; pending_ap = some p }

module _ {M D : Type 0} (env : Env M D) where
  -- The packets that a source gives one after the other, with the source after them.
  pub data Gives : M → List AudioPacket → M → Type 0 where
    done : {m : M} → Gives m [] m
    gives :
        {m m' : M} {aps : List AudioPacket} (ap : AudioPacket)
        → (env.read_audio_packet m).0 ≡ some ap
        → Gives (env.read_audio_packet m).1 aps m'
        → Gives m (ap ∷ aps) m'

  pub data AllDue (now : ℤ) (rate : ℕ) (s : Session M D) : List AudioPacket → Type 0 where
    none_left : AllDue now rate s []
    due :
        {ap : AudioPacket} {aps : List AudioPacket}
        → audio_due env now rate ap s ≡ true
        → AllDue now rate s aps
        → AllDue now rate s (ap ∷ aps)

  -- The audio clock is the same.
  abbrev Ticking : Session M D → Session M D → Type 0
  Ticking s s' = (s'.wall_start ≡ s.wall_start) × (s'.audio_loop_offset ≡ s.audio_loop_offset)

  enable_write-Ticking : (s : Session M D) → Ticking s (enable_write s)
  unfolding enable_write
  enable_write-Ticking s = ground arith

  push_tcp_frame-Ticking :
      (c : ℤ) (pkt : Bytes) (s : Session M D) → Ticking s (push_tcp_frame c pkt s)
  unfolding push_tcp_frame push_outbox
  push_tcp_frame-Ticking c pkt s =
      if-elim (Ticking s) (ltb k_outbox_hwm s.outbox_bytes) (λ _. (refl, refl))
        (λ _. enable_write-Ticking (record s {
          outbox_bytes = s.outbox_bytes + length (interleaved c pkt);
          outbox = s.outbox ++ interleaved c pkt ∷ [];
        }))

  send_audio_rtp-Ticking : (pkt : Bytes) (s : Session M D) → Ticking s (send_audio_rtp pkt s)
  unfolding send_audio_rtp
  send_audio_rtp-Ticking pkt s =
      if-elim (Ticking s) s.use_tcp (λ _. push_tcp_frame-Ticking s.audio_rtp_channel pkt s)
        (λ _.
          elim s.audio_rtp_sender
            as (λ o.
              Ticking s (elim o [
                | none ↦ s
                | some _ ↦ record s { audio_sent = s.audio_sent ++ pkt ∷ [] }
              ])) [ none ↦ (refl, refl) | some _ ↦ (refl, refl) ])

  send_access_unit-Ticking :
      (b : Bytes) (ts : ℕ) (s : Session M D) → Ticking s (send_access_unit b ts s)
  unfolding send_access_unit
  send_access_unit-Ticking [] ts s = (refl, refl)
  send_access_unit-Ticking (c ∷ cs) ts s =
      send_audio_rtp-Ticking
        (build (audio_payload (c ∷ cs)) audio_payload_type s.audio_rtp_seq ts s.audio_ssrc true)
        (record s { audio_rtp_seq = u16 (s.audio_rtp_seq + 1) })

  -- Whether a packet is due does not depend on what was sent.
  due-sent :
      (now : ℤ) (rate : ℕ) (p sent : AudioPacket) (s : Session M D)
      → audio_due env now rate p (send_one_audio sent s) ≡ audio_due env now rate p s
  unfolding audio_due send_one_audio
  due-sent now rate p sent s =
      let (w, o) = send_access_unit-Ticking sent.payload sent.rtp_timestamp s in
      let d = env.doubles in
      let test : ℤ → ℕ → Bool = λ wall offset. not (
        ltb_ℤ now
          (wall +ℤ d.to_ns (d.div (d.of_u32 (sub32 p.rtp_timestamp offset)) (d.of_u32 rate)))) in
      ap (λ wall. test wall (send_access_unit sent.payload sent.rtp_timestamp s).audio_loop_offset)
        w
      ∙ ap (test s.wall_start) o

  sent_due :
      {now : ℤ} {rate : ℕ} (sent : AudioPacket) (s : Session M D) {aps : List AudioPacket}
      → AllDue now rate s aps
      → AllDue now rate (send_one_audio sent s) aps
  sent_due sent s none_left = none_left
  sent_due {now} {rate} sent s (due {ap = p} h r) =
      due (due-sent now rate p sent s ∙ h) (sent_due sent s r)

  -- What ends the loop: there is no packet, or one that is not due.
  pub data Stops (now : ℤ) (rate : ℕ) (s : Session M D) : Option AudioPacket → Type 0 where
    dry : Stops now rate s none
    early : {p : AudioPacket} → audio_due env now rate p s ≡ false → Stops now rate s (some p)

  Stops-sent :
      {now : ℤ} {rate : ℕ} (sent : AudioPacket) (s : Session M D) {o : Option AudioPacket}
      → Stops now rate s o
      → Stops now rate (send_one_audio sent s) o
  Stops-sent sent s dry = dry
  Stops-sent {now} {rate} sent s (early {p = p} l) = early (due-sent now rate p sent s ∙ l)

  -- If the source gives packets that are due, and then none or one that is not due, the loop sends
  -- exactly the due ones, in order, keeps the other, and ends: one unit of fuel more than there are
  -- due packets is enough.
  pub audio_loop_lem :
      (fuel : ℕ) (now : ℤ) (rate : ℕ) (m m' : M) (aps : List AudioPacket) (o : Option AudioPacket)
      (s : Session M D)
      → length aps < fuel
      → Gives m aps m'
      → AllDue now rate s aps
      → (env.read_audio_packet m').0 ≡ o
      → Stops now rate s o
      → audio_loop env fuel now rate m s ≡ stopped (env.read_audio_packet m').1 o (send_each aps s)
  unfolding audio_loop send_each stopped
  audio_loop_lem zero now rate m m' aps o s h g a e t = absurd (omega arith)
  audio_loop_lem (suc fuel) now rate m m' [] none s h done a e dry = rw (e, audio_loop) refl
  audio_loop_lem (suc fuel) now rate m m' [] (some p) s h done a e (early l) =
      rw (e, l, audio_loop) refl
  audio_loop_lem (suc fuel) now rate m m' (p ∷ ps) o s h (gives _ e g) (due d r) e' t =
      rw (e, d, audio_loop)
        (audio_loop_lem fuel now rate (env.read_audio_packet m).1 m' ps o (send_one_audio p s)
          (omega arith) g (sent_due p s r) e' (Stops-sent p s t))
