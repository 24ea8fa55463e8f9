-- ===== src/Session/Pacer/Packets.antt =====
-- The RTP packets of one frame, over UDP.
use rtsp_server.Prelude.{
  ℕ, ◌+◌, ◌<◌, ◌≡◌, refl, sym, ap, ◌∙◌, subst, Bool, true, false, ◌&&◌, [], ◌∷◌, ◌++◌, List, some,
  length, append-nil, append_assoc, arith,
}
use rtsp_server.Prelude.Bits.{Bytes, u16}
use rtsp_server.Rtp.Packet.{build}
use rtsp_server.Rtp.Sender.{Sender}
use rtsp_server.Rtp.Packetizer.{Packet, packetize, k_default_mtu}
use rtsp_server.Media.Packets.{VideoPacket}
use rtsp_server.Session.State.{Session, payload_type}
use rtsp_server.Session.Outbox.{send_video_rtp}
use rtsp_server.Session.Sending.{nal_list, is_empty, payloads_of, send_payloads, send_nals}
use rtsp_server.Session.Pacer.AccessUnits.{
  unit_payloads, access_unit, part, seq_after, seq_after-u16, seq_after-append, part-true,
  part-access_unit, NotEmpty, nal_list-NotEmpty, unit_payloads-not_empty,
}

-- A session whose video goes over UDP.
pub record Udp {M D : Type 0} (s : Session M D) : Type 0 where
  pub datagrams : s.use_tcp ≡ false
  pub connected : (x : Sender) × (s.rtp_sender ≡ some x)

-- The packets that were sent between two states, and what they leave.
record Sent {M D : Type 0} (s s' : Session M D) (out : List Bytes) (seq : ℕ) : Type 0 where
  packets : s'.video_sent ≡ s.video_sent ++ out
  seq_next : s'.rtp_seq ≡ seq
  ssrc_kept : s'.ssrc ≡ s.ssrc
  udp : Udp s'

module _ {M D : Type 0} where
  Sent-trans :
      (s s' s'' : Session M D) {out out' : List Bytes} {seq seq' : ℕ}
      → Sent s s' out seq
      → Sent s' s'' out' seq'
      → Sent s s'' (out ++ out') seq'
  Sent-trans s s' s'' {out = out} {out' = out'} a b = record {
    packets = b.packets ∙ (ap (λ l. l ++ out') a.packets ∙ append_assoc s.video_sent out out');
    seq_next = b.seq_next;
    ssrc_kept = b.ssrc_kept ∙ a.ssrc_kept;
    udp = b.udp;
  }

  Sent-cast :
      (s s' : Session M D) {out out' : List Bytes} {seq seq' : ℕ}
      → Sent s s' out seq
      → out ≡ out'
      → seq ≡ seq'
      → Sent s s' out' seq'
  Sent-cast s s' a e f = record {
    packets = a.packets ∙ ap (λ l. s.video_sent ++ l) e;
    seq_next = a.seq_next ∙ f;
    ssrc_kept = a.ssrc_kept;
    udp = a.udp;
  }

  send_video_rtp-Sent :
      (p : Bytes) (ts : ℕ) (m : Bool) (s : Session M D)
      → Udp s
      → Sent s
          (send_video_rtp p ts m s)
          (build p payload_type s.rtp_seq ts s.ssrc m ∷ [])
          (u16 (s.rtp_seq + 1))
  unfolding send_video_rtp
  send_video_rtp-Sent p ts m s u =
      let (x, e) = u.connected in
      record {
        packets = ground (arith, u.datagrams, e);
        seq_next = ground (arith, u.datagrams, e);
        ssrc_kept = ground (arith, u.datagrams, e);
        udp = record {
          datagrams = ground (arith, u.datagrams, e);
          connected = (x, ground (arith, u.datagrams, e));
        };
      }

  send_payloads-Sent :
      (ps : List Packet) (ts : ℕ) (last : Bool) (s : Session M D)
      → Udp s
      → Sent s
          (send_payloads ps ts last s)
          (part last s.rtp_seq ts s.ssrc ps)
          (seq_after s.rtp_seq ps)
  unfolding send_payloads part seq_after
  send_payloads-Sent [] ts last s u = record {
    packets = sym (append-nil s.video_sent);
    seq_next = refl;
    ssrc_kept = refl;
    udp = u;
  }
  send_payloads-Sent (p ∷ ps) ts last s u =
      let s' = send_video_rtp p.payload ts (last && is_empty ps) s in
      let a = send_video_rtp-Sent p.payload ts (last && is_empty ps) s u in
      let b = send_payloads-Sent ps ts last s' a.udp in
      Sent-trans s s' _ a (
        subst
          (λ q. Sent s' (send_payloads ps ts last s') (part last q ts s.ssrc ps) (seq_after q ps))
          a.seq_next
          (subst
            (λ c.
              Sent s' (send_payloads ps ts last s') (part last s'.rtp_seq ts c ps)
                (seq_after s'.rtp_seq ps))
            a.ssrc_kept b))

  send_nals-Sent :
      (nals : List Bytes) (ts : ℕ) (s : Session M D)
      → NotEmpty nals
      → Udp s
      → Sent s
          (send_nals nals ts s)
          (access_unit s.rtp_seq ts s.ssrc (unit_payloads nals))
          (seq_after s.rtp_seq (unit_payloads nals))
  unfolding send_nals unit_payloads access_unit seq_after
  send_nals-Sent [] ts s n u = record {
    packets = sym (append-nil s.video_sent);
    seq_next = refl;
    ssrc_kept = refl;
    udp = u;
  }
  send_nals-Sent (nal ∷ []) ts s n u =
      let ps = payloads_of (packetize nal k_default_mtu) in
      Sent-cast s (send_payloads ps ts true s) (send_payloads-Sent ps ts true s u)
        (part-true s.rtp_seq ts s.ssrc ps
          ∙ ap (access_unit s.rtp_seq ts s.ssrc) (sym (append-nil ps)))
        (ap (seq_after s.rtp_seq) (sym (append-nil ps)))
  send_nals-Sent (nal ∷ nal' ∷ nals) ts s (n, (n', ns)) u =
      let ps = payloads_of (packetize nal k_default_mtu) in
      let qs = unit_payloads (nal' ∷ nals) in
      let s' = send_payloads ps ts false s in
      let a = send_payloads-Sent ps ts false s u in
      let b = send_nals-Sent (nal' ∷ nals) ts s' (n', ns) a.udp in
      Sent-cast s (send_nals (nal' ∷ nals) ts s')
        (Sent-trans s s' (send_nals (nal' ∷ nals) ts s') a b)
        (rw (a.seq_next, a.ssrc_kept)
          (part-access_unit s.rtp_seq ts s.ssrc ps qs (unit_payloads-not_empty nal' nals n')))
        (rw a.seq_next (sym (seq_after-append s.rtp_seq ps qs)))

  -- The packets of a frame, over UDP: the payloads of its NAL units, the parameter sets first on a
  -- key frame, with consecutive sequence numbers modulo 2^16, one timestamp, and the marker on the
  -- last packet and on no other.
  pub send_nals_lem :
      (sps pps : Bytes) (vp : VideoPacket) (s : Session M D)
      → Udp s
      → s.rtp_seq < 65536
      → let payloads = unit_payloads (nal_list sps pps vp) in
        let s' = send_nals (nal_list sps pps vp) vp.rtp_timestamp s in
        (s'.video_sent ≡ s.video_sent ++ access_unit s.rtp_seq vp.rtp_timestamp s.ssrc payloads)
        × (s'.rtp_seq ≡ u16 (s.rtp_seq + length payloads))
  send_nals_lem sps pps vp s u h =
      let nals = nal_list sps pps vp in
      let a = send_nals-Sent nals vp.rtp_timestamp s (nal_list-NotEmpty sps pps vp) u in
      (a.packets, a.seq_next ∙ seq_after-u16 s.rtp_seq (unit_payloads nals) h)
