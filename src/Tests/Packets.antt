-- ===== src/Tests/Packets.antt =====
-- RTP packets and Annex-B streams.
use rtsp_server.Prelude.{◌≡◌, refl, arith, true, false, [], ◌∷◌, ◌++◌, List, some}
use rtsp_server.Prelude.Bits.{Bytes}
use rtsp_server.Rtp.Packet.{build}
use rtsp_server.Rtp.Packet.RoundTrip.{parse, parse-build}
use rtsp_server.Rtp.Packetizer.{Packet, packetize}
use rtsp_server.Rtp.Packetizer.Bounds.{Fit, LastMarked, packetize_bounds}
use rtsp_server.Rtp.Packetizer.Reassembly.{
  payloads, reassemble, reassemble-packetize, packetize_delivers,
}
use rtsp_server.Rtp.Sender.{fresh, frame_header, send_tcp_interleaved}
use rtsp_server.Rtp.Sender.Delivery.{Delivers, send_tcp_interleaved_lem}
use rtsp_server.Media.AnnexB.{split}
use rtsp_server.Media.AnnexB.Stream.{Stream, split-Stream}

parse-build_example :
    parse (build (1 ∷ 2 ∷ []) 96 65535 90000 7 true)
    ≡ some (record {
      marker = true;
      payload_type = 96;
      seq = 65535;
      timestamp = 90000;
      ssrc = 7;
      payload = 1 ∷ 2 ∷ [];
    })
parse-build_example =
    parse-build (1 ∷ 2 ∷ []) 96 65535 90000 7 true (omega arith) (omega arith) (omega arith)
      (omega arith)

-- A NAL unit in two fragments.
abbrev two_fragments : List Packet
two_fragments =
    record { payload = 124 ∷ 133 ∷ 1 ∷ 2 ∷ []; marker = false }
    ∷ record { payload = 124 ∷ 69 ∷ 3 ∷ 4 ∷ []; marker = true }
    ∷ []

fragmented : packetize (101 ∷ 1 ∷ 2 ∷ 3 ∷ 4 ∷ []) 4 ≡ some two_fragments
unfolding packetize
fragmented = refl

reassemble-packetize_example : reassemble (payloads two_fragments) ≡ some (101 ∷ 1 ∷ 2 ∷ 3 ∷ 4 ∷ [])
reassemble-packetize_example =
    reassemble-packetize 101 (1 ∷ 2 ∷ 3 ∷ 4 ∷ []) 4 (omega arith) (λ e. omega (arith, e))
      (omega arith) (omega arith) fragmented

packetize_bounds_example : Fit 4 two_fragments × LastMarked two_fragments
packetize_bounds_example =
    packetize_bounds (101 ∷ 1 ∷ 2 ∷ 3 ∷ 4 ∷ []) 4 (omega arith) (omega arith) fragmented

packetize_delivers_example :
    (ps : List Packet) × (packetize (101 ∷ 1 ∷ 2 ∷ []) 3 ≡ some ps)
    × (reassemble (payloads ps) ≡ some (101 ∷ 1 ∷ 2 ∷ []))
    × Fit 3 ps
    × LastMarked ps
packetize_delivers_example =
    packetize_delivers 101 (1 ∷ 2 ∷ []) 3 (omega arith) (λ e. omega (arith, e)) (omega arith)
      (omega arith)

send_tcp_interleaved_lem_example :
    Delivers
      (frame_header 0 2 ++ (8 ∷ 9 ∷ []))
      (send_tcp_interleaved (some 3 ∷ some 3 ∷ []) fresh (8 ∷ 9 ∷ []))
send_tcp_interleaved_lem_example =
    send_tcp_interleaved_lem (some 3 ∷ some 3 ∷ []) fresh (8 ∷ 9 ∷ []) (omega arith)

abbrev buffer : Bytes
buffer = 0 ∷ 0 ∷ 0 ∷ 1 ∷ 103 ∷ 0 ∷ 0 ∷ 1 ∷ 104 ∷ 5 ∷ []

buffer-Stream : Stream buffer ((103 ∷ []) ∷ (104 ∷ 5 ∷ []) ∷ [])
buffer-Stream =
    Stream.unit true (103 ∷ []) (0 ∷ 0 ∷ 1 ∷ 104 ∷ 5 ∷ []) (λ e. omega (arith, e)) refl
      (Stream.unit false (104 ∷ 5 ∷ []) [] (λ p. p, λ e. omega (arith, e)) refl Stream.stop)

split-Stream_example : split buffer ≡ some ((103 ∷ []) ∷ (104 ∷ 5 ∷ []) ∷ [])
split-Stream_example = split-Stream buffer-Stream
