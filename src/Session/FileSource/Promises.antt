-- ===== src/Session/FileSource/Promises.antt =====
-- The timestamps that a client is told and the ones it gets.
use rtsp_server.Prelude.{
  ℕ, ◌+◌, ◌-◌, ◌<◌, ◌≡◌, ◌≢◌, refl, ap, ◌∙◌, subst, Option, none, some, arith,
}
use rtsp_server.Prelude.Bits.{u32}
use rtsp_server.Media.Packets.{VideoPacket}
use rtsp_server.Media.Ffmpeg.{Ffmpeg}
use rtsp_server.Media.Source.{Source, Read, ended}
use rtsp_server.Media.Source.Reading.{read_packet}
use rtsp_server.Media.Source.Seeking.{seek}
use rtsp_server.Media.Source.Rounds.{Opened}
use rtsp_server.Media.Source.Peek.{read_packet-Opened}
use rtsp_server.Media.Source.Times.{Rescales, first_after_seek}
use rtsp_server.Session.State.{Session, Env}
use rtsp_server.Session.FileSource.{file_env, result}
use rtsp_server.Session.Sending.{value_or}
use rtsp_server.Session.Pacer.{Step, ends, goes_on, loop_back, admit, read_frame, track}

module _ {M D F B : Type 0} (ff : Ffmpeg D F B) (fuel : ℕ) (world : Env M D) where
  abbrev env : Env (Source D F B) D
  env = file_env ff fuel world

  abbrev S : Type 0
  S = Session (Source D F B) D

  -- What the pacer makes of a read, when no frame is held.
  after_read : Option VideoPacket × Source D F B → S → Step S
  after_read (none, m) s = ends (loop_back env m s)
  after_read (some vp, m) s = admit env vp (record s { media_source = some m })

  read_frame-after_read :
      (m : Source D F B) (s : S)
      → s.pending_vp ≡ none
      → read_frame env m s ≡ after_read (env.read_packet m) s
  unfolding read_frame after_read
  read_frame-after_read m s p =
      ap
        (λ (o : Option VideoPacket). elim o [
          | some vp ↦ goes_on s
          | none ↦
              let r = env.read_packet m in
              elim r.0 [
                | none ↦ ends (loop_back env r.1 s)
                | some vp ↦ admit env vp (record s { media_source = some r.1 })
              ]
        ])
        p
      ∙ by_pair (env.read_packet m)
    where
      by_pair :
          (r : Option VideoPacket × Source D F B)
          → elim r.0 [
            | none ↦ ends (loop_back env r.1 s)
            | some vp ↦ admit env vp (record s { media_source = some r.1 })
          ]
            ≡ after_read r s
      by_pair (none, m) = refl
      by_pair (some vp, m) = refl

  reads :
      (m t : Source D F B) (o : Option VideoPacket)
      → read_packet ff fuel m ≡ ended o t
      → env.read_packet m ≡ (o, t)
  reads m t o e = ap (λ (r : Read (Option VideoPacket) (Source D F B)). result none m r) e

  -- When the file has ended, the next frame of the loop has the timestamp that the session's fields
  -- say, if `av_rescale_q` takes 0 to 0.
  loop_from_fields :
      (m t u : Source D F B) (vp : VideoPacket) (s : S)
      → Rescales ff
      → Opened m
      → m.prefetch_vp ≡ none
      → s.pending_vp ≡ none
      → read_packet ff fuel m ≡ ended none t
      → read_packet ff fuel (seek ff (u32 (s.last_video_rtp + value_or s.last_frame_dur)) t)
        ≡ ended (some vp) u
      → (again : S) × (read_frame env m s ≡ ends again)
        × (again.media_source
            ≡ some (seek ff (u32 (s.last_video_rtp + value_or s.last_frame_dur)) t))
        × (read_frame env (seek ff (u32 (s.last_video_rtp + value_or s.last_frame_dur)) t) again
            ≡ admit env vp (record again { media_source = some u }))
        × (vp.rtp_timestamp ≡ u32 (s.last_video_rtp + value_or s.last_frame_dur))
  unfolding after_read loop_back
  loop_from_fields m t u vp s z o p q e k =
      let n = u32 (s.last_video_rtp + value_or s.last_frame_dur) in
      let (o', p') = read_packet-Opened ff fuel o p e in
      (
        loop_back env t s,
        read_frame-after_read m s q ∙ ap (λ r. after_read r s) (reads m t none e),
        refl,
        read_frame-after_read (seek ff n t) (loop_back env t s) q
            ∙ ap (λ r. after_read r (loop_back env t s)) (reads (seek ff n t) u (some vp) k),
        first_after_seek ff n fuel z (omega arith) o' p' k,
      )

  -- After a frame at `t1` the frame `last`, at a later time, was sent, both times neither 0 nor past
  -- 2^32. When the file has ended then, the next frame of the loop has the timestamp of `last` and
  -- the distance of the two frames on top, modulo 2^32, if `av_rescale_q` takes 0 to 0.
  pub loop_continues :
      (m t u : Source D F B) (last vp : VideoPacket) (s : S)
      → Rescales ff
      → Opened m
      → m.prefetch_vp ≡ none
      → s.last_video_rtp ≢ 0
      → s.last_video_rtp < last.rtp_timestamp
      → last.rtp_timestamp < 4294967296
      → read_packet ff fuel m ≡ ended none t
      → let n = u32 (last.rtp_timestamp + (last.rtp_timestamp - s.last_video_rtp)) in
        read_packet ff fuel (seek ff n t) ≡ ended (some vp) u
        → (again : S) × (read_frame env m (track env m last s) ≡ ends again)
          × (again.media_source ≡ some (seek ff n t))
          × (read_frame env (seek ff n t) again
              ≡ admit env vp (record again { media_source = some u }))
          × (vp.rtp_timestamp ≡ n)
  unfolding track
  loop_continues m t u last vp s z o p some_time later fits e k =
      let s' = track env m last s in
      let d : value_or s'.last_frame_dur ≡ last.rtp_timestamp - s.last_video_rtp = ground arith in
      subst
        (λ n.
          (read_packet ff fuel (seek ff n t) ≡ ended (some vp) u)
          → (again : S) × (read_frame env m (track env m last s) ≡ ends again)
            × (again.media_source ≡ some (seek ff n t))
            × (read_frame env (seek ff n t) again
                ≡ admit env vp (record again { media_source = some u }))
            × (vp.rtp_timestamp ≡ n))
        (ap (λ x. u32 (last.rtp_timestamp + x)) d) (loop_from_fields m t u vp s' z o p refl e) k
