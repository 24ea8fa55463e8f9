-- ===== src/Tests/Sounds.antt =====
-- The audio of a tick.
use rtsp_server.Prelude.{ℕ, true, false, ◌≡◌, refl, arith, [], ◌∷◌, Option, none, some}
use rtsp_server.Prelude.Numbers.{pos, ◌+ℤ◌}
use rtsp_server.Media.Packets.{AudioPacket}
use rtsp_server.Session.State.{playing, Env}
use rtsp_server.Session.Pacer.{audio_due, audio_loop}
use rtsp_server.Session.Pacer.Audio.{
  done, gives, none_left, due, early, stopped, send_each, audio_loop_lem,
}
use rtsp_server.Tests.World.{Frames, world, streaming, key_frame, plain_frame}

abbrev sound : ℕ → AudioPacket
sound ts = record { payload = 33 ∷ 16 ∷ []; rtp_timestamp = ts }

abbrev next_sound : Frames → Option AudioPacket × Frames
next_sound [] = (none, [])
next_sound (f ∷ fs) = (some (sound f.rtp_timestamp), fs)

-- A source with a packet of audio for each of its frames.
abbrev sounding : Env Frames ℕ
sounding = record world { read_audio_packet = next_sound }

abbrev frames : Frames
frames = key_frame ∷ plain_frame ∷ []

first_due : audio_due sounding (pos 100) 1000 (sound 0) (streaming playing) ≡ true
unfolding audio_due ◌+ℤ◌
first_due = refl

second_early : audio_due sounding (pos 100) 1000 (sound 3000) (streaming playing) ≡ false
unfolding audio_due ◌+ℤ◌
second_early = refl

audio_loop_lem_example :
    audio_loop sounding 5 (pos 100) 1000 frames (streaming playing)
    ≡ stopped [] (some (sound 3000)) (send_each (sound 0 ∷ []) (streaming playing))
audio_loop_lem_example =
    audio_loop_lem sounding 5 (pos 100) 1000 frames (plain_frame ∷ []) (sound 0 ∷ [])
      (some (sound 3000)) (streaming playing) (omega arith) (gives (sound 0) refl done)
      (due first_due none_left) refl (early second_early)
