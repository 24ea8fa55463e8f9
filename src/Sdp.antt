-- ===== src/Sdp.antt =====
-- src/sdp/SDPBuilder.cpp: the session description. Widths, rates and channel counts are `int`s that
-- FFmpeg reports, and not negative.
use rtsp_server.Prelude.{ℕ, ◌+◌, ◌/◌, ◌%◌, Bool, false, [], ◌∷◌, ◌++◌, List, ltb, if◌then◌else◌}
use rtsp_server.Prelude.Bits.{Bytes}
use rtsp_server.Prelude.Text.{codes}
use rtsp_server.Prelude.Numbers.{to_string}
use rtsp_server.Utils.StringUtils.{base64_encode}
use rtsp_server.Doubles.{Doubles}

pub record H264StreamInfo (D : Type 0) : Type 0 where
  pub sps : Bytes
  pub pps : Bytes
  pub width : ℕ
  pub height : ℕ
  pub frame_rate : D
  pub duration_secs : D

pub record AudioStreamInfo : Type 0 where
  pub present : Bool
  pub sample_rate : ℕ
  pub channels : ℕ
  pub asc : Bytes

abbrev pub no_audio : AudioStreamInfo
no_audio = record { present = false; sample_rate = 44100; channels = 2; asc = [] }

hex_upper : ℕ → ℕ
hex_upper d = if ltb d 10 then b'0' + d else 55 + d

hex_lower : ℕ → ℕ
hex_lower d = if ltb d 10 then b'0' + d else 87 + d

-- Every line ends in CRLF.
unfoldable pub end_lines : List Bytes → Bytes
end_lines [] = []
end_lines (l ∷ ls) = l ++ (13 ∷ 10 ∷ end_lines ls)

-- Two hexadecimal digits of a byte.
abbrev byte_upper : ℕ → Bytes
byte_upper b = hex_upper (b / 16) ∷ hex_upper (b % 16) ∷ []

abbrev byte_lower : ℕ → Bytes
byte_lower b = hex_lower (b / 16) ∷ hex_lower (b % 16) ∷ []

unfoldable pub profile_level_id : Bytes → Bytes
unfolding hex_upper
profile_level_id (h ∷ profile ∷ constraints ∷ level ∷ rest) =
    byte_upper profile ++ (byte_upper constraints ++ byte_upper level)
profile_level_id _ = codes "42001f"

hex_all : Bytes → Bytes
unfolding hex_lower
hex_all [] = []
hex_all (b ∷ bs) = byte_lower b ++ hex_all bs

config_of : Bytes → Bytes
unfolding hex_all
config_of [] = []
config_of (b ∷ bs) = codes ";config=" ++ hex_all (b ∷ bs)

-- The lines of the audio section, without their ends.
unfoldable pub audio_lines : AudioStreamInfo → ℕ → List Bytes
unfolding config_of
audio_lines audio audio_pt =
    (codes "m=audio 0 RTP/AVP " ++ to_string audio_pt)
    ∷ (codes "a=rtpmap:"
        ++ (to_string audio_pt
            ++ (codes " MPEG4-GENERIC/"
                ++ (to_string audio.sample_rate ++ (codes "/" ++ to_string audio.channels)))))
    ∷ (codes "a=fmtp:"
        ++ (to_string audio_pt
            ++ (codes
                  " profile-level-id=1;mode=AAC-hbr;sizelength=13;indexlength=3;indexdeltalength=3"
                ++ config_of audio.asc)))
    ∷ codes "a=control:trackID=1"
    ∷ []

module _ {D : Type 0} (d : Doubles D) where
  unfoldable pub range_lines : D → List Bytes
  range_lines duration =
      if d.lt d.zero_d duration then (codes "a=range:npt=0-" ++ d.fixed3 duration) ∷ [] else []

  unfoldable pub video_lines : H264StreamInfo D → ℕ → List Bytes
  video_lines info video_pt =
      (codes "m=video 0 RTP/AVP " ++ to_string video_pt)
      ∷ (codes "a=rtpmap:" ++ (to_string video_pt ++ codes " H264/90000"))
      ∷ (codes "a=fmtp:"
          ++ (to_string video_pt
              ++ (codes " packetization-mode=1;sprop-parameter-sets="
                  ++ (base64_encode info.sps
                      ++ (codes ","
                          ++ (base64_encode info.pps
                              ++ (codes ";profile-level-id=" ++ profile_level_id info.sps)))))))
      ∷ (codes "a=cliprect:0,0," ++ (to_string info.height ++ (codes "," ++ to_string info.width)))
      ∷ (codes "a=framesize:"
          ++ (to_string video_pt
              ++ (codes " " ++ (to_string info.width ++ (codes "-" ++ to_string info.height)))))
      ∷ codes "a=control:trackID=0"
      ∷ []

  unfoldable pub session_lines : H264StreamInfo D → Bytes → Bytes → Bytes → List Bytes
  session_lines info server_ip stream_name base_url =
      codes "v=0"
      ∷ (codes "o=- 1000 1 IN IP4 " ++ server_ip)
      ∷ (codes "s=" ++ stream_name)
      ∷ codes "c=IN IP4 0.0.0.0"
      ∷ codes "t=0 0"
      ∷ (range_lines info.duration_secs
          ++ (codes "a=recvonly"
              ∷ (codes "a=control:" ++ base_url)
              ∷ codes "a=tool:rtsp-server"
              ∷ []))

  -- The arguments, in the order of the source.
  unfoldable pub build : H264StreamInfo D → Bytes → Bytes → Bytes → ℕ → AudioStreamInfo → ℕ → Bytes
  unfolding end_lines session_lines video_lines
  build info server_ip stream_name base_url video_pt audio audio_pt =
      end_lines (session_lines info server_ip stream_name base_url)
      ++ (end_lines (video_lines info video_pt)
          ++ end_lines (if audio.present then audio_lines audio audio_pt else []))
