-- ===== src/Media/Source/Seeking.antt =====
-- src/media/MediaSource.cpp: `seek`, `seekToSeconds`, `adjustRTPOffset` and `duration`.
use rtsp_server.Prelude.{
  ℕ, zero, suc, ◌+◌, Bool, true, false, ◌&&◌, [], Option, none, some, ltb, if◌then◌else◌,
}
use rtsp_server.Prelude.Bits.{u32}
use rtsp_server.Prelude.Numbers.{ℤ, pos}
use rtsp_server.Sdp.{AudioStreamInfo}
use rtsp_server.Media.Ffmpeg.{no_pts, Ffmpeg}
use rtsp_server.Media.Source.{
  Source, Read, ended, crashes, runs_on, is_no_pts, pts_of, to_u32, map_option, is_index,
  av_time_base, hz,
}

-- The source after a call that has ended, or the one from before.
abbrev pub sought : {A S : Type 0} → S → Read A S → S
sought s (ended a t) = t
sought s runs_on = s
sought s crashes = s

module _ {D F B : Type 0} (ff : Ffmpeg D F B) where
  unfoldable pub flush_filter : Source D F B → Source D F B
  flush_filter s = record s { bsf_ctx = map_option ff.flush s.bsf_ctx }

  -- `static_cast<uint32_t>(static_cast<double>(n) / 90000.0 * sample_rate)`.
  unfoldable pub to_audio_rate : ℕ → AudioStreamInfo → ℕ
  to_audio_rate n info =
      let d = ff.doubles in
      d.to_u32 (d.mul (d.div (d.of_u32 n) (d.of_u32 90000)) (d.of_u32 info.sample_rate))

  abbrev pub has_rate : AudioStreamInfo → Bool
  has_rate info = info.present && ltb 0 info.sample_rate

  unfoldable pub seek_open : ℕ → Option F → Source D F B → Source D F B
  seek_open offset none s = s
  seek_open offset (some f) s = record (flush_filter s) {
    fmt_ctx = some (ff.seek_frame s.video_idx (pos 0) f).1;
    rtp_offset = offset;
    first_pts = no_pts;
    bsf_at_eof = false;
    audio_first_pts = no_pts;
    audio_rtp_offset = if has_rate s.audio_info then to_audio_rate offset s.audio_info else 0;
    audio_queue = [];
  }

  unfoldable pub seek : ℕ → Source D F B → Source D F B
  seek offset s = seek_open offset s.fmt_ctx s

  -- The probe for the time of the key frame: at most so many frames are read.
  unfoldable pub probe : ℕ → Option ℕ → ℤ → F → ℤ × F
  probe zero video target f = (target, f)
  probe (suc n) video target f =
      let r = ff.read_frame f in
      elim r.0 [
        | none ↦ (target, r.1)
        | some p ↦ elim (is_index video p.stream_index) [
          | true ↦ (pts_of p, r.1)
          | false ↦ probe n video target r.1
        ]
      ]

  -- The failed seek: to the start, with no more reset than this.
  unfoldable pub rewind : F → Source D F B → Source D F B
  rewind f s = record (flush_filter s) {
    fmt_ctx = some (ff.seek_frame s.video_idx (pos 0) f).1;
    bsf_at_eof = false;
    rtp_offset = 0;
    first_pts = no_pts;
  }

  -- The packet of the probe is used unchecked: without the memory, `av_read_frame` gets a null pointer.
  unfoldable pub land_with : Bool → ℤ → F → Source D F B → Read D (Source D F B)
  land_with false target f s = crashes
  land_with true target f s =
      let d = ff.doubles in
      let r = probe 256 s.video_idx target f in
      let f' = (ff.seek_frame s.video_idx r.0 r.1).1 in
      let base = (ff.streams f' s.video_idx).time_base in
      let secs = d.mul (d.of_i64 r.0) (ff.q2d base) in
      ended secs (record (flush_filter s) {
        fmt_ctx = some f';
        bsf_at_eof = false;
        rtp_offset = to_u32 (ff.rescale r.0 base (hz 90000));
        first_pts = no_pts;
        audio_first_pts = no_pts;
        audio_rtp_offset = d.to_u32 (d.mul secs (d.of_u32 s.audio_info.sample_rate));
        audio_queue = [];
      })

  unfoldable pub land : ℤ → F → Source D F B → Read D (Source D F B)
  unfolding land_with
  land target f s = land_with ff.alloc_probe target f s

  -- After the seek to the target.
  unfoldable pub after_seek : ℤ → Bool × F → Source D F B → Read D (Source D F B)
  after_seek target (true, f) s = land target f s
  after_seek target (false, f) s = ended ff.doubles.zero_d (rewind f s)

  unfoldable pub seek_in : D → F → Source D F B → Read D (Source D F B)
  seek_in secs f s =
      let d = ff.doubles in
      let s' = flush_filter s in
      let base = (ff.streams f s.video_idx).time_base in
      let target =
        ff.rescale (d.to_i64 (d.mul secs (d.of_u32 av_time_base))) (hz av_time_base) base in
      after_seek target (ff.seek_frame s.video_idx target f) s'

  -- By whether the position is negative.
  unfoldable pub seek_at : Bool → D → F → Source D F B → Read D (Source D F B)
  seek_at true secs f s = ended ff.doubles.zero_d (seek 0 s)
  seek_at false secs f s = seek_in secs f s

  unfoldable pub seek_from : D → Option F → Source D F B → Read D (Source D F B)
  seek_from secs none s = ended ff.doubles.zero_d (seek 0 s)
  seek_from secs (some f) s = seek_at (ff.doubles.lt secs ff.doubles.zero_d) secs f s

  unfoldable pub seek_to_seconds : D → Source D F B → Read D (Source D F B)
  seek_to_seconds secs s = seek_from secs s.fmt_ctx s

  unfoldable pub adjust_rtp_offset : ℕ → Source D F B → Source D F B
  adjust_rtp_offset delta s = record s {
    rtp_offset = u32 (s.rtp_offset + delta);
    audio_rtp_offset =
        if has_rate s.audio_info
        then u32 (s.audio_rtp_offset + to_audio_rate delta s.audio_info)
        else s.audio_rtp_offset;
  }

  unfoldable pub duration_of : Option F → D
  duration_of none = ff.doubles.zero_d
  duration_of (some f) =
      if is_no_pts (ff.duration f)
      then ff.doubles.zero_d
      else ff.doubles.div (ff.doubles.of_i64 (ff.duration f)) (ff.doubles.of_u32 av_time_base)

  unfoldable pub duration : Source D F B → D
  duration s = duration_of s.fmt_ctx
