-- ===== src/Media/Source/Rounds.antt =====
-- The rounds of the loop in `readPacket`, as steps with the frames that they take from the container.
use rtsp_server.Prelude.{
  ◌≡◌, refl, sym, ap, ◌∙◌, Bool, true, false, [], ◌∷◌, List, Option, none, some, if-elim,
}
use rtsp_server.Media.Packets.{VideoPacket}
use rtsp_server.Media.Ffmpeg.{AvPacket, Received, packet, needs_input, at_end, failed, Ffmpeg}
use rtsp_server.Media.Source.{Source, Round, ends, goes_on, is_some, is_index}
use rtsp_server.Media.Source.Reading.{
  process_packet, pass_over, take_frame, at_container_end, after_frame, demux, after_receive,
  round_of, round,
}

module _ {D F B : Type 0} where
  -- An open file.
  pub record Opened (s : Source D F B) : Type 0 where
    pub has_container : is_some s.fmt_ctx ≡ true
    pub has_packet : s.pkt ≡ true
    pub has_video : is_some s.video_idx ≡ true

absurd_bool {ℓ} : {A : Type ℓ} → ◌≡◌ {A = Bool} false true → A
absurd_bool e = cc

module _ {D F B : Type 0} (ff : Ffmpeg D F B) where
  -- A round after which the loop goes on: a frame goes to the filter or is passed over, or the
  -- filter is flushed at the end of the container, once.
  pub data Pass (s : Source D F B) : List AvPacket → Source D F B → Type 0 where
    filtered :
        {f : F} (p : AvPacket) (b : Option B)
        → s.fmt_ctx ≡ some f
        → (ff.read_frame f).0 ≡ some p
        → is_index s.video_idx p.stream_index ≡ true
        → Pass s (p ∷ []) (record s { fmt_ctx = some (ff.read_frame f).1; bsf_ctx = b })
    passed :
        {f : F} (p : AvPacket) (b : Option B)
        → s.fmt_ctx ≡ some f
        → (ff.read_frame f).0 ≡ some p
        → is_index s.video_idx p.stream_index ≡ false
        → Pass s
            (p ∷ [])
            (pass_over ff p (record s { fmt_ctx = some (ff.read_frame f).1; bsf_ctx = b }))
    flushed :
        {f : F} (b : B)
        → s.fmt_ctx ≡ some f
        → (ff.read_frame f).0 ≡ none
        → s.bsf_at_eof ≡ false
        → Pass s []
            (record s { fmt_ctx = some (ff.read_frame f).1; bsf_ctx = some b; bsf_at_eof = true })

  -- The round in which the call returns.
  pub data Ending (s : Source D F B)
      : List AvPacket → Option VideoPacket → Source D F B → Type 0 where
    drained : (b : Option B) → Ending s [] none (record s { bsf_ctx = b })
    over :
        {f : F} (b : Option B)
        → s.fmt_ctx ≡ some f
        → (ff.read_frame f).0 ≡ none
        → Ending s [] none (record s { fmt_ctx = some (ff.read_frame f).1; bsf_ctx = b })
    refused :
        {f : F} (p : AvPacket) (b : Option B)
        → s.fmt_ctx ≡ some f
        → (ff.read_frame f).0 ≡ some p
        → is_index s.video_idx p.stream_index ≡ true
        → Ending s (p ∷ []) none (record s { fmt_ctx = some (ff.read_frame f).1; bsf_ctx = b })
    taken :
        {f : F} (p : AvPacket) (b : Option B) (s' : Source D F B)
        → s.fmt_ctx ≡ some f
        → (ff.read_frame f).0 ≡ some p
        → is_index s.video_idx p.stream_index ≡ true
        → s' ≡ record s { fmt_ctx = some (ff.read_frame f).1; bsf_ctx = b }
        → Ending s (p ∷ []) (process_packet ff p s').0 (process_packet ff p s').1
    received :
        (p : AvPacket) (b : Option B) (s' : Source D F B)
        → s' ≡ record s { bsf_ctx = b }
        → Ending s [] (process_packet ff p s').0 (process_packet ff p s').1

  -- A round does not meet a null pointer.
  pub data Rounds (s : Source D F B) : Round (Source D F B) → Type 0 where
    on : {fs : List AvPacket} {s' : Source D F B} → Pass s fs s' → Rounds s (goes_on s')
    out :
        {fs : List AvPacket} {o : Option VideoPacket} {s' : Source D F B}
        → Ending s fs o s'
        → Rounds s (ends o s')

  take_frame-Rounds :
      {f : F} (p : AvPacket) (c : Option B) (s : Source D F B) (b : Option B)
      → s.fmt_ctx ≡ some f
      → (ff.read_frame f).0 ≡ some p
      → is_index s.video_idx p.stream_index ≡ true
      → Rounds s (take_frame ff p c (record s { fmt_ctx = some (ff.read_frame f).1; bsf_ctx = b }))
  unfolding take_frame
  take_frame-Rounds p none s b e r v = out (taken p b _ e r v refl)
  take_frame-Rounds p (some c) s b e r v =
      if-elim (Rounds s) (ff.send_packet (some p) c).0
        (λ _. on (filtered p (some (ff.send_packet (some p) c).1) e r v))
        (λ _. out (refused p (some (ff.send_packet (some p) c).1) e r v))

  at_container_end-Rounds :
      {f : F} (c : Option B) (s : Source D F B) (b : Option B)
      → s.fmt_ctx ≡ some f
      → (ff.read_frame f).0 ≡ none
      → (is_some c ≡ true → s.bsf_at_eof ≡ false)
      → Rounds s
          (at_container_end ff c (record s { fmt_ctx = some (ff.read_frame f).1; bsf_ctx = b }))
  unfolding at_container_end
  at_container_end-Rounds none s b e r h = out (over b e r)
  at_container_end-Rounds (some c) s b e r h = on (flushed (ff.send_packet none c).1 e r (h refl))

  after_frame-Rounds :
      {f : F} (o : Option AvPacket) (s : Source D F B) (b : Option B)
      → s.fmt_ctx ≡ some f
      → (ff.read_frame f).0 ≡ o
      → (is_some b ≡ true → s.bsf_at_eof ≡ false)
      → Rounds s (after_frame ff o (record s { fmt_ctx = some (ff.read_frame f).1; bsf_ctx = b }))
  unfolding after_frame
  after_frame-Rounds none s b e r h = at_container_end-Rounds b s b e r h
  after_frame-Rounds (some p) s b e r h =
      if-elim (Rounds s) (is_index s.video_idx p.stream_index)
        (λ v. take_frame-Rounds p b s b e r v) (λ v. on (passed p b e r v))

  demux-Rounds :
      (o : Option F) (s : Source D F B) (b : Option B)
      → s.fmt_ctx ≡ o
      → is_some o ≡ true
      → (is_some b ≡ true → s.bsf_at_eof ≡ false)
      → Rounds s (demux ff o (record s { bsf_ctx = b }))
  unfolding demux
  demux-Rounds none s b e i h = absurd_bool i
  demux-Rounds (some f) s b e i h = after_frame-Rounds (ff.read_frame f).0 s b e refl h

  after_receive-Rounds :
      (r : Received) (s : Source D F B) (b : B)
      → Opened s
      → Rounds s (after_receive ff r (record s { bsf_ctx = some b }))
  unfolding after_receive
  after_receive-Rounds (packet p) s b o = out (received p (some b) _ refl)
  after_receive-Rounds at_end s b o = out (drained (some b))
  after_receive-Rounds failed s b o = out (drained (some b))
  after_receive-Rounds needs_input s b o =
      if-elim (Rounds s) s.bsf_at_eof (λ _. out (drained (some b)))
        (λ e. demux-Rounds s.fmt_ctx s (some b) refl o.has_container (λ _. e))

  round_of-Rounds :
      (b : Option B) (s : Source D F B) → s.bsf_ctx ≡ b → Opened s → Rounds s (round_of ff b s)
  unfolding round_of
  round_of-Rounds none s e o =
      demux-Rounds s.fmt_ctx s s.bsf_ctx refl o.has_container
        (λ i. absurd_bool (sym (ap is_some e) ∙ i))
  round_of-Rounds (some b) s e o =
      after_receive-Rounds (ff.receive_packet b).0 s (ff.receive_packet b).1 o

  pub round-Rounds : (s : Source D F B) → Opened s → Rounds s (round ff s)
  unfolding round
  round-Rounds s o = round_of-Rounds s.bsf_ctx s refl o
