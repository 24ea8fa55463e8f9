-- ===== src/Session/Pacer/Keyframes.antt =====
-- What a tick sends first, after a seek and at the start.
use rtsp_server.Prelude.{
  ℕ, ◌≡◌, refl, ◌∙◌, ◌⊎◌, inl, inr, true, false, Option, none, some, if-elim, arith, if◌then◌else◌,
  Bool-cases, Option-cases,
}
use rtsp_server.Prelude.Numbers.{ℤ}
use rtsp_server.Media.Packets.{VideoPacket}
use rtsp_server.Session.State.{State, init, ready, playing, paused, Session, Env}
use rtsp_server.Session.Sending.{is_empty}
use rtsp_server.Session.Pacer.{
  ends, goes_on, idle, streams, settle, gate, loop_back, admit, read_frame, after_read, after_gate,
  stream,
}

module _ {M D : Type 0} (env : Env M D) where
  -- Nothing was sent, and the session still waits for its first frame.
  pub record Waits (s s' : Session M D) : Type 0 where
    pub video_kept : s'.video_sent ≡ s.video_sent
    pub audio_kept : s'.audio_sent ≡ s.audio_sent
    pub outbox_kept : s'.outbox ≡ s.outbox
    pub still_first : s'.first_frame ≡ true

  -- The source's next frame is a key frame.
  pub KeyNext : Session M D → Type 0
  KeyNext s =
      (m : M) × (vp : VideoPacket) × (s.media_source ≡ some m)
      × ((env.read_packet m).0 ≡ some vp)
      × (vp.is_key_frame ≡ true)

  pub Starts : Session M D → Session M D → Type 0
  Starts s s' = Waits s s' ⊎ KeyNext s

  idle-Waits :
      (now : ℤ) (a : State) (s : Session M D) → s.first_frame ≡ true → Waits s (idle env now a s)
  unfolding idle
  idle-Waits now paused s f = record {
    video_kept = refl;
    audio_kept = refl;
    outbox_kept = refl;
    still_first = f;
  }
  idle-Waits now init s f = record {
    video_kept = refl;
    audio_kept = refl;
    outbox_kept = refl;
    still_first = f;
  }
  idle-Waits now ready s f = record {
    video_kept = refl;
    audio_kept = refl;
    outbox_kept = refl;
    still_first = f;
  }
  idle-Waits now playing s f = record {
    video_kept = refl;
    audio_kept = refl;
    outbox_kept = refl;
    still_first = f;
  }

  -- A state that goes on from another with no frame held.
  record Cleared (s s' : Session M D) : Type 0 where
    waits : Waits s s'
    empty : s'.pending_vp ≡ none

  settle-Cleared : (now : ℤ) (s : Session M D) → s.first_frame ≡ true → Cleared s (settle env now s)
  unfolding settle
  settle-Cleared now s f = record {
    waits = record { video_kept = refl; audio_kept = refl; outbox_kept = refl; still_first = f };
    empty = rw (f, if◌then◌else◌) refl;
  }

  gate-Cleared : (s : Session M D) → s.pending_vp ≡ none → gate env s ≡ goes_on s
  unfolding gate
  gate-Cleared s e = ground (arith, e)

  admit-gated :
      (vp : VideoPacket) (s : Session M D)
      → s.first_frame ≡ true
      → vp.is_key_frame ≡ false
      → admit env vp s ≡ ends s
  unfolding admit
  admit-gated vp s f k = elim (Bool-cases (is_empty vp.nals)) [
    | inl e ↦ simp (e, f, k)
    | inr e ↦ simp (e, f, k)
  ]

  read_frame-none :
      (m : M) (s : Session M D)
      → s.pending_vp ≡ none
      → (env.read_packet m).0 ≡ none
      → read_frame env m s ≡ ends (loop_back env (env.read_packet m).1 s)
  unfolding read_frame
  read_frame-none m s e r = ground (arith, e, r)

  read_frame-some :
      (m : M) (vp : VideoPacket) (s : Session M D)
      → s.pending_vp ≡ none
      → (env.read_packet m).0 ≡ some vp
      → read_frame env m s ≡ admit env vp (record s { media_source = some (env.read_packet m).1 })
  unfolding read_frame
  read_frame-some m vp s e r = ground (arith, e, r)

  Waits-trans : (s s' s'' : Session M D) → Waits s s' → Waits s' s'' → Waits s s''
  Waits-trans s s' s'' a b = record {
    video_kept = b.video_kept ∙ a.video_kept;
    audio_kept = b.audio_kept ∙ a.audio_kept;
    outbox_kept = b.outbox_kept ∙ a.outbox_kept;
    still_first = b.still_first;
  }

  loop_back-Waits : (m : M) (s : Session M D) → Waits s (loop_back env m s)
  unfolding loop_back
  loop_back-Waits m s = record {
    video_kept = refl;
    audio_kept = refl;
    outbox_kept = refl;
    still_first = refl;
  }

  -- Reading the first frame, from a state in which none is held.
  read-Starts :
      (fuel : ℕ) (now : ℤ) (m : M) (s : Session M D)
      → s.first_frame ≡ true
      → s.pending_vp ≡ none
      → Waits s (after_read env fuel now (read_frame env m s))
        ⊎ ((vp : VideoPacket) × ((env.read_packet m).0 ≡ some vp) × (vp.is_key_frame ≡ true))
  unfolding after_read
  read-Starts fuel now m s f e = elim (Option-cases (env.read_packet m).0) [
    | inl r ↦ inl (rw (read_frame-none m s e r) (loop_back-Waits (env.read_packet m).1 s))
    | inr (vp, r) ↦ elim (Bool-cases vp.is_key_frame) [
      | inl k ↦ inr (vp, r, k)
      | inr k ↦
          let s' = record s { media_source = some (env.read_packet m).1 } in
          inl (
            rw (read_frame-some m vp s e r, admit-gated vp s' f k)
              (record {
                video_kept = refl;
                audio_kept = refl;
                outbox_kept = refl;
                still_first = f;
              }))
    ]
  ]

  streamed :
      (fuel : ℕ) (now : ℤ) (s : Session M D) (m : M)
      → s.media_source ≡ some m
      → s.first_frame ≡ true
      → Starts s (after_gate env fuel now m (gate env (settle env now s)))
  unfolding after_gate Starts KeyNext
  streamed fuel now s m e f =
      let c = settle-Cleared now s f in
      let s' = settle env now s in
      elim (read-Starts fuel now m s' c.waits.still_first c.empty) [
        | inl w ↦ inl (rw (gate-Cleared s' c.empty) (Waits-trans s s' _ c.waits w))
        | inr (vp, r, k) ↦ inr (m, vp, e, r, k)
      ]

  -- A session that waits for its first frame, at the start or after a seek, sends nothing in a tick
  -- and goes on waiting, unless the next frame of its source is a key frame.
  pub stream-Starts :
      (fuel : ℕ) (now : ℤ) (s : Session M D)
      → s.first_frame ≡ true
      → Starts s (stream env fuel now s)
  unfolding stream Starts
  stream-Starts fuel now s f =
      let next : Option M → Session M D = λ o. elim o as (λ _. Session M D) [
        | none ↦ s
        | some m ↦ after_gate env fuel now m (gate env (settle env now s))
      ] in
      let sourced : (o : Option M) → s.media_source ≡ o → Starts s (next o) = λ o e.
        elim o as (λ o. s.media_source ≡ o → Starts s (next o)) [
          | none ↦ λ e.
              inl (record {
                video_kept = refl;
                audio_kept = refl;
                outbox_kept = refl;
                still_first = f;
              })
          | some m ↦ λ e. streamed fuel now s m e f
        ]
          e in
      if-elim (λ s'. Waits s s' ⊎ KeyNext s) (streams env s.state s)
        (λ _. sourced s.media_source refl) (λ _. inl (idle-Waits now s.state s f))
