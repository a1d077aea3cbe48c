-- ===== src/Ptt/OnDmrd.antt =====
-- dmr-wire/src/voice/ptt.rs: `on_dmrd` keeps the outputs in place for the state it leaves.
use asl_dmr_bridge.Base.{
  ℕ, ◌≡◌, refl, arith, Bool, true, false, not, ◌&&◌, some, inl, inr, ◌==◌, Bool-cases, ==_iff, sym,
}
use mathlib.Core.Path.{subst}
use asl_dmr_bridge.Dmrd.{Dmrd, FrameType, voice, voice_sync, data_sync}
use asl_dmr_bridge.Events.{dmr_to_fm, normal}
use asl_dmr_bridge.Voice.{matches_config, data_type_voice_header, data_type_voice_terminator}
use asl_dmr_bridge.Ptt.Machine.{Codec, Env, RxCall, PttState, idle, rx, rx_hang, tx, PttMachine}
use asl_dmr_bridge.Ptt.View.{Shows, Allows, Consistent}
use asl_dmr_bridge.Ptt.Steps.{Shows-Consistent, weaken, set_state-Shows}
use asl_dmr_bridge.Ptt.Moves.{drops-Shows}
use asl_dmr_bridge.Ptt.Receiving.{
  Received, end_rx-Shows, cleared_end-Shows, start_rx-Shows, opened-Shows, play_burst-Shows,
}
use asl_dmr_bridge.Ptt.Rx.{
  call_of, seq_gap, is_tx, tx_only, on_header, start_rx, on_terminator, track_voice, on_voice,
  by_frame_type, on_dmrd,
}
use asl_dmr_bridge.Ptt.Handlers.{Event, control, dmrd}

-- A call is received in the state, and its stream is not this one.
abbrev pub other_stream : ℕ → PttState → Bool
other_stream stream (rx call) = not (call.stream_id == stream)
other_stream stream _ = false

abbrev pub receiving : PttState → Bool
receiving (rx call) = true
receiving _ = false

abbrev pub is_header : FrameType → ℕ → Bool
is_header data_sync dtype = dtype == data_type_voice_header
is_header _ dtype = false

-- The two events that end a received call without its outputs: a reset of the network, and the
-- header of another stream that is addressed to us.
unfoldable pub disrupts : {codec : Codec} → Event → PttMachine codec → Bool
disrupts control m = receiving m.state
disrupts (dmrd pkt) m =
    not (tx_only m.config.gateway)
    && (matches_config pkt m.config
        && (is_header pkt.frame_type pkt.dtype_vseq && other_stream pkt.stream_id m.state))
disrupts _ m = false

-- What is left of that for a packet that is taken.
taken : (a b c : Bool) → (not a && (b && c)) ≡ false → a ≡ false → not b ≡ false → c ≡ false
taken a b c d e f = ground arith

module _ {codec : Codec} where
  -- A consistent machine in a state that is known.
  pub known :
      (s : PttState) (m : PttMachine codec) → m.state ≡ s → Consistent m → Shows (Allows s) s m
  known s m e h = subst (λ t. Shows (Allows t) t m) e h

  pub rx_Received :
      (call : RxCall) (m : PttMachine codec)
      → Shows (Allows (rx call)) (rx call) m
      → Shows (Received call.stream_id) (rx call) m
  rx_Received call m h = weaken m (λ v p. (p.0, p.1)) h

  same_stream :
      (a b : ℕ) (t : PttState) (m : PttMachine codec)
      → a ≡ b
      → Shows (Received a) t m
      → Shows (Received b) t m
  same_stream a b t m e h = subst (λ n. Shows (Received n) t m) e h

  -- A header of another stream is excluded, and one of the same stream changes nothing.
  on_header-Shows :
      (env : Env) (pkt : Dmrd) (s : PttState) (m : PttMachine codec)
      → is_tx s ≡ false
      → other_stream pkt.stream_id s ≡ false
      → Shows (Allows s) s m
      → Consistent (on_header env pkt s m)
  unfolding on_header
  on_header-Shows env pkt idle m a b h = start_rx-Shows env pkt m (weaken m (λ v p. (p.0, p.1)) h)
  on_header-Shows env pkt (rx_hang u) m a b h =
      start_rx-Shows env pkt m (weaken m (λ v p. (p.0, p.1)) h)
  on_header-Shows env pkt (tx call) m a b h = absurd_true a
    where
      absurd_true : true ≡ false → Consistent (start_rx env pkt m)
      absurd_true e = ground arith
  on_header-Shows env pkt (rx call) m a b h = elim (Bool-cases (call.stream_id == pkt.stream_id)) [
    | inl e ↦ simp e (Shows-Consistent m h)
    | inr e ↦ ground arith
  ]

  on_terminator-Shows :
      (env : Env) (pkt : Dmrd) (s : PttState) (m : PttMachine codec)
      → Shows (Allows s) s m
      → Consistent (on_terminator env pkt s m)
  unfolding on_terminator
  on_terminator-Shows env pkt idle m h = Shows-Consistent m h
  on_terminator-Shows env pkt (rx_hang u) m h = Shows-Consistent m h
  on_terminator-Shows env pkt (tx call) m h = Shows-Consistent m h
  on_terminator-Shows env pkt (rx call) m h = elim (Bool-cases (call.stream_id == pkt.stream_id)) [
    | inl e ↦ simp e (
        Shows-Consistent _ (
          set_state-Shows _ _ (
            weaken _ (λ v p. p)
              (cleared_end-Shows normal pkt.stream_id call.stream_id m (rx_Received call m h)))))
    | inr e ↦ simp e (Shows-Consistent m h)
  ]

  -- A voice burst leaves the call of its own stream open.
  unfoldable pub Tracked : ℕ → PttMachine codec → Type 0
  Tracked stream m = (c : RxCall) × (stream ≡ c.stream_id) × Shows (Received stream) (rx c) m

  track_voice-Shows :
      (env : Env) (pkt : Dmrd) (s : PttState) (m : PttMachine codec)
      → is_tx s ≡ false
      → Shows (Allows s) s m
      → Tracked pkt.stream_id (track_voice env pkt s m).0
  unfolding track_voice Tracked
  track_voice-Shows env pkt idle m a h = (
    call_of pkt env.now (some pkt.seq),
    unfold call_of in refl,
    opened-Shows pkt _ (set_state-Shows _ m (weaken m (λ v p. (p.0, p.1)) h)),
  )
  track_voice-Shows env pkt (rx_hang u) m a h = (
    call_of pkt env.now (some pkt.seq),
    unfold call_of in refl,
    opened-Shows pkt _ (set_state-Shows _ m (weaken m (λ v p. (p.0, p.1)) h)),
  )
  track_voice-Shows env pkt (tx call) m a h = ground arith
  track_voice-Shows env pkt (rx call) m a h = elim (Bool-cases (call.stream_id == pkt.stream_id)) [
    | inl e ↦ simp e (
      record call { last_seq = some pkt.seq; last_voice = env.now },
      sym ((==_iff call.stream_id pkt.stream_id).0 e),
      drops-Shows dmr_to_fm (λ v p. p.0) (seq_gap call.last_seq pkt.seq) _
          (set_state-Shows _ m (
            same_stream _ _ _ m ((==_iff call.stream_id pkt.stream_id).0 e)
              (rx_Received call m h))),
    )
    | inr e ↦ simp e (
      call_of pkt env.now (some pkt.seq),
      unfold call_of in refl,
      opened-Shows pkt _ (
          weaken _ (λ v p. p.0)
            (end_rx-Shows (λ b. Unit) normal call.stream_id call.stream_id _
              (weaken _ (λ v p. (p, tt)) (set_state-Shows _ m (rx_Received call m h))))),
    )
  ]

  pub on_voice-Tracked :
      (env : Env) (pkt : Dmrd) (m : PttMachine codec)
      → is_tx m.state ≡ false
      → Consistent m
      → Tracked pkt.stream_id (on_voice env pkt m)
  unfolding on_voice Tracked
  on_voice-Tracked env pkt m a h =
      let (c, e, t) = track_voice-Shows env pkt m.state m a h in
      (c, e, play_burst-Shows env pkt _ _ t)

  on_voice-Shows :
      (env : Env) (pkt : Dmrd) (m : PttMachine codec)
      → is_tx m.state ≡ false
      → Consistent m
      → Consistent (on_voice env pkt m)
  unfolding Tracked
  on_voice-Shows env pkt m a h =
      let (c, e, t) = on_voice-Tracked env pkt m a h in
      Shows-Consistent _ (weaken _ (λ v p. (p.0, p.1)) (same_stream _ _ _ _ e t))

  by_frame_type-Shows :
      (env : Env) (pkt : Dmrd) (ft : FrameType) (m : PttMachine codec)
      → is_tx m.state ≡ false
      → (is_header ft pkt.dtype_vseq && other_stream pkt.stream_id m.state) ≡ false
      → Consistent m
      → Consistent (by_frame_type env pkt ft m)
  unfolding by_frame_type
  by_frame_type-Shows env pkt voice m a d h = on_voice-Shows env pkt m a h
  by_frame_type-Shows env pkt voice_sync m a d h = on_voice-Shows env pkt m a h
  by_frame_type-Shows env pkt data_sync m a d h =
      elim (Bool-cases (pkt.dtype_vseq == data_type_voice_header)) [
        | inl e ↦ simp e (
            on_header-Shows env pkt m.state m a
              (subst (λ b. (b && other_stream pkt.stream_id m.state) ≡ false) e d) h)
        | inr e ↦ elim (Bool-cases (pkt.dtype_vseq == data_type_voice_terminator)) [
          | inl t ↦ simp (e, t) (on_terminator-Shows env pkt m.state m h)
          | inr t ↦ simp (e, t) h
        ]
      ]

  -- A packet is taken in order unless it is the header of another stream.
  pub on_dmrd-Consistent :
      (env : Env) (pkt : Dmrd) (m : PttMachine codec)
      → disrupts (dmrd pkt) m ≡ false
      → Consistent m
      → Consistent (on_dmrd env pkt m)
  unfolding on_dmrd disrupts
  on_dmrd-Consistent env pkt m d h = elim (Bool-cases (tx_only m.config.gateway)) [
    | inl e ↦ simp e h
    | inr e ↦ elim (Bool-cases (not (matches_config pkt m.config))) [
      | inl f ↦ simp (e, f) h
      | inr f ↦ elim (Bool-cases (is_tx m.state)) [
        | inl g ↦ simp (e, f, g) h
        | inr g ↦
            simp (e, f, g) (by_frame_type-Shows env pkt pkt.frame_type m g (taken _ _ _ d e f) h)
      ]
    ]
  ]
