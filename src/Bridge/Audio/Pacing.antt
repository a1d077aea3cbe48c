-- ===== src/Bridge/Audio/Pacing.antt =====
-- bridge/src/usrp.rs: when the voice frames of a stream go out.
use asl_dmr_bridge.Base.{
  ℕ, suc, ◌+◌, ◌*◌, ◌≡◌, refl, arith, List, [], ◌∷◌, map, Bool, true, false, ◌&&◌, Option, none,
  some, ap, sym, ◌∙◌, if◌then◌else◌, ltb,
}
use mathlib.Core.Path.{subst}
use asl_dmr_bridge.Events.{PcmFrame}
use asl_dmr_bridge.Bridge.Audio.{
  Agc, Settings, Tx, Sent, TxEvent, audio, Task, running, returned, limited, tx_turn, tx_task,
  tx_audio, tx_emit, tx_count, tx_level, with_packet, due,
}

-- A voice frame, with the time at which it is taken and the lateness of the wake-up.
pub record Voice : Type 0 where
  pub now : ℕ
  pub late : ℕ
  pub pcm : PcmFrame
  pub stream : Option ℕ

abbrev pub voice_event : Voice → TxEvent
voice_event v =
    audio v.now v.late false
      (some (record { keyup = true; samples = some v.pcm; dmr_stream_id = v.stream }))

-- Frame by frame from the i-th one on, 20 ms after each other from the first one's time: a frame that is
-- early goes out when it is due, but for the lateness of the wake-up, any other at once.
abbrev pub schedule : ℕ → ℕ → List Voice → List ℕ
schedule first i [] = []
schedule first i (v ∷ vs) =
    (if ltb v.now (first + 20 * i) then first + 20 * i + v.late else v.now)
    ∷ schedule first (suc i) vs

module _ {agc_kind : Agc} (settings : Settings agc_kind) where
  abbrev Due : ℕ → ℕ → Task (Tx agc_kind) × Option Sent → Type 0
  Due at next turn =
      (s : Tx agc_kind) × (packet : List ℕ) × (turn
        ≡ (running s, some (record { at = at; packet = packet })))
      × (s.next_voice_send ≡ some next)

  count_keeps :
      (samples : Option PcmFrame) (s : Tx agc_kind)
      → (tx_count true samples s).next_voice_send ≡ s.next_voice_send
  unfolding tx_count
  count_keeps none s = refl
  count_keeps (some pcm) s = refl

  emit-Due :
      (at next : ℕ) (r : Option PcmFrame × Option agc_kind.State) (s : Tx agc_kind)
      → Due at next (tx_emit settings at (some next) true r s)
  unfolding tx_emit
  emit-Due at next (samples, agc) s =
      (_, _, refl, count_keeps (limited settings.limiter true samples) _)

  turn-Due :
      (v : Voice) (s : Tx agc_kind) (at : ℕ)
      → due v.now s.next_voice_send ≡ at
      → Due
          (if ltb v.now at then at + v.late else v.now)
          (at + 20)
          (tx_turn settings (voice_event v) s)
  unfolding tx_turn tx_audio
  turn-Due v s at e =
      subst
        (λ d.
          Due (if ltb v.now d then d + v.late else v.now) (d + 20)
            (tx_turn settings (voice_event v) s))
        e (unless_stopped _)
    where
      unless_stopped :
          (waits : Bool)
          → Due
              (if waits then due v.now s.next_voice_send + v.late else v.now)
              (due v.now s.next_voice_send + 20)
              (if waits && false
                then (returned, none)
                else tx_emit settings
                    (if waits then due v.now s.next_voice_send + v.late else v.now)
                    (some (due v.now s.next_voice_send + 20))
                    true
                    (tx_level agc_kind true (some v.pcm) s.agc)
                    s)
      unless_stopped true = emit-Due _ _ (tx_level agc_kind true (some v.pcm) s.agc) s
      unless_stopped false = emit-Due _ _ (tx_level agc_kind true (some v.pcm) s.agc) s

  tx_task-schedule :
      (first i : ℕ) (vs : List Voice) (s : Tx agc_kind)
      → ((v : Voice) (rest : List Voice)
          → vs ≡ v ∷ rest
          → due v.now s.next_voice_send ≡ first + 20 * i)
      → map (λ p. p.at) (tx_task settings (map voice_event vs) (running s)) ≡ schedule first i vs
  unfolding tx_task
  tx_task-schedule first i [] s start = refl
  tx_task-schedule first i (v ∷ vs) s start =
      let (s', packet, turn, next) = turn-Due v s (first + 20 * i) (start v vs refl) in
      ap (λ t. map (λ p. p.at) (with_packet t.1 (tx_task settings (map voice_event vs) t.0))) turn
      ∙ ap
          (λ later. (if ltb v.now (first + 20 * i) then first + 20 * i + v.late else v.now) ∷ later)
          (tx_task-schedule first (suc i) vs s'
            (λ w rest e. ap (due w.now) next ∙ one_more first i))
    where
      one_more : (a b : ℕ) → a + 20 * b + 20 ≡ a + 20 * suc b
      one_more a b = omega arith

  -- Voice frames that follow each other, where none was sent since the last frame that is not voice and the
  -- task is not cancelled meanwhile, go out 20 ms apart, counted from the time at which the first one is
  -- taken, which no late frame moves: a frame that is taken early goes out when it is due, but for the lateness of its own wake-up,
  -- which the later frames do not inherit, and any other frame goes out at once.
  pub tx_task-paced :
      (first : Voice) (later : List Voice) (s : Tx agc_kind)
      → s.next_voice_send ≡ none
      → map (λ p. p.at) (tx_task settings (map voice_event (first ∷ later)) (running s))
        ≡ schedule first.now 0 (first ∷ later)
  tx_task-paced first later s start =
      tx_task-schedule first.now 0 (first ∷ later) s
        (λ v rest e. ap (λ n. due v.now n) start ∙ ap now_of (sym e) ∙ zeroth first.now)
    where
      now_of : List Voice → ℕ
      now_of [] = 0
      now_of (v ∷ vs) = v.now

      zeroth : (a : ℕ) → a ≡ a + 20 * 0
      zeroth a = omega arith
