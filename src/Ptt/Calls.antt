-- ===== src/Ptt/Calls.antt =====
-- dmr-wire/src/voice/ptt.rs: each handler keeps the outputs in place for the state it leaves.
use asl_dmr_bridge.Base.{
  ℕ, ◌+◌, ◌≡◌, refl, arith, [], ◌∷◌, Bool, true, false, take, ◌++◌, Option, none, some, inl, inr,
  leb, Bool-cases, length,
}
use asl_dmr_bridge.Events.{
  AudioFrame, PcmFrame, normal, stream_timeout, tx_timeout, shutdown, network_reset,
}
use asl_dmr_bridge.Voice.{frames_per_burst, make_unkey_frame}
use asl_dmr_bridge.Ptt.Machine.{
  Codec, Env, PttState, idle, rx, rx_hang, tx, PttMachine, audio, set_state,
}
use asl_dmr_bridge.Ptt.View.{watch, Shows, Moves, Allows, Consistent}
use asl_dmr_bridge.Ptt.Steps.{
  Shows-Consistent, emit-Shows, emit-Quiet-Shows, weaken, set_state-Shows, diagnostic-Quiet,
}
use asl_dmr_bridge.Ptt.Sending.{call_closed, finish_tx-Shows, start_tx-Shows, send_burst-Shows}
use asl_dmr_bridge.Ptt.Receiving.{cleared_end-Shows}
use asl_dmr_bridge.Ptt.Handlers.{
  Event, control, timeout, dmrd, audio_in, reset_from, on_network_reset, unkeyed, buffer_tx, keyed,
  heard, on_audio, timed_out, on_timeout, shut_down, on_shutdown, step, rx_only,
}
use asl_dmr_bridge.Ptt.OnDmrd.{receiving, disrupts, rx_Received, on_dmrd-Consistent}

extra_unkey-Moves :
    (stream : Option ℕ) → Moves (Allows idle) (audio (make_unkey_frame stream)) (Allows idle)
unfolding watch make_unkey_frame
extra_unkey-Moves stream v p = (record v { keyed = none }, refl, (p.0, refl, p.2))

module _ {codec : Codec} where
  timed_out-Shows :
      (env : Env) (s : PttState) (m : PttMachine codec)
      → Shows (Allows s) s m
      → Consistent (timed_out env s m)
  unfolding timed_out
  timed_out-Shows env idle m h = Shows-Consistent m h
  timed_out-Shows env (rx call) m h = Shows-Consistent _ (
      set_state-Shows _ _ (
        weaken _ (λ v p. p)
          (cleared_end-Shows stream_timeout call.stream_id call.stream_id _
            (set_state-Shows idle m (rx_Received call m h)))))
  timed_out-Shows env (rx_hang until) m h =
      Shows-Consistent _ (set_state-Shows idle m (weaken m (λ v p. p) h))
  timed_out-Shows env (tx call) m h =
      elim (Bool-cases (leb (call.started + m.config.tx_timeout) env.now)) [
        | inl e ↦ simp e (
            Shows-Consistent _
              (finish_tx-Shows env tx_timeout call call _ (set_state-Shows idle m h)))
        | inr e ↦ simp e (Shows-Consistent m h)
      ]

  keyed-Shows :
      (env : Env) (s : PttState) (pcm : PcmFrame) (m : PttMachine codec)
      → Shows (Allows s) s m
      → Consistent (keyed env s pcm m)
  unfolding keyed buffer_tx
  keyed-Shows env idle pcm m h = start_tx-Shows env pcm m h
  keyed-Shows env (rx call) pcm m h = Shows-Consistent m h
  keyed-Shows env (rx_hang u) pcm m h = Shows-Consistent m h
  keyed-Shows env (tx call) pcm m h =
      Shows-Consistent _
        (set_state-Shows _ _ (weaken _ (λ v p. p) (buffered (set_state-Shows idle m h))))
    where
      buffered :
          Shows (Allows (tx call)) idle (set_state idle m)
          → Shows (Allows (tx call)) idle (buffer_tx env call pcm (set_state idle m)).0
      buffered g = elim (Bool-cases (leb frames_per_burst (length (call.pcm_buf ++ (pcm ∷ []))))) [
        | inl e ↦ simp e (
            send_burst-Shows {P = Allows (tx call)} (λ v p. p.0) env
              (take frames_per_burst (call.pcm_buf ++ (pcm ∷ []))) (record call { pcm_buf = [] }) _
              g)
        | inr e ↦ simp e g
      ]

  unkeyed-Shows :
      (env : Env) (s : PttState) (m : PttMachine codec)
      → Shows (Allows s) s m
      → Consistent (unkeyed env s m)
  unfolding unkeyed
  unkeyed-Shows env idle m h = Shows-Consistent m h
  unkeyed-Shows env (rx call) m h = Shows-Consistent m h
  unkeyed-Shows env (rx_hang u) m h = Shows-Consistent m h
  unkeyed-Shows env (tx call) m h =
      Shows-Consistent _ (finish_tx-Shows env normal call call _ (set_state-Shows idle m h))

  heard-Shows :
      (env : Env) (keyup : Bool) (samples : Option PcmFrame) (m : PttMachine codec)
      → Consistent m
      → Consistent (heard env keyup samples m)
  unfolding heard
  heard-Shows env false samples m h = unkeyed-Shows env m.state m h
  heard-Shows env true none m h = h
  heard-Shows env true (some pcm) m h = keyed-Shows env m.state pcm m h

  on_audio-Consistent :
      (env : Env) (frame : AudioFrame) (m : PttMachine codec)
      → Consistent m
      → Consistent (on_audio env frame m)
  unfolding on_audio
  on_audio-Consistent env frame m h = elim (Bool-cases (rx_only m.config.gateway)) [
    | inl e ↦ simp e h
    | inr e ↦ simp e (heard-Shows env frame.keyup frame.samples m h)
  ]

  -- A network reset takes the state; only a transmission's call is closed.
  reset_from-Shows :
      (s : PttState) (m : PttMachine codec)
      → receiving s ≡ false
      → Shows (Allows s) idle m
      → Shows (Allows idle) idle (reset_from s m)
  unfolding reset_from
  reset_from-Shows idle m r h = h
  reset_from-Shows (rx call) m r h = ground arith
  reset_from-Shows (rx_hang u) m r h = weaken m (λ v p. p) h
  reset_from-Shows (tx call) m r h =
      emit-Quiet-Shows _ _ (diagnostic-Quiet _) (call_closed call network_reset m h)

  shut_down-Shows :
      (env : Env) (s : PttState) (m : PttMachine codec)
      → Shows (Allows s) s m
      → Shows (Allows idle) idle (shut_down env s m)
  unfolding shut_down
  shut_down-Shows env idle m h = h
  shut_down-Shows env (rx call) m h =
      cleared_end-Shows shutdown call.stream_id call.stream_id _
        (set_state-Shows idle m (rx_Received call m h))
  shut_down-Shows env (rx_hang until) m h =
      emit-Shows _ _ (extra_unkey-Moves none) (set_state-Shows idle m (weaken m (λ v p. p) h))
  shut_down-Shows env (tx call) m h =
      finish_tx-Shows env shutdown call call _ (set_state-Shows idle m h)

  -- Every event that does not disrupt a received call takes a machine whose outputs fit its state to
  -- one whose outputs fit the new state.
  pub step-Consistent :
      (env : Env) (event : Event) (m : PttMachine codec)
      → disrupts event m ≡ false
      → Consistent m
      → Consistent (step env event m)
  unfolding step on_network_reset on_timeout disrupts
  step-Consistent env control m d h =
      Shows-Consistent _ (reset_from-Shows m.state _ d (set_state-Shows idle m h))
  step-Consistent env timeout m d h = timed_out-Shows env m.state m h
  step-Consistent env (dmrd pkt) m d h = on_dmrd-Consistent env pkt m d h
  step-Consistent env (audio_in frame) m d h = on_audio-Consistent env frame m h

  pub on_shutdown-Shows :
      (env : Env) (m : PttMachine codec)
      → Consistent m
      → Shows (Allows idle) idle (on_shutdown env m)
  unfolding on_shutdown
  on_shutdown-Shows env m h = shut_down-Shows env m.state m h
