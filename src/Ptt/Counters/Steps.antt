-- ===== src/Ptt/Counters/Steps.antt =====
-- dmr-wire/src/voice/ptt.rs: every handler keeps the counters of a transmission in range.
use asl_dmr_bridge.Base.{
  ℕ, ◌+◌, ◌≡◌, ◌<◌, refl, arith, List, Bool, true, false, not, Option, none, some, ◌==◌, leb,
  Bool-cases, inl, inr, sym, length,
}
use mathlib.Core.Path.{subst}
use asl_dmr_bridge.Dmrd.{Dmrd, FrameType, voice, voice_sync, data_sync}
use asl_dmr_bridge.Events.{PcmFrame, normal, tx_timeout, TerminationReason}
use asl_dmr_bridge.Voice.{matches_config, data_type_voice_header, data_type_voice_terminator}
use asl_dmr_bridge.Ptt.Machine.{
  Codec, Env, TxCall, PttState, idle, rx, rx_hang, tx, PttMachine, set_state, emit, emit_stats,
}
use asl_dmr_bridge.Ptt.View.{Consistent, Shows, Allows}
use asl_dmr_bridge.Ptt.Steps.{set_state-Shows}
use asl_dmr_bridge.Ptt.Sending.{finish_tx-Shows}
use asl_dmr_bridge.Ptt.OnDmrd.{Tracked, on_voice-Tracked}
use asl_dmr_bridge.Ptt.Tx.{start_tx, start_with, lc_rotation_of, build_tx_control, finish_tx}
use asl_dmr_bridge.Ptt.Rx.{
  start_rx, on_header, on_terminator, on_voice, by_frame_type, on_dmrd, is_tx, tx_only,
}
use asl_dmr_bridge.Ptt.Handlers.{
  Event, control, timeout, dmrd, audio_in, reset_from, on_network_reset, unkeyed, keyed, heard,
  on_audio, timed_out, on_timeout, step, rx_only,
}
use asl_dmr_bridge.Ptt.Counters.{Bounded, buffer_tx-InRange}

module _ {codec : Codec} where
  start_with-Bounded :
      (env : Env) (pcm : PcmFrame) (r : Option (List (List (List ℕ)))) (m : PttMachine codec)
      → ((rotation : List (List (List ℕ))) → r ≡ some rotation → 0 < length rotation)
      → m.state ≡ idle
      → Bounded (start_with env pcm r m).state
  unfolding start_with emit set_state build_tx_control
  start_with-Bounded env pcm none m l e = subst Bounded (sym e) tt
  start_with-Bounded env pcm (some rotation) m l e = record {
    seq_fits = ground arith;
    position = ground arith;
    waiting = ground arith;
    superframe_fits = ground arith;
    has_lc = l rotation refl;
  }

  rotation_of :
      (group_call : Bool) (m : PttMachine codec) (rotation : List (List (List ℕ)))
      → lc_rotation_of group_call m.config ≡ some rotation
      → 0 < length rotation
  unfolding lc_rotation_of
  rotation_of group_call m rotation e = ground arith

  finish_tx-Bounded :
      (env : Env) (reason : TerminationReason) (call : TxCall) (m : PttMachine codec)
      → Shows (Allows (tx call)) (tx call) m
      → Bounded (finish_tx env reason call (set_state idle m)).state
  finish_tx-Bounded env reason call m h =
      subst Bounded
        (sym (finish_tx-Shows env reason call call _ (set_state-Shows idle m h)).state_is) tt

  keyed-Bounded :
      (env : Env) (s : PttState) (pcm : PcmFrame) (m : PttMachine codec)
      → Shows (Allows s) s m
      → Bounded s
      → Bounded (keyed env s pcm m).state
  unfolding keyed set_state start_tx
  keyed-Bounded env idle pcm m h b = start_with-Bounded env pcm _ m (rotation_of _ m) h.state_is
  keyed-Bounded env (rx call) pcm m h b = subst Bounded (sym h.state_is) b
  keyed-Bounded env (rx_hang u) pcm m h b = subst Bounded (sym h.state_is) b
  keyed-Bounded env (tx call) pcm m h b = buffer_tx-InRange env call pcm _ b

  unkeyed-Bounded :
      (env : Env) (s : PttState) (m : PttMachine codec)
      → Shows (Allows s) s m
      → Bounded s
      → Bounded (unkeyed env s m).state
  unfolding unkeyed
  unkeyed-Bounded env idle m h b = subst Bounded (sym h.state_is) b
  unkeyed-Bounded env (rx call) m h b = subst Bounded (sym h.state_is) b
  unkeyed-Bounded env (rx_hang u) m h b = subst Bounded (sym h.state_is) b
  unkeyed-Bounded env (tx call) m h b = finish_tx-Bounded env normal call m h

  heard-Bounded :
      (env : Env) (keyup : Bool) (samples : Option PcmFrame) (m : PttMachine codec)
      → Consistent m
      → Bounded m.state
      → Bounded (heard env keyup samples m).state
  unfolding heard
  heard-Bounded env false samples m h b = unkeyed-Bounded env m.state m h b
  heard-Bounded env true none m h b = b
  heard-Bounded env true (some pcm) m h b = keyed-Bounded env m.state pcm m h b

  timed_out-Bounded :
      (env : Env) (s : PttState) (m : PttMachine codec)
      → Shows (Allows s) s m
      → Bounded s
      → Bounded (timed_out env s m).state
  unfolding timed_out set_state
  timed_out-Bounded env idle m h b = subst Bounded (sym h.state_is) b
  timed_out-Bounded env (rx call) m h b = tt
  timed_out-Bounded env (rx_hang u) m h b = tt
  timed_out-Bounded env (tx call) m h b =
      elim (Bool-cases (leb (call.started + m.config.tx_timeout) env.now)) [
        | inl e ↦ simp e (finish_tx-Bounded env tx_timeout call m h)
        | inr e ↦ simp e (subst Bounded (sym h.state_is) b)
      ]

  on_header-Bounded :
      (env : Env) (pkt : Dmrd) (s : PttState) (m : PttMachine codec)
      → m.state ≡ s
      → Bounded s
      → Bounded (on_header env pkt s m).state
  unfolding on_header start_rx set_state
  on_header-Bounded env pkt idle m e b = tt
  on_header-Bounded env pkt (rx_hang u) m e b = tt
  on_header-Bounded env pkt (tx call) m e b = tt
  on_header-Bounded env pkt (rx call) m e b = elim (Bool-cases (call.stream_id == pkt.stream_id)) [
    | inl f ↦ simp f (subst Bounded (sym e) tt)
    | inr f ↦ simp f tt
  ]

  on_terminator-Bounded :
      (env : Env) (pkt : Dmrd) (s : PttState) (m : PttMachine codec)
      → m.state ≡ s
      → Bounded s
      → Bounded (on_terminator env pkt s m).state
  unfolding on_terminator set_state
  on_terminator-Bounded env pkt idle m e b = subst Bounded (sym e) b
  on_terminator-Bounded env pkt (rx_hang u) m e b = subst Bounded (sym e) b
  on_terminator-Bounded env pkt (tx call) m e b = subst Bounded (sym e) b
  on_terminator-Bounded env pkt (rx call) m e b =
      elim (Bool-cases (call.stream_id == pkt.stream_id)) [
        | inl f ↦ simp f tt
        | inr f ↦ simp f (subst Bounded (sym e) tt)
      ]

  on_voice-Bounded :
      (env : Env) (pkt : Dmrd) (m : PttMachine codec)
      → is_tx m.state ≡ false
      → Consistent m
      → Bounded (on_voice env pkt m).state
  unfolding Tracked
  on_voice-Bounded env pkt m a h =
      let (c, e, t) = on_voice-Tracked env pkt m a h in subst Bounded (sym t.state_is) tt

  by_frame_type-Bounded :
      (env : Env) (pkt : Dmrd) (ft : FrameType) (m : PttMachine codec)
      → is_tx m.state ≡ false
      → Consistent m
      → Bounded m.state
      → Bounded (by_frame_type env pkt ft m).state
  unfolding by_frame_type
  by_frame_type-Bounded env pkt voice m a h b = on_voice-Bounded env pkt m a h
  by_frame_type-Bounded env pkt voice_sync m a h b = on_voice-Bounded env pkt m a h
  by_frame_type-Bounded env pkt data_sync m a h b =
      elim (Bool-cases (pkt.dtype_vseq == data_type_voice_header)) [
        | inl e ↦ simp e (on_header-Bounded env pkt m.state m refl b)
        | inr e ↦ elim (Bool-cases (pkt.dtype_vseq == data_type_voice_terminator)) [
          | inl t ↦ simp (e, t) (on_terminator-Bounded env pkt m.state m refl b)
          | inr t ↦ simp (e, t) b
        ]
      ]

  on_dmrd-Bounded :
      (env : Env) (pkt : Dmrd) (m : PttMachine codec)
      → Consistent m
      → Bounded m.state
      → Bounded (on_dmrd env pkt m).state
  unfolding on_dmrd
  on_dmrd-Bounded env pkt m h b = elim (Bool-cases (tx_only m.config.gateway)) [
    | inl e ↦ simp e b
    | inr e ↦ elim (Bool-cases (not (matches_config pkt m.config))) [
      | inl f ↦ simp (e, f) b
      | inr f ↦ elim (Bool-cases (is_tx m.state)) [
        | inl g ↦ simp (e, f, g) b
        | inr g ↦ simp (e, f, g) (by_frame_type-Bounded env pkt pkt.frame_type m g h b)
      ]
    ]
  ]

  reset_from-Bounded :
      (s : PttState) (m : PttMachine codec) → m.state ≡ idle → Bounded (reset_from s m).state
  unfolding reset_from emit emit_stats
  reset_from-Bounded idle m e = subst Bounded (sym e) tt
  reset_from-Bounded (rx call) m e = subst Bounded (sym e) tt
  reset_from-Bounded (rx_hang u) m e = subst Bounded (sym e) tt
  reset_from-Bounded (tx call) m e = elim (Bool-cases m.stats_enabled) [
    | inl f ↦ simp f (subst Bounded (sym e) tt)
    | inr f ↦ simp f (subst Bounded (sym e) tt)
  ]

  -- In a machine whose outputs fit its state, every event keeps the counters of a transmission in range:
  -- the sequence number is a byte, the burst position is one of six, fewer than three frames wait in the
  -- buffer, the superframe index has 32 bits, and there is an LC to embed.
  pub step-Bounded :
      (env : Env) (event : Event) (m : PttMachine codec)
      → Consistent m
      → Bounded m.state
      → Bounded (step env event m).state
  unfolding step on_network_reset on_timeout on_audio set_state
  step-Bounded env control m h b = reset_from-Bounded m.state _ refl
  step-Bounded env timeout m h b = timed_out-Bounded env m.state m h b
  step-Bounded env (dmrd pkt) m h b = on_dmrd-Bounded env pkt m h b
  step-Bounded env (audio_in frame) m h b = elim (Bool-cases (rx_only m.config.gateway)) [
    | inl e ↦ simp e b
    | inr e ↦ simp e (heard-Bounded env frame.keyup frame.samples m h b)
  ]
