-- ===== src/Ptt/Lost.antt =====
-- dmr-wire/src/voice/ptt.rs: the two events that lose a received call.
use asl_dmr_bridge.Base.{
  ℕ, ◌≡◌, refl, arith, List, ◌∷◌, true, false, not, ◌&&◌, none, some, ◌==◌, Bool-cases, inl, inr,
  if◌then◌else◌, ap, sym, ◌∙◌,
}
use mathlib.Core.Path.{subst}
use asl_dmr_bridge.Ids.{SubscriberId, Slot}
use asl_dmr_bridge.Dmrd.{Dmrd, FrameType, voice, voice_sync, data_sync}
use asl_dmr_bridge.Events.{StatsEvent, dmr_to_fm, call_start}
use asl_dmr_bridge.Ptt.Machine.{
  Codec, Env, RxCall, PttState, idle, rx, rx_hang, tx, Effect, PttMachine, stats, emit, emit_stats,
  set_state, emit_call_metadata, on_ptt_up, warm_decoder_cache,
}
use asl_dmr_bridge.Ptt.View.{View, closed, open_to, replay, watch, Shows, Allows, Consistent}
use asl_dmr_bridge.Ptt.Steps.{emit_call_metadata-Shows, weaken}
use asl_dmr_bridge.Voice.{matches_config}
use asl_dmr_bridge.Ptt.OnDmrd.{known, receiving, is_header, other_stream, disrupts}
use asl_dmr_bridge.Ptt.Rx.{start_rx, on_header, is_tx, tx_only, by_frame_type, on_dmrd}
use asl_dmr_bridge.Ptt.Handlers.{
  Event, control, timeout, dmrd, audio_in, step, on_network_reset, reset_from,
}

-- A call is started where one is open already.
second_start :
    (src : SubscriberId) (dst : ℕ) (slot : Slot) (v : View)
    → v.calls ≡ open_to dmr_to_fm
    → watch (stats (call_start dmr_to_fm src dst slot)) v ≡ none
unfolding watch
second_start src dst slot v e = rw (e) refl

-- Outputs stay out of place once one was.
broken-log : (e : Effect) (log : List Effect) → replay log ≡ none → replay (e ∷ log) ≡ none
unfolding replay
broken-log e log h = rw (h) refl

module _ {codec : Codec} where
  lost :
      (call : RxCall) (s : PttState) (m n : PttMachine codec)
      → s ≡ rx call
      → n.state ≡ idle
      → n.log ≡ m.log
      → Shows (Allows s) s m
      → ¬ Consistent n
  lost call s m n e a b h g =
      differ h.view g.view (subst (λ t. Allows t h.view) e h.meets).0
        (subst (λ t. Allows t g.view) a g.meets).0 (sym h.seen ∙ ap replay (sym b) ∙ g.seen)
    where
      differ : (v w : View) → v.calls ≡ open_to dmr_to_fm → w.calls ≡ closed → some v ≡ some w → ⊥
      differ v w c o q = ground arith

  -- A network reset while a call is received goes to idle and puts nothing out: the call is not ended,
  -- its metadata not cleared and the FM side not unkeyed, so the outputs no longer fit the state.
  network_reset-loses_call :
      (call : RxCall) (m : PttMachine codec)
      → m.state ≡ rx call
      → Consistent m
      → ((on_network_reset m).state ≡ idle)
        × ((on_network_reset m).log ≡ m.log)
        × (¬ Consistent (on_network_reset m))
  unfolding on_network_reset reset_from set_state
  network_reset-loses_call call m e h = by_state m.state e h
    where
      by_state :
          (s : PttState)
          → s ≡ rx call
          → Shows (Allows s) s m
          → ((reset_from s (set_state idle m)).state ≡ idle)
            × ((reset_from s (set_state idle m)).log ≡ m.log)
            × (¬ Consistent (reset_from s (set_state idle m)))
      by_state idle f g = ground arith
      by_state (rx c) f g = (refl, refl, lost call (rx c) m _ f refl refl g)
      by_state (rx_hang u) f g = ground arith
      by_state (tx c) f g = ground arith

  broken-emit :
      (e : Effect) (m : PttMachine codec) → replay m.log ≡ none → replay (emit e m).log ≡ none
  unfolding emit
  broken-emit e m h = broken-log e m.log h

  broken-on_ptt_up : (m : PttMachine codec) → replay m.log ≡ none → replay (on_ptt_up m).log ≡ none
  unfolding on_ptt_up emit
  broken-on_ptt_up m h = elim (Bool-cases m.poisoned) [
    | inl e ↦ simp e h
    | inr e ↦ simp e (broken-log _ m.log h)
  ]

  broken-warm_decoder_cache :
      (m : PttMachine codec) → replay m.log ≡ none → replay (warm_decoder_cache m).log ≡ none
  unfolding warm_decoder_cache emit
  broken-warm_decoder_cache m h = elim (Bool-cases m.poisoned) [
    | inl e ↦ simp e h
    | inr e ↦ simp e (broken-log _ m.log h)
  ]

  -- A second call is started while one is open.
  broken-call_start :
      (e : StatsEvent) (s : PttState) (m : PttMachine codec)
      → ((v : View) → v.calls ≡ open_to dmr_to_fm → watch (stats e) v ≡ none)
      → Shows (λ v. v.calls ≡ open_to dmr_to_fm) s m
      → replay (emit_stats e m).log ≡ none
  unfolding emit_stats emit replay
  broken-call_start e s m out h = simp (h.enabled) (rw (h.seen) (out h.view h.meets))

  broken-start_rx :
      (env : Env) (pkt : Dmrd) (s : PttState) (m : PttMachine codec)
      → Shows (λ v. v.calls ≡ open_to dmr_to_fm) s m
      → replay (start_rx env pkt m).log ≡ none
  unfolding start_rx set_state
  broken-start_rx env pkt s m g = broken-emit _ (warm_decoder_cache (on_ptt_up started)) (
      broken-warm_decoder_cache (on_ptt_up started) (
        broken-on_ptt_up started (
          broken-call_start _ s (emit_call_metadata pkt m)
            (second_start pkt.src_id pkt.dst_id pkt.slot)
            (emit_call_metadata-Shows pkt m (λ v p. p) g))))
    where
      started : PttMachine codec
      started =
          emit_stats (call_start dmr_to_fm pkt.src_id pkt.dst_id pkt.slot)
            (emit_call_metadata pkt m)

  -- The second start of a call is out of place.
  superseding_header :
      (env : Env) (pkt : Dmrd) (call : RxCall) (m : PttMachine codec)
      → m.state ≡ rx call
      → Consistent m
      → (call.stream_id == pkt.stream_id) ≡ false
      → replay (on_header env pkt m.state m).log ≡ none
  unfolding on_header
  superseding_header env pkt call m e h f =
      subst (λ s. replay (on_header env pkt s m).log ≡ none) (sym e)
        (started (known (rx call) m e h))
    where
      started :
          Shows (Allows (rx call)) (rx call) m → replay (on_header env pkt (rx call) m).log ≡ none
      started g =
          subst (λ b. replay (if b then m else start_rx env pkt m).log ≡ none) (sym f)
            (broken-start_rx env pkt (rx call) m (weaken m (λ v p. p.0) g))

  accepted_header :
      (env : Env) (pkt : Dmrd) (m : PttMachine codec)
      → tx_only m.config.gateway ≡ false
      → matches_config pkt m.config ≡ true
      → is_tx m.state ≡ false
      → is_header pkt.frame_type pkt.dtype_vseq ≡ true
      → on_dmrd env pkt m ≡ on_header env pkt m.state m
  unfolding on_dmrd by_frame_type
  accepted_header env pkt m a b c d = simp (a, b, c) (by_type pkt.frame_type d)
    where
      by_type :
          (ft : FrameType)
          → is_header ft pkt.dtype_vseq ≡ true
          → by_frame_type env pkt ft m ≡ on_header env pkt m.state m
      by_type data_sync e = simp e refl
      by_type voice e = ground arith
      by_type voice_sync e = ground arith

  not_in_place : (m : PttMachine codec) → replay m.log ≡ none → ¬ Consistent m
  not_in_place m e h = missing h.view (sym e ∙ h.seen)
    where
      missing : (v : View) → none ≡ some v → ⊥
      missing v q = ground arith

  header_disrupts :
      (env : Env) (pkt : Dmrd) (s : PttState) (m : PttMachine codec)
      → m.state ≡ s
      → (not (tx_only m.config.gateway)
          && (matches_config pkt m.config
              && (is_header pkt.frame_type pkt.dtype_vseq && other_stream pkt.stream_id s)))
        ≡ true
      → Consistent m
      → ¬ Consistent (on_dmrd env pkt m)
  header_disrupts env pkt (rx call) m e d h = not_in_place _ (
      ap (λ n. replay n.log)
        (accepted_header env pkt m (ground arith) (ground arith) (receiving_not_tx m.state e)
          (ground arith))
      ∙ superseding_header env pkt call m e h (ground arith))
    where
      receiving_not_tx : (t : PttState) → t ≡ rx call → is_tx t ≡ false
      receiving_not_tx t f = subst (λ u. is_tx u ≡ false) (sym f) refl
  header_disrupts env pkt idle m e d h = ground arith
  header_disrupts env pkt (rx_hang until) m e d h = ground arith
  header_disrupts env pkt (tx call) m e d h = ground arith

  reset_disrupts :
      (s : PttState) (m : PttMachine codec)
      → m.state ≡ s
      → receiving s ≡ true
      → Consistent m
      → ¬ Consistent (on_network_reset m)
  reset_disrupts (rx call) m e r h = (network_reset-loses_call call m e h).2
  reset_disrupts idle m e r h = ground arith
  reset_disrupts (rx_hang until) m e r h = ground arith
  reset_disrupts (tx call) m e r h = ground arith

  -- A disrupting event, a network reset or an accepted header of another stream while a call is
  -- received, leaves a machine whose outputs fitted its state with outputs that do not: the received
  -- call is lost.
  pub step-disrupted :
      (env : Env) (event : Event) (m : PttMachine codec)
      → disrupts event m ≡ true
      → Consistent m
      → ¬ Consistent (step env event m)
  unfolding step disrupts
  step-disrupted env control m d h = reset_disrupts m.state m refl d h
  step-disrupted env (dmrd pkt) m d h = header_disrupts env pkt m.state m refl d h
  step-disrupted env timeout m d h = ground arith
  step-disrupted env (audio_in frame) m d h = ground arith
