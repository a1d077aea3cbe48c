-- ===== src/Ptt/Handlers.antt =====
-- dmr-wire/src/voice/ptt.rs: the other handlers; dmr-wire/src/voice.rs: the loop that calls them.
use asl_dmr_bridge.Base.{
  ◌+◌, List, [], ◌∷◌, ◌++◌, Bool, true, false, Option, none, some, leb, if◌then◌else◌, length, take,
}
use asl_dmr_bridge.Dmrd.{Dmrd}
use asl_dmr_bridge.Events.{
  PcmFrame, AudioFrame, normal, stream_timeout, tx_timeout, shutdown, network_reset, call_end,
}
use asl_dmr_bridge.Voice.{Direction, frames_per_burst, make_unkey_frame}
use asl_dmr_bridge.Ptt.Machine.{
  Codec, Env, TxCall, PttState, idle, rx, rx_hang, tx, Diagnostic, Effect, PttMachine, emit,
  emit_stats, set_state, emit_clear_metadata,
}
use asl_dmr_bridge.Ptt.Tx.{fm, send_burst, finish_tx, start_tx}
use asl_dmr_bridge.Ptt.Rx.{end_rx, on_dmrd}

abbrev pub rx_only : Direction → Bool
rx_only Direction.dmr_to_fm = true
rx_only _ = false

pub data Event : Type 0 where
  control : Event
  timeout : Event
  dmrd : Dmrd → Event
  audio_in : AudioFrame → Event

module _ {codec : Codec} where
  -- `take_state` leaves `idle`, whatever the state was; only a transmission is ended.
  unfoldable pub reset_from : PttState → PttMachine codec → PttMachine codec
  unfolding emit emit_stats
  reset_from (tx call) m =
      emit (Effect.diagnostic (Diagnostic.tx_end call.stream_id))
        (emit_stats (call_end fm network_reset) m)
  reset_from _ m = m

  unfoldable pub on_network_reset : PttMachine codec → PttMachine codec
  unfolding reset_from set_state
  on_network_reset m = reset_from m.state (set_state idle m)

  unfoldable pub unkeyed : Env → PttState → PttMachine codec → PttMachine codec
  unfolding set_state finish_tx
  unkeyed env (tx call) m = finish_tx env normal call (set_state idle m)
  unkeyed env _ m = m

  -- Three buffered frames make a burst.
  unfoldable pub buffer_tx : Env → TxCall → PcmFrame → PttMachine codec → PttMachine codec × TxCall
  unfolding send_burst
  buffer_tx env call pcm m =
      let buf = call.pcm_buf ++ (pcm ∷ []) in
      if leb frames_per_burst (length buf)
      then send_burst env (take frames_per_burst buf) (record call { pcm_buf = [] }) m
      else (m, record call { pcm_buf = buf })

  unfoldable pub keyed : Env → PttState → PcmFrame → PttMachine codec → PttMachine codec
  unfolding start_tx buffer_tx set_state
  keyed env idle pcm m = start_tx env pcm m
  keyed env (tx call) pcm m =
      let (m', call') = buffer_tx env call pcm (set_state idle m) in set_state (tx call') m'
  keyed env _ pcm m = m

  unfoldable pub heard : Env → Bool → Option PcmFrame → PttMachine codec → PttMachine codec
  unfolding keyed unkeyed
  heard env false samples m = unkeyed env m.state m
  heard env true none m = m
  heard env true (some pcm) m = keyed env m.state pcm m

  unfoldable pub on_audio : Env → AudioFrame → PttMachine codec → PttMachine codec
  unfolding heard
  on_audio env frame m =
      if rx_only m.config.gateway then m else heard env frame.keyup frame.samples m

  unfoldable pub timed_out : Env → PttState → PttMachine codec → PttMachine codec
  unfolding set_state finish_tx end_rx emit_clear_metadata
  timed_out env (rx call) m =
      set_state (rx_hang (env.now + m.config.hang_time))
        (end_rx stream_timeout call.stream_id (emit_clear_metadata (set_state idle m)))
  timed_out env (rx_hang until) m = set_state idle m
  timed_out env (tx call) m =
      if leb (call.started + m.config.tx_timeout) env.now
      then finish_tx env tx_timeout call (set_state idle m)
      else m
  timed_out env idle m = m

  unfoldable pub on_timeout : Env → PttMachine codec → PttMachine codec
  unfolding timed_out
  on_timeout env m = timed_out env m.state m

  unfoldable pub shut_down : Env → PttState → PttMachine codec → PttMachine codec
  unfolding set_state finish_tx end_rx emit_clear_metadata emit
  shut_down env (rx call) m =
      end_rx shutdown call.stream_id (emit_clear_metadata (set_state idle m))
  shut_down env (rx_hang until) m = emit (Effect.audio (make_unkey_frame none)) (set_state idle m)
  shut_down env (tx call) m = finish_tx env shutdown call (set_state idle m)
  shut_down env idle m = m

  unfoldable pub on_shutdown : Env → PttMachine codec → PttMachine codec
  unfolding shut_down
  on_shutdown env m = shut_down env m.state m

  -- One turn of the select loop.
  unfoldable pub step : Env → Event → PttMachine codec → PttMachine codec
  unfolding on_network_reset on_timeout on_dmrd on_audio
  step env control m = on_network_reset m
  step env timeout m = on_timeout env m
  step env (dmrd pkt) m = on_dmrd env pkt m
  step env (audio_in frame) m = on_audio env frame m

  -- The loop: it ends when the task is cancelled or its input is used up, and then shuts down.
  unfoldable pub voice_task : Env → List (Env × Event) → PttMachine codec → PttMachine codec
  unfolding step on_shutdown
  voice_task last [] m = on_shutdown last m
  voice_task last ((env, event) ∷ rest) m =
      let next = voice_task last rest (step env event m) in
      if m.cancelled then on_shutdown last m else next
