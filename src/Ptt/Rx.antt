-- ===== src/Ptt/Rx.antt =====
-- dmr-wire/src/voice/ptt.rs: `on_dmrd`, the DMR to FM direction.
use asl_dmr_bridge.Base.{
  ℕ, zero, suc, ◌+◌, ◌-◌, ◌*◌, ◌%◌, List, [], ◌∷◌, Bool, true, false, not, Option, none, some, ltb,
  ◌==◌, if◌then◌else◌, replicate,
}
use asl_dmr_bridge.Dmrd.{Dmrd, FrameType, voice, voice_sync, data_sync}
use asl_dmr_bridge.Frame.{Codewords, extract_ambe}
use asl_dmr_bridge.Events.{
  PcmFrame, AmbeFrame, CallDirection, TerminationReason, normal, voice_frame, frame_dropped,
  call_start, call_end,
}
use asl_dmr_bridge.Voice.{
  Direction, data_type_voice_header, data_type_voice_terminator, frames_per_burst, matches_config,
  make_voice_frame, make_unkey_frame,
}
use asl_dmr_bridge.Ptt.Machine.{
  Codec, Env, RxCall, PttState, rx, rx_hang, tx, Diagnostic, Effect, PttMachine, emit, emit_stats,
  set_state, on_ptt_up, warm_decoder_cache, emit_call_metadata, emit_clear_metadata,
}
use asl_dmr_bridge.Ptt.Transcode.{decode}
use asl_dmr_bridge.Ptt.Tx.{each_stat}

abbrev pub dmr : CallDirection
dmr = CallDirection.dmr_to_fm

abbrev pub gap_boundary_packets : ℕ
gap_boundary_packets = 3

-- A call that starts with this packet.
unfoldable pub call_of : Dmrd → ℕ → Option ℕ → RxCall
call_of pkt now last_seq = record {
  stream_id = pkt.stream_id;
  src_id = pkt.src_id;
  dst_id = pkt.dst_id;
  slot = pkt.slot;
  started = now;
  last_voice = now;
  last_seq = last_seq;
}

-- The missing packets before `seq`: the wrapped distance from the expected number, if below 128.
unfoldable pub seq_gap : Option ℕ → ℕ → ℕ
seq_gap none seq = 0
seq_gap (some last) seq =
    let delta = (seq + 256 - (last + 1) % 256) % 256 in if ltb delta 128 then delta else 0

abbrev pub frames_of : Codewords → List AmbeFrame
frames_of c = c.cw1 ∷ c.cw2 ∷ c.cw3 ∷ []

abbrev pub is_tx : PttState → Bool
is_tx (tx call) = true
is_tx _ = false

abbrev pub tx_only : Direction → Bool
tx_only Direction.fm_to_dmr = true
tx_only _ = false

module _ {codec : Codec} where
  -- A header starts a call unless its stream is the one that is being received.
  unfoldable pub start_rx : Env → Dmrd → PttMachine codec → PttMachine codec
  unfolding call_of emit_call_metadata emit_stats emit on_ptt_up warm_decoder_cache set_state
  start_rx env pkt m = set_state (rx (call_of pkt env.now none)) (
      emit (Effect.diagnostic (Diagnostic.rx_start pkt.stream_id)) (
        warm_decoder_cache (
          on_ptt_up (
            emit_stats (call_start dmr pkt.src_id pkt.dst_id pkt.slot)
              (emit_call_metadata pkt m)))))

  unfoldable pub on_header : Env → Dmrd → PttState → PttMachine codec → PttMachine codec
  unfolding start_rx
  on_header env pkt (rx call) m = if call.stream_id == pkt.stream_id then m else start_rx env pkt m
  on_header env pkt _ m = start_rx env pkt m

  -- The call's statistics and recording end, and the FM side is unkeyed.
  unfoldable pub end_rx : TerminationReason → ℕ → PttMachine codec → PttMachine codec
  unfolding emit emit_stats
  end_rx reason stream_id m =
      emit (Effect.audio (make_unkey_frame (some stream_id))) (
        emit (Effect.diagnostic (Diagnostic.rx_end stream_id)) (emit_stats (call_end dmr reason) m))

  unfoldable pub on_terminator : Env → Dmrd → PttState → PttMachine codec → PttMachine codec
  unfolding emit_clear_metadata end_rx set_state
  on_terminator env pkt (rx call) m =
      if call.stream_id == pkt.stream_id
      then set_state (rx_hang (env.now + m.config.hang_time))
          (end_rx normal pkt.stream_id (emit_clear_metadata m))
      else m
  on_terminator env pkt _ m = m

  -- The boundary of a call that a voice burst opens.
  unfoldable pub opened : Dmrd → PttMachine codec → PttMachine codec
  unfolding on_ptt_up warm_decoder_cache emit emit_stats emit_call_metadata
  opened pkt m = emit_call_metadata pkt (
      emit_stats (call_start dmr pkt.src_id pkt.dst_id pkt.slot) (
        emit (Effect.diagnostic (Diagnostic.rx_start pkt.stream_id))
          (warm_decoder_cache (on_ptt_up m))))

  -- The state of the call moves first, the events of a boundary follow, then the drops of a gap.
  unfoldable pub track_voice : Env → Dmrd → PttState → PttMachine codec → PttMachine codec × ℕ
  unfolding call_of seq_gap opened end_rx set_state each_stat
  track_voice env pkt (rx call) m =
      if call.stream_id == pkt.stream_id
      then (let gap = seq_gap call.last_seq pkt.seq in
          (
            each_stat (replicate gap (frame_dropped dmr))
                (set_state (rx (record call { last_seq = some pkt.seq; last_voice = env.now })) m),
            gap,
          ))
      else (
        opened pkt
            (end_rx normal call.stream_id (set_state (rx (call_of pkt env.now (some pkt.seq))) m)),
        0,
      )
  track_voice env pkt _ m = (opened pkt (set_state (rx (call_of pkt env.now (some pkt.seq))) m), 0)

  unfoldable pub play_gap : Option PcmFrame → ℕ → PttMachine codec → PttMachine codec
  unfolding emit
  play_gap none stream_id m = m
  play_gap (some pcm) stream_id m =
      emit (Effect.audio (make_voice_frame pcm stream_id))
        (emit (Effect.diagnostic (Diagnostic.rx_pcm pcm)) m)

  -- Synthesised frames for a gap; a failed one is left out.
  unfoldable pub decode_gap : ℕ → ℕ → PttMachine codec → PttMachine codec
  unfolding decode play_gap
  decode_gap zero stream_id m = m
  decode_gap (suc n) stream_id m =
      let t = decode none m in decode_gap n stream_id (play_gap t.result stream_id t.machine)

  unfoldable pub play_frame : Option PcmFrame → ℕ → ℕ → PttMachine codec → PttMachine codec
  unfolding emit emit_stats
  play_frame none elapsed stream_id m = emit_stats (frame_dropped dmr) m
  play_frame (some pcm) elapsed stream_id m =
      emit (Effect.audio (make_voice_frame pcm stream_id))
        (emit (Effect.diagnostic (Diagnostic.rx_pcm pcm)) (emit_stats (voice_frame dmr elapsed) m))

  -- The frames of a burst; a failed one counts as dropped.
  unfoldable pub decode_frames : List AmbeFrame → ℕ → PttMachine codec → PttMachine codec
  unfolding decode play_frame
  decode_frames [] stream_id m = m
  decode_frames (ambe ∷ rest) stream_id m =
      let t = decode (some ambe) m in
      decode_frames rest stream_id (play_frame t.result t.elapsed stream_id t.machine)

  unfoldable pub record_rx_frames : List AmbeFrame → PttMachine codec → PttMachine codec
  unfolding emit
  record_rx_frames [] m = m
  record_rx_frames (ambe ∷ rest) m =
      record_rx_frames rest (emit (Effect.diagnostic (Diagnostic.rx_ambe ambe)) m)

  -- A gap of more than three packets resets the vocoder in place of being filled.
  unfoldable pub gap_filled : ℕ → PttMachine codec → PttMachine codec × ℕ
  unfolding on_ptt_up
  gap_filled gap m =
      if ltb gap_boundary_packets gap then (on_ptt_up m, 0) else (m, frames_per_burst * gap)

  -- The slots of all frames are reserved at once, or the burst is dropped.
  unfoldable pub play_burst : Env → Dmrd → ℕ → PttMachine codec → PttMachine codec
  unfolding record_rx_frames gap_filled decode_gap decode_frames each_stat
  play_burst env pkt gap m =
      let frames = frames_of (extract_ambe pkt.dmr_data) in
      let (m', gap_frames) = gap_filled gap (record_rx_frames frames m) in
      if ltb env.audio_room (frames_per_burst + gap_frames)
      then each_stat (replicate frames_per_burst (frame_dropped dmr)) m'
      else decode_frames frames pkt.stream_id (decode_gap gap_frames pkt.stream_id m')

  unfoldable pub on_voice : Env → Dmrd → PttMachine codec → PttMachine codec
  unfolding track_voice play_burst
  on_voice env pkt m = let (m', gap) = track_voice env pkt m.state m in play_burst env pkt gap m'

  unfoldable pub by_frame_type : Env → Dmrd → FrameType → PttMachine codec → PttMachine codec
  unfolding on_header on_terminator on_voice
  by_frame_type env pkt data_sync m =
      if pkt.dtype_vseq == data_type_voice_header
      then on_header env pkt m.state m
      else if pkt.dtype_vseq == data_type_voice_terminator
      then on_terminator env pkt m.state m
      else m
  by_frame_type env pkt voice m = on_voice env pkt m
  by_frame_type env pkt voice_sync m = on_voice env pkt m

  unfoldable pub on_dmrd : Env → Dmrd → PttMachine codec → PttMachine codec
  unfolding by_frame_type matches_config
  on_dmrd env pkt m =
      if tx_only m.config.gateway
      then m
      else if not (matches_config pkt m.config)
      then m
      else if is_tx m.state
      then m
      else by_frame_type env pkt pkt.frame_type m
