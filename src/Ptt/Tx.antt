-- ===== src/Ptt/Tx.antt =====
-- dmr-wire/src/voice/ptt.rs: the FM to DMR direction, header, voice bursts, terminator and flush.
-- A packet is `none` where the source panics, on a talkgroup or subscriber id over 24 bits.
use asl_dmr_bridge.Base.{
  ℕ, ◌+◌, ◌-◌, ◌%◌, ◌^◌, List, [], ◌∷◌, ◌++◌, map, Bool, Option, none, some, leb, ◌==◌,
  if◌then◌else◌, length, get_or, take, replicate,
}
use asl_dmr_bridge.Dmrd.{voice, voice_sync, data_sync, serialize}
use asl_dmr_bridge.Bptc.{build_data_burst, build_voice_lc, build_voice_lc_body}
use asl_dmr_bridge.Sync.{bs_voice_sync, bs_data_sync, build_emb_section, build_null_emb}
use asl_dmr_bridge.EmbeddedLc.{build_fragments, lcss_for_fragment}
use asl_dmr_bridge.Frame.{Codewords, assemble_burst}
use asl_dmr_bridge.TalkerAlias.{encode_talker_alias_lcs}
use asl_dmr_bridge.Events.{
  PcmFrame, AmbeFrame, StatsEvent, CallDirection, TerminationReason, voice_frame, frame_dropped,
  call_start, call_end,
}
use asl_dmr_bridge.Voice.{
  VoiceConfig, data_type_voice_header, data_type_voice_terminator, frames_per_burst, silence,
  build_dmrd,
}
use asl_dmr_bridge.Ptt.Machine.{
  Codec, Env, TxCall, PttState, Diagnostic, Effect, PttMachine, emit, emit_stats, set_state,
  on_ptt_up, on_tx_call_start, is_group_call,
}
use asl_dmr_bridge.Ptt.Transcode.{encode}

abbrev pub fm : CallDirection
fm = CallDirection.fm_to_dmr

-- A packet with the call advanced past it.
pub record Built : Type 0 where
  pub packet : Option (List ℕ)
  pub call : TxCall

abbrev advanced : TxCall → TxCall
advanced call = record call { dmrd_seq = (call.dmrd_seq + 1) % 256 }

abbrev pub serialized : Option (List ℕ) → VoiceConfig → TxCall → ℕ → Option (List ℕ)
serialized none config call data_type = none
serialized (some lc) config call data_type = serialize (
    build_dmrd call.dmrd_seq config call.stream_id data_sync data_type
      (build_data_burst lc data_type config.color_code.value bs_data_sync))

-- The header (data type 1) and the terminator (data type 2).
unfoldable pub build_tx_control : Bool → VoiceConfig → ℕ → TxCall → Built
build_tx_control group_call config data_type call = record {
  packet =
      serialized (build_voice_lc group_call config.talkgroup.as_u32 config.src_id.as_u32 data_type)
        config call data_type;
  call = advanced call;
}

-- SYNC for burst A, an LC fragment for B to E, nothing for F.
unfoldable pub sync_section : VoiceConfig → TxCall → List ℕ
sync_section config call =
    if call.vseq == 0
    then bs_voice_sync
    else if leb call.vseq 4
    then (let fragment = call.vseq - 1 in
        let lc = call.superframe_idx % length call.lc_rotation in
        build_emb_section config.color_code.value (lcss_for_fragment fragment)
          (get_or (get_or call.lc_rotation lc []) fragment []))
    else build_null_emb config.color_code.value

abbrev next_vseq : TxCall → ℕ
next_vseq call = (call.vseq + 1) % 6

unfoldable pub build_voice_burst : VoiceConfig → Codewords → TxCall → Built
unfolding sync_section
build_voice_burst config ambe call = record {
  packet = serialize (
      build_dmrd call.dmrd_seq config call.stream_id (if call.vseq == 0 then voice_sync else voice)
        call.vseq (assemble_burst ambe (sync_section config call)));
  call = record call {
    dmrd_seq = (call.dmrd_seq + 1) % 256;
    vseq = next_vseq call;
    superframe_idx =
        if next_vseq call == 0 then (call.superframe_idx + 1) % 2 ^ 32 else call.superframe_idx;
  };
}

abbrev pub codewords_of : List AmbeFrame → Codewords
codewords_of frames = record {
  cw1 = get_or frames 0 [];
  cw2 = get_or frames 1 [];
  cw3 = get_or frames 2 [];
}

-- The LC fragments of the call, then those of the talker alias.
unfoldable pub lc_rotation_of : Bool → VoiceConfig → Option (List (List (List ℕ)))
lc_rotation_of group_call config =
    elim (build_voice_lc_body group_call config.talkgroup.as_u32 config.src_id.as_u32) [
      | none ↦ none
      | some lc ↦
          some (build_fragments lc ∷ map build_fragments (encode_talker_alias_lcs config.callsign))
    ]

abbrev pub new_call : Env → List (List (List ℕ)) → TxCall
new_call env rotation = record {
  stream_id = env.new_stream_id;
  dmrd_seq = 0;
  vseq = 0;
  pcm_buf = [];
  started = env.now;
  lc_rotation = rotation;
  superframe_idx = 0;
}

abbrev pub joined :
    AmbeFrame → ℕ → Option (List AmbeFrame × List ℕ) → Option (List AmbeFrame × List ℕ)
joined frame elapsed none = none
joined frame elapsed (some (frames, times)) = some (frame ∷ frames, elapsed ∷ times)

module _ {codec : Codec} where
  unfoldable pub record_tx_ambe : Option AmbeFrame → PttMachine codec → PttMachine codec
  unfolding emit
  record_tx_ambe none m = m
  record_tx_ambe (some frame) m = emit (Effect.diagnostic (Diagnostic.tx_ambe frame)) m

  -- The rest of a burst counts only after a frame that was encoded.
  abbrev pub if_encoded :
      Option AmbeFrame
      → ℕ
      → PttMachine codec
      → PttMachine codec × Option (List AmbeFrame × List ℕ)
      → PttMachine codec × Option (List AmbeFrame × List ℕ)
  if_encoded none elapsed m rest = (m, none)
  if_encoded (some frame) elapsed m rest = (rest.0, joined frame elapsed rest.1)

  -- The frames of a burst one after the other, up to the first error.
  unfoldable pub encode_all :
      List PcmFrame → PttMachine codec → PttMachine codec × Option (List AmbeFrame × List ℕ)
  unfolding encode record_tx_ambe
  encode_all [] m = (m, some ([], []))
  encode_all (pcm ∷ rest) m =
      let t = encode pcm m in
      let recorded = record_tx_ambe t.result t.machine in
      let tail = encode_all rest recorded in if_encoded t.result t.elapsed recorded tail

  unfoldable pub each_stat : List StatsEvent → PttMachine codec → PttMachine codec
  unfolding emit_stats
  each_stat [] m = m
  each_stat (e ∷ es) m = each_stat es (emit_stats e m)

  unfoldable pub drop_burst_fm_to_dmr : PttMachine codec → PttMachine codec
  unfolding each_stat
  drop_burst_fm_to_dmr m = each_stat (replicate frames_per_burst (frame_dropped fm)) m

  -- The bounded channel: the packet and its frames, or the frames as dropped.
  unfoldable pub try_send_voice_dmrd :
      Env → Option (List ℕ) → List ℕ → PttMachine codec → PttMachine codec
  unfolding emit each_stat drop_burst_fm_to_dmr
  try_send_voice_dmrd env none times m = emit Effect.panicked m
  try_send_voice_dmrd env (some pkt) times m =
      if env.voice_room
      then each_stat (map (voice_frame fm) times) (emit (Effect.voice_out pkt) m)
      else drop_burst_fm_to_dmr m

  unfoldable pub send_control_dmrd : Option (List ℕ) → PttMachine codec → PttMachine codec
  unfolding emit
  send_control_dmrd none m = emit Effect.panicked m
  send_control_dmrd (some pkt) m = emit (Effect.control_out pkt) m

  unfoldable pub record_tx_frames : List PcmFrame → PttMachine codec → PttMachine codec
  unfolding emit
  record_tx_frames [] m = m
  record_tx_frames (pcm ∷ rest) m =
      record_tx_frames rest (emit (Effect.diagnostic (Diagnostic.tx_pcm pcm)) m)

  -- A burst that was encoded goes out, an encode error drops it whole.
  unfoldable pub send_encoded :
      Env → Option (List AmbeFrame × List ℕ) → TxCall → PttMachine codec → PttMachine codec × TxCall
  unfolding build_voice_burst try_send_voice_dmrd drop_burst_fm_to_dmr
  send_encoded env none call m = (drop_burst_fm_to_dmr m, call)
  send_encoded env (some (frames, times)) call m =
      let built = build_voice_burst m.config (codewords_of frames) call in
      (try_send_voice_dmrd env built.packet times m, built.call)

  -- One burst out of three frames: recorded, encoded, sent.
  unfoldable pub send_burst :
      Env → List PcmFrame → TxCall → PttMachine codec → PttMachine codec × TxCall
  unfolding record_tx_frames encode_all send_encoded
  send_burst env pcm call m =
      let (m', encoded) = encode_all pcm (record_tx_frames pcm m) in
      send_encoded env encoded call m'

  unfoldable pub flush_buffer :
      Env → List PcmFrame → TxCall → PttMachine codec → PttMachine codec × TxCall
  unfolding send_burst
  flush_buffer env [] call m = (m, call)
  flush_buffer env (pcm ∷ rest) call m =
      send_burst env (take frames_per_burst ((pcm ∷ rest) ++ replicate frames_per_burst silence))
        (record call { pcm_buf = [] }) m

  -- What is buffered, padded with silence.
  unfoldable pub flush_tx : Env → TxCall → PttMachine codec → PttMachine codec × TxCall
  unfolding flush_buffer
  flush_tx env call m = flush_buffer env call.pcm_buf call m

  -- The end of a call on every path but a network reset: flush, terminator, statistics.
  unfoldable pub finish_tx : Env → TerminationReason → TxCall → PttMachine codec → PttMachine codec
  unfolding flush_tx build_tx_control send_control_dmrd emit_stats emit is_group_call
  finish_tx env reason call m =
      let (m', call') = flush_tx env call m in
      let term = build_tx_control (is_group_call m') m'.config data_type_voice_terminator call' in
      emit (Effect.diagnostic (Diagnostic.tx_end call'.stream_id))
        (emit_stats (call_end fm reason) (send_control_dmrd term.packet m'))

  unfoldable pub start_with :
      Env → PcmFrame → Option (List (List (List ℕ))) → PttMachine codec → PttMachine codec
  unfolding on_ptt_up on_tx_call_start emit emit_stats build_tx_control send_control_dmrd set_state
      is_group_call
  start_with env pcm none m = emit Effect.panicked m
  start_with env pcm (some rotation) m =
      let call = new_call env rotation in
      let hdr = build_tx_control (is_group_call m) m.config data_type_voice_header call in
      let started = on_tx_call_start call.stream_id (on_ptt_up m) in
      let counted =
        emit_stats (call_start fm m.config.src_id m.config.talkgroup.as_u32 m.config.slot)
          started in
      set_state (PttState.tx (record hdr.call { pcm_buf = pcm ∷ [] }))
        (send_control_dmrd hdr.packet counted)

  -- Keyed audio on an idle machine.
  unfoldable pub start_tx : Env → PcmFrame → PttMachine codec → PttMachine codec
  unfolding lc_rotation_of start_with
  start_tx env pcm m = start_with env pcm (lc_rotation_of (is_group_call m) m.config) m
