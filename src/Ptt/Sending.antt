-- ===== src/Ptt/Sending.antt =====
-- dmr-wire/src/voice/ptt.rs: how the methods of the FM to DMR direction move the view.
use asl_dmr_bridge.Base.{
  ℕ, List, [], ◌∷◌, Option, none, some, arith, inl, inr, replicate, Bool-cases, take, ◌++◌,
}
use asl_dmr_bridge.Events.{fm_to_dmr, call_start, call_end, AmbeFrame, PcmFrame, TerminationReason}
use asl_dmr_bridge.Voice.{data_type_voice_header, frames_per_burst, silence}
use asl_dmr_bridge.Ids.{SubscriberId, Slot}
use asl_dmr_bridge.Ptt.Packets.{IsSome, voice_burst-IsSome, tx_control-IsSome, lc_rotation-IsSome}
use asl_dmr_bridge.Ptt.Machine.{
  Codec, Env, TxCall, PttState, idle, tx, PttMachine, emit_stats, is_group_call,
}
use asl_dmr_bridge.Ptt.Transcode.{Transcoded, encode}
use asl_dmr_bridge.Ptt.View.{View, Shows, Allows, Consistent}
use asl_dmr_bridge.Ptt.Steps.{
  Shows-Consistent, emit_stats-Shows, weaken, emit-Quiet-Shows, set_state-Shows, on_ptt_up-Shows,
  on_tx_call_start-Shows, diagnostic-Quiet, control_out-Quiet, voice_out-Quiet, encode-Untouched,
}
use asl_dmr_bridge.Ptt.Tx.{
  codewords_of, fm, new_call, record_tx_ambe, if_encoded, encode_all, drop_burst_fm_to_dmr,
  try_send_voice_dmrd, send_control_dmrd, record_tx_frames, send_encoded, send_burst, flush_buffer,
  flush_tx, finish_tx, start_with, start_tx, lc_rotation_of, build_tx_control,
}
use asl_dmr_bridge.Ptt.Moves.{
  Opens, call_start-Moves, call_end-Moves, drops-Shows, voices-Shows, Untouched-Shows, Unlit,
}

module _ {codec : Codec} {P : View → Type 0} {s : PttState} where
  record_tx_ambe-Shows :
      (r : Option AmbeFrame) (m : PttMachine codec) → Shows P s m → Shows P s (record_tx_ambe r m)
  unfolding record_tx_ambe
  record_tx_ambe-Shows none m h = h
  record_tx_ambe-Shows (some f) m h = emit-Quiet-Shows _ m (diagnostic-Quiet _) h

  encode_all-Shows :
      (fs : List PcmFrame) (m : PttMachine codec) → Shows P s m → Shows P s (encode_all fs m).0
  unfolding encode_all
  encode_all-Shows [] m h = h
  encode_all-Shows (pcm ∷ fs) m h = by_result (encode_all-Shows fs) t.result
    where
      t : Transcoded codec AmbeFrame
      t = encode pcm m

      recorded : (r : Option AmbeFrame) → Shows P s (record_tx_ambe r t.machine)
      recorded r = record_tx_ambe-Shows r t.machine (Untouched-Shows (encode-Untouched pcm m) h)

      by_result :
          ((n : PttMachine codec) → Shows P s n → Shows P s (encode_all fs n).0)
          → (r : Option AmbeFrame)
          → Shows P s
              (if_encoded r t.elapsed
                (record_tx_ambe r t.machine)
                (encode_all fs (record_tx_ambe r t.machine))).0
      by_result rest none = recorded none
      by_result rest (some f) = rest _ (recorded (some f))

  record_tx_frames-Shows :
      (fs : List PcmFrame) (m : PttMachine codec) → Shows P s m → Shows P s (record_tx_frames fs m)
  unfolding record_tx_frames
  record_tx_frames-Shows [] m h = h
  record_tx_frames-Shows (pcm ∷ fs) m h =
      record_tx_frames-Shows fs _ (emit-Quiet-Shows _ m (diagnostic-Quiet _) h)

  pub send_control_dmrd-Shows :
      (packet : Option (List ℕ)) (m : PttMachine codec)
      → IsSome packet
      → Shows P s m
      → Shows P s (send_control_dmrd packet m)
  unfolding send_control_dmrd
  send_control_dmrd-Shows none m built h = ground arith
  send_control_dmrd-Shows (some pkt) m built h = emit-Quiet-Shows _ m (control_out-Quiet pkt) h

-- The bursts of a transmission, in any state while its call is open.
module _ {codec : Codec} {P : View → Type 0} {s : PttState} (live : Opens fm_to_dmr P)
    (env : Env) where
  try_send_voice_dmrd-Shows :
      (packet : Option (List ℕ)) (ts : List ℕ) (m : PttMachine codec)
      → IsSome packet
      → Shows P s m
      → Shows P s (try_send_voice_dmrd env packet ts m)
  unfolding try_send_voice_dmrd drop_burst_fm_to_dmr
  try_send_voice_dmrd-Shows none ts m built h = ground arith
  try_send_voice_dmrd-Shows (some pkt) ts m built h = elim (Bool-cases env.voice_room) [
    | inl e ↦
        simp e (voices-Shows fm_to_dmr live ts _ (emit-Quiet-Shows _ m (voice_out-Quiet pkt) h))
    | inr e ↦ simp e (drops-Shows fm_to_dmr live frames_per_burst m h)
  ]

  send_encoded-Shows :
      (r : Option (List AmbeFrame × List ℕ)) (call : TxCall) (m : PttMachine codec)
      → Shows P s m
      → Shows P s (send_encoded env r call m).0
  unfolding send_encoded drop_burst_fm_to_dmr
  send_encoded-Shows none call m h = drops-Shows fm_to_dmr live frames_per_burst m h
  send_encoded-Shows (some (frames, ts)) call m h =
      try_send_voice_dmrd-Shows _ ts m
        (voice_burst-IsSome m.config (codewords_of frames) call h.configured) h

  pub send_burst-Shows :
      (pcm : List PcmFrame) (call : TxCall) (m : PttMachine codec)
      → Shows P s m
      → Shows P s (send_burst env pcm call m).0
  unfolding send_burst
  send_burst-Shows pcm call m h =
      send_encoded-Shows _ call _ (encode_all-Shows pcm _ (record_tx_frames-Shows pcm m h))

  flush_tx-Shows :
      (call : TxCall) (m : PttMachine codec) → Shows P s m → Shows P s (flush_tx env call m).0
  unfolding flush_tx flush_buffer
  flush_tx-Shows call m h = by_buffer call.pcm_buf
    where
      by_buffer : (buf : List PcmFrame) → Shows P s (flush_buffer env buf call m).0
      by_buffer [] = h
      by_buffer (pcm ∷ rest) =
          send_burst-Shows
            (take frames_per_burst ((pcm ∷ rest) ++ replicate frames_per_burst silence))
            (record call { pcm_buf = [] }) m h

module _ {codec : Codec} {s : PttState} where
  call_opened :
      (c : TxCall) (src : SubscriberId) (dst : ℕ) (slot : Slot) (m : PttMachine codec)
      → Shows (Allows idle) s m
      → Shows (Allows (tx c)) s (emit_stats (call_start fm src dst slot) m)
  call_opened c src dst slot m h =
      weaken _ (λ v p. (p.0, p.1.0, p.1.1))
        (emit_stats-Shows _ m (call_start-Moves {K = Unlit} fm_to_dmr src dst slot (λ v o k. k))
          (weaken m (λ v p. (p.0, (p.1, p.2))) h))

  pub call_closed :
      (c : TxCall) (reason : TerminationReason) (m : PttMachine codec)
      → Shows (Allows (tx c)) s m
      → Shows (Allows idle) s (emit_stats (call_end fm reason) m)
  call_closed c reason m h =
      weaken _ (λ v p. (p.0, p.1.0, p.1.1))
        (emit_stats-Shows _ m (call_end-Moves {K = Unlit} fm_to_dmr reason (λ v o k. k))
          (weaken m (λ v p. (p.0, (p.1, p.2))) h))

-- A transmission ends: its call is closed.
pub finish_tx-Shows :
    {codec : Codec} {s : PttState} (env : Env) (reason : TerminationReason) (call c : TxCall)
    (m : PttMachine codec)
    → Shows (Allows (tx c)) s m
    → Shows (Allows idle) s (finish_tx env reason call m)
unfolding finish_tx
finish_tx-Shows env reason call c m h = emit-Quiet-Shows _ _ (diagnostic-Quiet _) (
    call_closed c reason _ (
      let flushed = flush_tx-Shows (λ v p. p.0) env call m h in
      send_control_dmrd-Shows _ _ (tx_control-IsSome _ _ _ _ flushed.configured) flushed))

-- A transmission begins: its call is open.
pub start_tx-Shows :
    {codec : Codec} (env : Env) (pcm : PcmFrame) (m : PttMachine codec)
    → Shows (Allows idle) idle m
    → Consistent (start_tx env pcm m)
unfolding start_tx start_with
start_tx-Shows {codec} env pcm m h =
    by_rotation (lc_rotation_of (is_group_call m) m.config)
      (lc_rotation-IsSome m.config _ h.configured)
  where
    by_rotation :
        (r : Option (List (List (List ℕ)))) → IsSome r → Consistent (start_with env pcm r m)
    by_rotation none built = ground arith
    by_rotation (some r) built = Shows-Consistent _ (
        set_state-Shows _ _ (
          send_control_dmrd-Shows _ _ (tx_control-IsSome _ _ _ _ h.configured)
            (call_opened call _ _ _ _ (on_tx_call_start-Shows _ _ (on_ptt_up-Shows m h)))))
      where
        call : TxCall
        call =
            record (build_tx_control (is_group_call m) m.config data_type_voice_header
              (new_call env r)).call { pcm_buf = pcm ∷ [] }
