-- ===== src/Ptt/Receiving.antt =====
-- dmr-wire/src/voice/ptt.rs: how the methods of the DMR to FM direction move the view.
use asl_dmr_bridge.Base.{
  ℕ, zero, suc, ◌+◌, ◌≡◌, refl, List, [], ◌∷◌, Bool, false, Option, none, some, ◌⊎◌, inl, inr, ltb,
  Bool-cases,
}
use asl_dmr_bridge.Dmrd.{Dmrd}
use asl_dmr_bridge.Frame.{extract_ambe}
use asl_dmr_bridge.Events.{MetaEvent, dmr_to_fm, AmbeFrame, PcmFrame, TerminationReason}
use asl_dmr_bridge.Voice.{frames_per_burst, make_voice_frame, make_unkey_frame}
use asl_dmr_bridge.Ptt.Machine.{
  Codec, Env, PttState, idle, PttMachine, audio, metadata, emit_clear_metadata,
}
use asl_dmr_bridge.Ptt.View.{View, closed, open_to, watch, Shows, Moves, Allows, Consistent}
use asl_dmr_bridge.Ptt.Steps.{
  Shows-Consistent, emit-Shows, emit_stats-Shows, weaken, emit-Quiet-Shows, set_state-Shows,
  on_ptt_up-Shows, warm_decoder_cache-Shows, emit_call_metadata-Shows, diagnostic-Quiet,
  decode-Untouched,
}
use asl_dmr_bridge.Ptt.Moves.{
  voice_frame-Moves, frame_dropped-Moves, call_start-Moves, call_end-Moves, drops-Shows,
  Untouched-Shows,
}
use asl_dmr_bridge.Ptt.Rx.{
  call_of, start_rx, end_rx, opened, play_gap, decode_gap, play_frame, decode_frames,
  record_rx_frames, gap_filled, play_burst, frames_of, gap_boundary_packets,
}

-- The FM side is keyed by no stream but this one.
abbrev pub KeyedBy : ℕ → View → Type 0
KeyedBy stream v = (v.keyed ≡ none) ⊎ (v.keyed ≡ some stream)

-- A call from DMR is open.
abbrev pub Received : ℕ → View → Type 0
Received stream v = (v.calls ≡ open_to dmr_to_fm) × KeyedBy stream v

abbrev pub Ended : View → Type 0
Ended v = (v.calls ≡ closed) × (v.keyed ≡ none)

voice-Moves :
    (pcm : PcmFrame) (stream : ℕ)
    → Moves (Received stream) (audio (make_voice_frame pcm stream)) (Received stream)
unfolding watch make_voice_frame
voice-Moves pcm stream v (e, k) = (record v { keyed = some stream }, rw (e) refl, (e, inr refl))

unkey-Moves :
    (K : Bool → Type 0) (stream : Option ℕ)
    → Moves
        (λ v. (v.calls ≡ closed) × K v.shown)
        (audio (make_unkey_frame stream))
        (λ v. Ended v × K v.shown)
unfolding watch make_unkey_frame
unkey-Moves K stream v (e, k) = (record v { keyed = none }, refl, ((e, refl), k))

clear-Moves :
    (stream : ℕ)
    → Moves
        (Received stream)
        (metadata MetaEvent.clear)
        (λ v. Received stream v × (v.shown ≡ false))
unfolding watch
clear-Moves stream v p = (record v { shown = false }, refl, (p, refl))

module _ {codec : Codec} {s : PttState} where
  pub end_rx-Shows :
      (K : Bool → Type 0) (reason : TerminationReason) (stream opened_by : ℕ) (m : PttMachine codec)
      → Shows (λ v. Received opened_by v × K v.shown) s m
      → Shows (λ v. Ended v × K v.shown) s (end_rx reason stream m)
  unfolding end_rx
  end_rx-Shows K reason stream opened_by m h = emit-Shows _ _ (unkey-Moves K (some stream)) (
      emit-Quiet-Shows _ _ (diagnostic-Quiet _) (
        emit_stats-Shows _ _ (call_end-Moves {K = λ v. K v.shown} dmr_to_fm reason (λ v o k. k))
          (weaken m (λ v p. (p.0.0, p.1)) h)))

  -- The end of a call: its metadata goes, the call is closed, the FM side is unkeyed.
  pub cleared_end-Shows :
      (reason : TerminationReason) (stream opened_by : ℕ) (m : PttMachine codec)
      → Shows (Received opened_by) s m
      → Shows (Allows idle) s (end_rx reason stream (emit_clear_metadata m))
  unfolding emit_clear_metadata
  cleared_end-Shows reason stream opened_by m h =
      weaken _ (λ v p. (p.0.0, p.0.1, p.1))
        (end_rx-Shows (λ b. b ≡ false) reason stream opened_by _
          (emit-Shows _ m (clear-Moves opened_by) h))

  -- The start of a call, by its header or by a voice burst.
  pub start_rx-Shows :
      (env : Env) (pkt : Dmrd) (m : PttMachine codec)
      → Shows Ended s m
      → Consistent (start_rx env pkt m)
  unfolding start_rx call_of
  start_rx-Shows env pkt m h = Shows-Consistent _ (
      set_state-Shows _ _ (
        emit-Quiet-Shows _ _ (diagnostic-Quiet _) (
          warm_decoder_cache-Shows _ (
            on_ptt_up-Shows _ (
              weaken _ (λ v p. (p.0, inl p.1))
                (emit_stats-Shows _ _
                  (call_start-Moves {K = λ v. v.keyed ≡ none} dmr_to_fm _ _ _ (λ v o k. k))
                  (emit_call_metadata-Shows pkt m (λ v p. p) h)))))))

  pub opened-Shows :
      (pkt : Dmrd) (m : PttMachine codec)
      → Shows Ended s m
      → Shows (Received pkt.stream_id) s (opened pkt m)
  unfolding opened
  opened-Shows pkt m h =
      emit_call_metadata-Shows pkt _ (λ v p. p)
        (weaken _ (λ v p. (p.0, inl p.1))
          (emit_stats-Shows _ _
            (call_start-Moves {K = λ v. v.keyed ≡ none} dmr_to_fm _ _ _ (λ v o k. k))
            (emit-Quiet-Shows _ _ (diagnostic-Quiet _)
              (warm_decoder_cache-Shows _ (on_ptt_up-Shows m h)))))

-- The frames of a burst, while the call of its stream is open.
module _ {codec : Codec} {s : PttState} (stream : ℕ) where
  play_gap-Shows :
      (r : Option PcmFrame) (m : PttMachine codec)
      → Shows (Received stream) s m
      → Shows (Received stream) s (play_gap r stream m)
  unfolding play_gap
  play_gap-Shows none m h = h
  play_gap-Shows (some pcm) m h =
      emit-Shows _ _ (voice-Moves pcm stream) (emit-Quiet-Shows _ m (diagnostic-Quiet _) h)

  decode_gap-Shows :
      (n : ℕ) (m : PttMachine codec)
      → Shows (Received stream) s m
      → Shows (Received stream) s (decode_gap n stream m)
  unfolding decode_gap
  decode_gap-Shows zero m h = h
  decode_gap-Shows (suc n) m h =
      decode_gap-Shows n _ (play_gap-Shows _ _ (Untouched-Shows (decode-Untouched none m) h))

  play_frame-Shows :
      (r : Option PcmFrame) (t : ℕ) (m : PttMachine codec)
      → Shows (Received stream) s m
      → Shows (Received stream) s (play_frame r t stream m)
  unfolding play_frame
  play_frame-Shows none t m h = emit_stats-Shows _ m (frame_dropped-Moves dmr_to_fm (λ v p. p.0)) h
  play_frame-Shows (some pcm) t m h = emit-Shows _ _ (voice-Moves pcm stream) (
      emit-Quiet-Shows _ _ (diagnostic-Quiet _)
        (emit_stats-Shows _ m (voice_frame-Moves dmr_to_fm t (λ v p. p.0)) h))

  decode_frames-Shows :
      (fs : List AmbeFrame) (m : PttMachine codec)
      → Shows (Received stream) s m
      → Shows (Received stream) s (decode_frames fs stream m)
  unfolding decode_frames
  decode_frames-Shows [] m h = h
  decode_frames-Shows (f ∷ fs) m h =
      decode_frames-Shows fs _
        (play_frame-Shows _ _ _ (Untouched-Shows (decode-Untouched (some f) m) h))

  record_rx_frames-Shows :
      (fs : List AmbeFrame) (m : PttMachine codec)
      → Shows (Received stream) s m
      → Shows (Received stream) s (record_rx_frames fs m)
  unfolding record_rx_frames
  record_rx_frames-Shows [] m h = h
  record_rx_frames-Shows (f ∷ fs) m h =
      record_rx_frames-Shows fs _ (emit-Quiet-Shows _ m (diagnostic-Quiet _) h)

  gap_filled-Shows :
      (gap : ℕ) (m : PttMachine codec)
      → Shows (Received stream) s m
      → Shows (Received stream) s (gap_filled gap m).0
  unfolding gap_filled
  gap_filled-Shows gap m h = elim (Bool-cases (ltb gap_boundary_packets gap)) [
    | inl e ↦ simp e (on_ptt_up-Shows m h)
    | inr e ↦ simp e h
  ]

pub play_burst-Shows :
    {codec : Codec} {s : PttState} (env : Env) (pkt : Dmrd) (gap : ℕ) (m : PttMachine codec)
    → Shows (Received pkt.stream_id) s m
    → Shows (Received pkt.stream_id) s (play_burst env pkt gap m)
unfolding play_burst
play_burst-Shows {codec} {s} env pkt gap m h =
    elim (Bool-cases (ltb env.audio_room (frames_per_burst + filled.1))) [
      | inl e ↦ simp e (drops-Shows dmr_to_fm (λ v p. p.0) frames_per_burst _ ready)
      | inr e ↦ simp e (
          decode_frames-Shows pkt.stream_id (frames_of (extract_ambe pkt.dmr_data)) _
            (decode_gap-Shows pkt.stream_id filled.1 _ ready))
    ]
  where
    filled : PttMachine codec × ℕ
    filled = gap_filled gap (record_rx_frames (frames_of (extract_ambe pkt.dmr_data)) m)

    ready : Shows (Received pkt.stream_id) s filled.0
    ready =
        gap_filled-Shows pkt.stream_id gap _
          (record_rx_frames-Shows pkt.stream_id (frames_of (extract_ambe pkt.dmr_data)) m h)
