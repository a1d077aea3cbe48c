-- ===== src/Ptt/Accounting/Received.antt =====
-- dmr-wire/src/voice/ptt.rs: every received burst is accounted for, frame by frame, on every branch.
use asl_dmr_bridge.Base.{
  ℕ, zero, suc, ◌+◌, refl, arith, List, [], ◌∷◌, Option, none, some, ltb, Bool-cases, inl, inr,
  length,
}
use asl_dmr_bridge.Dmrd.{Dmrd}
use asl_dmr_bridge.Frame.{extract_ambe}
use asl_dmr_bridge.Events.{AmbeFrame, PcmFrame, dmr_to_fm}
use asl_dmr_bridge.Voice.{frames_per_burst}
use asl_dmr_bridge.Ptt.Machine.{Codec, Env, PttMachine}
use asl_dmr_bridge.Ptt.Steps.{decode-Untouched}
use asl_dmr_bridge.Ptt.Rx.{
  play_gap, decode_gap, play_frame, decode_frames, record_rx_frames, gap_filled, play_burst,
  frames_of, gap_boundary_packets,
}
use asl_dmr_bridge.Ptt.Accounting.{
  frames_in, Counts, silent-Counts, emit_stats-Counts, Untouched-Counts, on_ptt_up-Counts, recount,
  drops-Counts,
}

module _ {codec : Codec} where
  -- Received bursts.
  play_frame-Counts :
      (r : Option PcmFrame) (t stream n : ℕ) (m : PttMachine codec)
      → Counts n m
      → Counts (1 + n) (play_frame r t stream m)
  unfolding play_frame frames_in
  play_frame-Counts none t stream n m h = emit_stats-Counts _ m h
  play_frame-Counts (some pcm) t stream n m h =
      silent-Counts _ _ refl (silent-Counts _ _ refl (emit_stats-Counts _ m h))

  decode_frames-Counts :
      (fs : List AmbeFrame) (stream n : ℕ) (m : PttMachine codec)
      → Counts n m
      → Counts (length fs + n) (decode_frames fs stream m)
  unfolding decode_frames
  decode_frames-Counts [] stream n m h = recount m (omega arith) h
  decode_frames-Counts (f ∷ fs) stream n m h = recount _ (omega arith) (
      decode_frames-Counts fs stream (1 + n) _
        (play_frame-Counts _ _ stream n _ (Untouched-Counts (decode-Untouched (some f) m) h)))

  play_gap-Counts :
      (r : Option PcmFrame) (stream n : ℕ) (m : PttMachine codec)
      → Counts n m
      → Counts n (play_gap r stream m)
  unfolding play_gap frames_in
  play_gap-Counts none stream n m h = h
  play_gap-Counts (some pcm) stream n m h = silent-Counts _ _ refl (silent-Counts _ m refl h)

  decode_gap-Counts :
      (k stream n : ℕ) (m : PttMachine codec) → Counts n m → Counts n (decode_gap k stream m)
  unfolding decode_gap
  decode_gap-Counts zero stream n m h = h
  decode_gap-Counts (suc k) stream n m h =
      decode_gap-Counts k stream n _
        (play_gap-Counts _ stream n _ (Untouched-Counts (decode-Untouched none m) h))

  record_rx_frames-Counts :
      (fs : List AmbeFrame) (n : ℕ) (m : PttMachine codec)
      → Counts n m
      → Counts n (record_rx_frames fs m)
  unfolding record_rx_frames frames_in
  record_rx_frames-Counts [] n m h = h
  record_rx_frames-Counts (f ∷ fs) n m h = record_rx_frames-Counts fs n _ (silent-Counts _ m refl h)

  gap_filled-Counts :
      (gap n : ℕ) (m : PttMachine codec) → Counts n m → Counts n (gap_filled gap m).0
  unfolding gap_filled
  gap_filled-Counts gap n m h = elim (Bool-cases (ltb gap_boundary_packets gap)) [
    | inl e ↦ simp e (on_ptt_up-Counts m h)
    | inr e ↦ simp e h
  ]

  -- With statistics on, a received burst adds three to the frames accounted for on every branch: with
  -- room for its audio or without, whatever the vocoder answers for each frame, and whatever the gap.
  pub play_burst-accounts :
      (env : Env) (pkt : Dmrd) (gap n : ℕ) (m : PttMachine codec)
      → Counts n m
      → Counts (frames_per_burst + n) (play_burst env pkt gap m)
  unfolding play_burst
  play_burst-accounts env pkt gap n m h =
      elim (Bool-cases (ltb env.audio_room (frames_per_burst + filled.1))) [
        | inl e ↦ simp e (drops-Counts dmr_to_fm frames_per_burst n filled.0 ready)
        | inr e ↦ simp e (
            decode_frames-Counts (frames_of (extract_ambe pkt.dmr_data)) pkt.stream_id n _
              (decode_gap-Counts filled.1 pkt.stream_id n _ ready))
      ]
    where
      filled : PttMachine codec × ℕ
      filled = gap_filled gap (record_rx_frames (frames_of (extract_ambe pkt.dmr_data)) m)

      ready : Counts n filled.0
      ready =
          gap_filled-Counts gap n _
            (record_rx_frames-Counts (frames_of (extract_ambe pkt.dmr_data)) n m h)
