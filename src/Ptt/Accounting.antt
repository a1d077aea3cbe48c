-- ===== src/Ptt/Accounting.antt =====
-- dmr-wire/src/voice/ptt.rs: counting the frames that the statistics account for.
pub mod Received
pub mod Sent
use asl_dmr_bridge.Base.{
  ℕ, zero, suc, ◌+◌, ◌*◌, ◌≡◌, refl, arith, List, [], ◌∷◌, map, Bool, true, false, Option, none,
  some, ltb, leb, ◌==◌, Bool-cases, inl, inr, if◌then◌else◌, length, replicate, sym, ap, ◌∙◌,
}
use mathlib.Core.Path.{subst}
use asl_dmr_bridge.Dmrd.{Dmrd}
use asl_dmr_bridge.Frame.{extract_ambe}
use asl_dmr_bridge.Events.{
  AmbeFrame, PcmFrame, StatsEvent, CallDirection, fm_to_dmr, dmr_to_fm, voice_frame, frame_dropped,
  call_start, call_end, TerminationReason,
}
use asl_dmr_bridge.Voice.{VoiceConfig, frames_per_burst}
use asl_dmr_bridge.Ptt.View.{Configured}
use asl_dmr_bridge.Ptt.Packets.{IsSome, voice_burst-IsSome}
use asl_dmr_bridge.Ptt.Machine.{
  Codec, Env, RxCall, TxCall, Effect, PttMachine, stats, emit, emit_stats, on_ptt_up,
}
use asl_dmr_bridge.Ptt.Transcode.{Transcoded, decode, encode}
use asl_dmr_bridge.Ptt.Steps.{Untouched, decode-Untouched, encode-Untouched}
use asl_dmr_bridge.Ptt.Tx.{
  joined, if_encoded, record_tx_ambe, encode_all, each_stat, drop_burst_fm_to_dmr,
  try_send_voice_dmrd, record_tx_frames, send_encoded, send_burst, build_voice_burst,
}
use asl_dmr_bridge.Ptt.Rx.{
  play_gap, decode_gap, play_frame, decode_frames, record_rx_frames, gap_filled, play_burst,
  frames_of, gap_boundary_packets,
}

-- The frames that one output accounts for, as played or as dropped.
unfoldable pub frames_in : Effect → ℕ
frames_in (stats (voice_frame dir t)) = 1
frames_in (stats (frame_dropped dir)) = 1
frames_in _ = 0

unfoldable pub frames_accounted : List Effect → ℕ
unfolding frames_in
frames_accounted [] = 0
frames_accounted (e ∷ log) = frames_in e + frames_accounted log

-- Statistics are on, and so many frames are accounted for.
pub record Counts {codec : Codec} (n : ℕ) (m : PttMachine codec) : Type 0 where
  pub on : m.stats_enabled ≡ true
  pub total : frames_accounted m.log ≡ n

module _ {codec : Codec} {n : ℕ} where
  emit-Counts :
      (e : Effect) (m : PttMachine codec) → Counts n m → Counts (frames_in e + n) (emit e m)
  unfolding emit frames_accounted
  emit-Counts e m h = record { on = h.on; total = ap (λ k. frames_in e + k) h.total }

  pub emit_stats-Counts :
      (e : StatsEvent) (m : PttMachine codec)
      → Counts n m
      → Counts (frames_in (stats e) + n) (emit_stats e m)
  unfolding emit_stats
  emit_stats-Counts e m h =
      subst (λ b. Counts (frames_in (stats e) + n) (if b then emit (stats e) m else m)) (sym h.on)
        (emit-Counts (stats e) m h)

  pub silent-Counts :
      (e : Effect) (m : PttMachine codec) → frames_in e ≡ 0 → Counts n m → Counts n (emit e m)
  silent-Counts e m q h =
      let grown = emit-Counts e m h in
      record { on = grown.on; total = grown.total ∙ ap (λ k. k + n) q ∙ omega arith }

  pub Untouched-Counts : {m k : PttMachine codec} → Untouched m k → Counts n m → Counts n k
  Untouched-Counts u h = record {
    on = u.stats_kept ∙ h.on;
    total = ap frames_accounted u.log_kept ∙ h.total;
  }

  pub on_ptt_up-Counts : (m : PttMachine codec) → Counts n m → Counts n (on_ptt_up m)
  unfolding on_ptt_up emit frames_accounted frames_in
  on_ptt_up-Counts m h = elim (Bool-cases m.poisoned) [
    | inl e ↦ simp e (record { on = h.on; total = h.total })
    | inr e ↦ simp e (record { on = h.on; total = omega arith ∙ h.total })
  ]

module _ {codec : Codec} where
  pub recount : {n k : ℕ} (m : PttMachine codec) → n ≡ k → Counts n m → Counts k m
  recount m e h = record { on = h.on; total = h.total ∙ e }

  pub drops-Counts :
      (dir : CallDirection) (k n : ℕ) (m : PttMachine codec)
      → Counts n m
      → Counts (k + n) (each_stat (replicate k (frame_dropped dir)) m)
  unfolding each_stat frames_in
  drops-Counts dir zero n m h = recount m (omega arith) h
  drops-Counts dir (suc k) n m h =
      recount _ (omega arith) (drops-Counts dir k (1 + n) _ (emit_stats-Counts _ m h))

  pub voices-Counts :
      (dir : CallDirection) (ts : List ℕ) (n : ℕ) (m : PttMachine codec)
      → Counts n m
      → Counts (length ts + n) (each_stat (map (voice_frame dir) ts) m)
  unfolding each_stat frames_in
  voices-Counts dir [] n m h = recount m (omega arith) h
  voices-Counts dir (t ∷ ts) n m h =
      recount _ (omega arith) (voices-Counts dir ts (1 + n) _ (emit_stats-Counts _ m h))
