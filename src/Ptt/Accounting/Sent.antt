-- ===== src/Ptt/Accounting/Sent.antt =====
-- dmr-wire/src/voice/ptt.rs: every burst to send is accounted for, frame by frame, on every branch.
use asl_dmr_bridge.Base.{
  ℕ, suc, ◌+◌, ◌≡◌, refl, arith, List, [], ◌∷◌, Option, none, some, Bool-cases, inl, inr, length,
  sym, ap, ◌∙◌,
}
use mathlib.Core.Path.{subst}
use asl_dmr_bridge.Events.{AmbeFrame, PcmFrame, fm_to_dmr}
use asl_dmr_bridge.Voice.{VoiceConfig, frames_per_burst}
use asl_dmr_bridge.Ptt.View.{Configured}
use asl_dmr_bridge.Ptt.Packets.{IsSome, voice_burst-IsSome}
use asl_dmr_bridge.Ptt.Machine.{Codec, Env, TxCall, PttMachine, emit}
use asl_dmr_bridge.Ptt.Transcode.{Transcoded, encode}
use asl_dmr_bridge.Ptt.Steps.{encode-Untouched}
use asl_dmr_bridge.Ptt.Tx.{
  joined, if_encoded, record_tx_ambe, encode_all, drop_burst_fm_to_dmr, try_send_voice_dmrd,
  record_tx_frames, send_encoded, send_burst, codewords_of,
}
use asl_dmr_bridge.Ptt.Accounting.{
  frames_in, Counts, silent-Counts, Untouched-Counts, recount, drops-Counts, voices-Counts,
}

-- The times of an encoded burst are as many as its frames.
abbrev Timed : ℕ → Option (List AmbeFrame × List ℕ) → Type 0
Timed k none = Unit
Timed k (some (frames, times)) = length times ≡ k

joined-Timed :
    (frame : AmbeFrame) (t k : ℕ) (r : Option (List AmbeFrame × List ℕ))
    → Timed k r
    → Timed (suc k) (joined frame t r)
joined-Timed frame t k none h = tt
joined-Timed frame t k (some (fs, ts)) h = ap suc h

module _ {codec : Codec} where
  record_tx_ambe-Counts :
      (r : Option AmbeFrame) (n : ℕ) (m : PttMachine codec)
      → Counts n m
      → Counts n (record_tx_ambe r m)
  unfolding record_tx_ambe frames_in
  record_tx_ambe-Counts none n m h = h
  record_tx_ambe-Counts (some f) n m h = silent-Counts _ m refl h

  record_tx_ambe-config :
      (r : Option AmbeFrame) (m : PttMachine codec) → (record_tx_ambe r m).config ≡ m.config
  unfolding record_tx_ambe emit
  record_tx_ambe-config none m = refl
  record_tx_ambe-config (some f) m = refl

  record_tx_frames-Counts :
      (fs : List PcmFrame) (n : ℕ) (m : PttMachine codec)
      → Counts n m
      → Counts n (record_tx_frames fs m)
  unfolding record_tx_frames frames_in
  record_tx_frames-Counts [] n m h = h
  record_tx_frames-Counts (f ∷ fs) n m h = record_tx_frames-Counts fs n _ (silent-Counts _ m refl h)

  record_tx_frames-config :
      (fs : List PcmFrame) (m : PttMachine codec) → (record_tx_frames fs m).config ≡ m.config
  unfolding record_tx_frames emit
  record_tx_frames-config [] m = refl
  record_tx_frames-config (f ∷ fs) m = record_tx_frames-config fs (emit _ m)

  record Encodes (n k : ℕ) (config : VoiceConfig)
      (out : PttMachine codec × Option (List AmbeFrame × List ℕ)) : Type 0 where
    counts : Counts n out.0
    config_kept : out.0.config ≡ config
    timed : Timed k out.1

  encode_all-Encodes :
      (fs : List PcmFrame) (n : ℕ) (m : PttMachine codec)
      → Counts n m
      → Encodes n (length fs) m.config (encode_all fs m)
  unfolding encode_all
  encode_all-Encodes [] n m h = record { counts = h; config_kept = refl; timed = refl }
  encode_all-Encodes (pcm ∷ fs) n m h = by_result (encode_all-Encodes fs n) (encode pcm m).result
    where
      t : Transcoded codec AmbeFrame
      t = encode pcm m

      kept : (r : Option AmbeFrame) → (record_tx_ambe r t.machine).config ≡ m.config
      kept r = record_tx_ambe-config r t.machine ∙ (encode-Untouched pcm m).config_kept

      counted : (r : Option AmbeFrame) → Counts n (record_tx_ambe r t.machine)
      counted r = record_tx_ambe-Counts r n t.machine (Untouched-Counts (encode-Untouched pcm m) h)

      by_result :
          ((k : PttMachine codec) → Counts n k → Encodes n (length fs) k.config (encode_all fs k))
          → (r : Option AmbeFrame)
          → Encodes n (suc (length fs)) m.config (
              if_encoded r t.elapsed
                (record_tx_ambe r t.machine)
                (encode_all fs (record_tx_ambe r t.machine)))
      by_result rest none = record { counts = counted none; config_kept = kept none; timed = tt }
      by_result rest (some f) =
          let tail = rest _ (counted (some f)) in
          record {
            counts = tail.counts;
            config_kept = tail.config_kept ∙ kept (some f);
            timed = joined-Timed f t.elapsed (length fs) _ tail.timed;
          }

  try_send-Counts :
      (env : Env) (packet : Option (List ℕ)) (times : List ℕ) (n : ℕ) (m : PttMachine codec)
      → IsSome packet
      → length times ≡ frames_per_burst
      → Counts n m
      → Counts (frames_per_burst + n) (try_send_voice_dmrd env packet times m)
  unfolding try_send_voice_dmrd drop_burst_fm_to_dmr frames_in
  try_send-Counts env none times n m built e h = ground arith
  try_send-Counts env (some pkt) times n m built e h = elim (Bool-cases env.voice_room) [
    | inl f ↦ simp f (
        recount _ (ap (λ k. k + n) e)
          (voices-Counts fm_to_dmr times n _ (silent-Counts _ m refl h)))
    | inr f ↦ simp f (drops-Counts fm_to_dmr frames_per_burst n m h)
  ]

  -- With statistics on and identifiers of 24 bits, sending a burst of three frames adds three to the
  -- frames accounted for on every branch: an encoder error, a full channel, or a burst that goes out.
  pub send_burst-accounts :
      (env : Env) (pcm : List PcmFrame) (call : TxCall) (n : ℕ) (m : PttMachine codec)
      → Configured m.config
      → length pcm ≡ frames_per_burst
      → Counts n m
      → Counts (frames_per_burst + n) (send_burst env pcm call m).0
  unfolding send_burst send_encoded drop_burst_fm_to_dmr
  send_burst-accounts env pcm call n m ok e h =
      by_encoded (encode_all pcm recorded)
        (encode_all-Encodes pcm n recorded (record_tx_frames-Counts pcm n m h))
    where
      recorded : PttMachine codec
      recorded = record_tx_frames pcm m

      by_encoded :
          (out : PttMachine codec × Option (List AmbeFrame × List ℕ))
          → Encodes n (length pcm) recorded.config out
          → Counts (frames_per_burst + n) (send_encoded env out.1 call out.0).0
      by_encoded (k, none) g = drops-Counts fm_to_dmr frames_per_burst n k g.counts
      by_encoded (k, some (frames, times)) g =
          try_send-Counts env _ times n k
            (voice_burst-IsSome k.config (codewords_of frames) call
              (subst Configured (sym (g.config_kept ∙ record_tx_frames-config pcm m)) ok))
            (g.timed ∙ e) g.counts
