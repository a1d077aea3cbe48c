-- ===== src/Ptt/Steps.antt =====
-- How each small method of the machine moves the view: rules for `Shows`.
use asl_dmr_bridge.Base.{
  ℕ, ◌≡◌, refl, List, true, Option, some, if◌then◌else◌, arith, inl, inr, Bool-cases, ◌∙◌, ap, sym,
}
use mathlib.Core.Path.{subst}
use asl_dmr_bridge.Ids.{talkgroup, valid, invalid, Checked, Talkgroup}
use asl_dmr_bridge.Dmrd.{Dmrd}
use asl_dmr_bridge.Events.{StatsEvent, AmbeFrame, PcmFrame}
use asl_dmr_bridge.Ptt.Machine.{
  Codec, Diagnostic, PttState, Effect, PttMachine, stats, emit, emit_stats, set_state, on_ptt_up,
  warm_decoder_cache, on_tx_call_start, emit_call_metadata, metadata_for,
}
use asl_dmr_bridge.Ptt.Transcode.{decode, encode}
use asl_dmr_bridge.Ptt.View.{View, watch, replay, Shows, Moves, Allows, Consistent, Configured}

module _ {codec : Codec} {P Q : View → Type 0} {s : PttState} where
  pub emit-Shows :
      (e : Effect) (m : PttMachine codec) → Moves P e Q → Shows P s m → Shows Q s (emit e m)
  unfolding emit replay
  emit-Shows e m move h =
      let (w, moved, held) = move h.view h.meets in
      record {
        state_is = h.state_is;
        enabled = h.enabled;
        configured = h.configured;
        view = w;
        seen = rw (h.seen) moved;
        meets = held;
      }

  pub emit_stats-Shows :
      (e : StatsEvent) (m : PttMachine codec)
      → Moves P (stats e) Q
      → Shows P s m
      → Shows Q s (emit_stats e m)
  unfolding emit_stats
  emit_stats-Shows e m move h =
      subst (λ b. Shows Q s (if b then emit (stats e) m else m)) (sym h.enabled)
        (emit-Shows (stats e) m move h)

  pub weaken : (m : PttMachine codec) → ((v : View) → P v → Q v) → Shows P s m → Shows Q s m
  weaken m f h = record {
    state_is = h.state_is;
    enabled = h.enabled;
    configured = h.configured;
    view = h.view;
    seen = h.seen;
    meets = f h.view h.meets;
  }

-- An effect that the view does not record.
abbrev pub Quiet : Effect → Type 0
Quiet e = (v : View) → watch e v ≡ some v

pub diagnostic-Quiet : (d : Diagnostic) → Quiet (Effect.diagnostic d)
unfolding watch
diagnostic-Quiet d v = refl

pub control_out-Quiet : (pkt : List ℕ) → Quiet (Effect.control_out pkt)
unfolding watch
control_out-Quiet pkt v = refl

pub voice_out-Quiet : (pkt : List ℕ) → Quiet (Effect.voice_out pkt)
unfolding watch
voice_out-Quiet pkt v = refl

module _ {codec : Codec} {P : View → Type 0} {s : PttState} where
  pub emit-Quiet-Shows :
      (e : Effect) (m : PttMachine codec) → Quiet e → Shows P s m → Shows P s (emit e m)
  emit-Quiet-Shows e m q h = emit-Shows e m (λ v p. (v, q v, p)) h

  pub set_state-Shows :
      (t : PttState) (m : PttMachine codec) → Shows P s m → Shows P t (set_state t m)
  unfolding set_state
  set_state-Shows t m h = record {
    state_is = refl;
    enabled = h.enabled;
    configured = h.configured;
    view = h.view;
    seen = h.seen;
    meets = h.meets;
  }

  -- What a method leaves alone when it touches neither state, log nor statistics.
  pub same-Shows :
      {m n : PttMachine codec}
      → n.state ≡ m.state
      → n.stats_enabled ≡ m.stats_enabled
      → n.log ≡ m.log
      → n.config ≡ m.config
      → Shows P s m
      → Shows P s n
  same-Shows a b c d h = record {
    state_is = a ∙ h.state_is;
    enabled = b ∙ h.enabled;
    configured = subst Configured (sym d) h.configured;
    view = h.view;
    seen = ap replay c ∙ h.seen;
    meets = h.meets;
  }

  pub on_ptt_up-Shows : (m : PttMachine codec) → Shows P s m → Shows P s (on_ptt_up m)
  unfolding on_ptt_up
  on_ptt_up-Shows m h = elim (Bool-cases m.poisoned) [
    | inl e ↦ simp e (same-Shows refl refl refl refl h)
    | inr e ↦ simp e (
        emit-Quiet-Shows Effect.vocoder_reset _ (λ v. unfold watch in refl)
          (same-Shows refl refl refl refl h))
  ]

  pub warm_decoder_cache-Shows :
      (m : PttMachine codec) → Shows P s m → Shows P s (warm_decoder_cache m)
  unfolding warm_decoder_cache
  warm_decoder_cache-Shows m h = elim (Bool-cases m.poisoned) [
    | inl e ↦ simp e (same-Shows refl refl refl refl h)
    | inr e ↦ simp e (
        emit-Quiet-Shows Effect.cache_warmed _ (λ v. unfold watch in refl)
          (same-Shows refl refl refl refl h))
  ]

  pub on_tx_call_start-Shows :
      (stream_id : ℕ) (m : PttMachine codec)
      → Shows P s m
      → Shows P s (on_tx_call_start stream_id m)
  unfolding on_tx_call_start
  on_tx_call_start-Shows stream_id m h =
      emit-Quiet-Shows (Effect.diagnostic (Diagnostic.tx_start stream_id)) _
        (λ v. unfold watch in refl) (same-Shows refl refl refl refl h)

  -- Metadata is shown or, for an addressee that is no talkgroup, left out.
  pub emit_call_metadata-Shows :
      (pkt : Dmrd) (m : PttMachine codec)
      → ((v : View) → P v → P (record v { shown = true }))
      → Shows P s m
      → Shows P s (emit_call_metadata pkt m)
  unfolding emit_call_metadata
  emit_call_metadata-Shows pkt m keep h = by_talkgroup (talkgroup pkt.dst_id)
    where
      by_talkgroup : (r : Checked Talkgroup) → Shows P s (metadata_for r pkt m)
      by_talkgroup (invalid x) = h
      by_talkgroup (valid tg) =
          emit-Shows _ m (λ v p. (record v { shown = true }, unfold watch in refl, keep v p)) h

-- What a vocoder call leaves of the machine.
pub record Untouched {codec : Codec} (m n : PttMachine codec) : Type 0 where
  pub state_kept : n.state ≡ m.state
  pub stats_kept : n.stats_enabled ≡ m.stats_enabled
  pub log_kept : n.log ≡ m.log
  pub config_kept : n.config ≡ m.config

module _ {codec : Codec} where
  pub decode-Untouched :
      (ambe : Option AmbeFrame) (m : PttMachine codec) → Untouched m (decode ambe m).machine
  unfolding decode
  decode-Untouched ambe m = ground arith

  pub encode-Untouched :
      (pcm : PcmFrame) (m : PttMachine codec) → Untouched m (encode pcm m).machine
  unfolding encode
  encode-Untouched pcm m = ground arith

pub Shows-Consistent :
    {codec : Codec} {s : PttState} (m : PttMachine codec) → Shows (Allows s) s m → Consistent m
Shows-Consistent m h = subst (λ t. Shows (Allows t) t m) (sym h.state_is) h
