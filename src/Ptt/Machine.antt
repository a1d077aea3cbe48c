-- ===== src/Ptt/Machine.antt =====
-- dmr-wire/src/voice/ptt.rs: the state of the machine, its outputs, and the small methods on them.
-- The vocoder (`dyn Vocoder`) and the pre-encode filter are an interface. Every output is an entry of
-- `log`, the newest first. The entries `stats` and `metadata` are what is handed to `try_send`.
use asl_dmr_bridge.Base.{
  ℕ, ◌+◌, List, [], ◌∷◌, Bool, true, false, Option, none, some, if◌then◌else◌,
}
use asl_dmr_bridge.Ids.{SubscriberId, Slot, Talkgroup, Checked, valid, invalid, talkgroup}
use asl_dmr_bridge.Dmrd.{Dmrd, group, unit}
use asl_dmr_bridge.Events.{PcmFrame, AmbeFrame, AudioFrame, MetaEvent, StatsEvent}
use asl_dmr_bridge.Voice.{VoiceConfig}

-- How a call of the vocoder ends.
pub data Outcome (A : Type 0) : Type 0 where
  good : A → Outcome A
  bad : Outcome A
  panics : Outcome A

-- What a call of the vocoder leaves: its result, its next state, the time it took, and whether
-- another task cancelled ours meanwhile.
pub record Reply (S A : Type 0) : Type 0 where
  pub outcome : Outcome A
  pub next : S
  pub elapsed : ℕ
  pub cancel_seen : Bool

pub record Codec : Type 1 where
  pub Vocoder : Type 0
  pub decode : Vocoder → Option AmbeFrame → Reply Vocoder PcmFrame
  pub encode : Vocoder → PcmFrame → Reply Vocoder AmbeFrame
  pub reset : Vocoder → Vocoder
  pub warm_cache : Vocoder → Vocoder
  pub Filter : Type 0
  pub process_pcm : Filter → PcmFrame → Filter × PcmFrame
  pub clear : Filter → Filter

pub record RxCall : Type 0 where
  pub stream_id : ℕ
  pub src_id : SubscriberId
  pub dst_id : ℕ
  pub slot : Slot
  pub started : ℕ
  pub last_voice : ℕ
  pub last_seq : Option ℕ

pub record TxCall : Type 0 where
  pub stream_id : ℕ
  pub dmrd_seq : ℕ
  pub vseq : ℕ
  pub pcm_buf : List PcmFrame
  pub started : ℕ
  pub lc_rotation : List (List (List ℕ))
  pub superframe_idx : ℕ

pub data PttState : Type 0 where
  idle : PttState
  rx : RxCall → PttState
  rx_hang : ℕ → PttState
  tx : TxCall → PttState

-- The recorder and level meters: observation only.
pub data Diagnostic : Type 0 where
  tx_start tx_end rx_start rx_end : ℕ → Diagnostic
  tx_pcm rx_pcm tx_ambe rx_ambe : List ℕ → Diagnostic

pub data Effect : Type 0 where
  audio : AudioFrame → Effect
  voice_out control_out : List ℕ → Effect
  metadata : MetaEvent → Effect
  stats : StatsEvent → Effect
  diagnostic : Diagnostic → Effect
  vocoder_reset cache_warmed : Effect
  panicked : Effect

-- What the outside decides for one event: the clock, the random stream id, the free slots of the
-- audio channel, and whether the bounded DMRD channel takes a packet.
pub record Env : Type 0 where
  pub now : ℕ
  pub new_stream_id : ℕ
  pub audio_room : ℕ
  pub voice_room : Bool

pub record PttMachine (codec : Codec) : Type 0 where
  pub config : VoiceConfig
  pub vocoder : codec.Vocoder
  pub poisoned : Bool
  pub pre_encode_filter : Option codec.Filter
  pub stats_enabled : Bool
  pub callsign_lookup : Option (SubscriberId → Option (List ℕ × List ℕ))
  pub cancelled : Bool
  pub state : PttState
  pub log : List Effect

-- An empty name is left out.
abbrev named : List ℕ → Option (List ℕ)
named [] = none
named (c ∷ cs) = some (c ∷ cs)

abbrev resolved :
    Option (SubscriberId → Option (List ℕ × List ℕ)) → SubscriberId → Option (List ℕ × List ℕ)
resolved none id = none
resolved (some f) id = f id

module _ {codec : Codec} where
  unfoldable pub emit : Effect → PttMachine codec → PttMachine codec
  emit e m = record m { log = e ∷ m.log }

  unfoldable pub emit_stats : StatsEvent → PttMachine codec → PttMachine codec
  unfolding emit
  emit_stats e m = if m.stats_enabled then emit (Effect.stats e) m else m

  unfoldable pub set_state : PttState → PttMachine codec → PttMachine codec
  set_state s m = record m { state = s }

  unfoldable pub fatal_vocoder : PttMachine codec → PttMachine codec
  fatal_vocoder m = record m { cancelled = true }

  unfoldable pub on_ptt_up : PttMachine codec → PttMachine codec
  unfolding emit fatal_vocoder
  on_ptt_up m =
      if m.poisoned
      then fatal_vocoder m
      else emit Effect.vocoder_reset (record m { vocoder = codec.reset m.vocoder })

  unfoldable pub warm_decoder_cache : PttMachine codec → PttMachine codec
  unfolding emit fatal_vocoder
  warm_decoder_cache m =
      if m.poisoned
      then fatal_vocoder m
      else emit Effect.cache_warmed (record m { vocoder = codec.warm_cache m.vocoder })

  -- The recorder starts, and the filter is cleared.
  unfoldable pub on_tx_call_start : ℕ → PttMachine codec → PttMachine codec
  unfolding emit
  on_tx_call_start stream_id m = emit (Effect.diagnostic (tx_start stream_id)) (record m {
    pre_encode_filter = elim m.pre_encode_filter [ none ↦ none | some f ↦ some (codec.clear f) ];
  })

  -- An addressee that is no talkgroup emits nothing.
  unfoldable pub metadata_for : Checked Talkgroup → Dmrd → PttMachine codec → PttMachine codec
  unfolding emit
  metadata_for (invalid e) pkt m = m
  metadata_for (valid tg) pkt m =
      emit
        (Effect.metadata (
          MetaEvent.call (record {
            dmr_id = pkt.src_id;
            tg = tg;
            slot = pkt.slot;
            cc = m.config.color_code;
            call = elim (resolved m.callsign_lookup pkt.src_id) [
              | none ↦ none
              | some (c, n) ↦ named c
            ];
            name = elim (resolved m.callsign_lookup pkt.src_id) [
              | none ↦ none
              | some (c, n) ↦ named n
            ];
          })))
        m

  unfoldable pub emit_call_metadata : Dmrd → PttMachine codec → PttMachine codec
  unfolding metadata_for
  emit_call_metadata pkt m = metadata_for (talkgroup pkt.dst_id) pkt m

  unfoldable pub emit_clear_metadata : PttMachine codec → PttMachine codec
  unfolding emit
  emit_clear_metadata m = emit (Effect.metadata MetaEvent.clear) m

  unfoldable pub is_group_call : PttMachine codec → Bool
  is_group_call m = elim m.config.call_type [ group ↦ true | unit ↦ false ]

  -- The outer loop's `sleep_until`; an idle machine waits an hour.
  unfoldable pub deadline : ℕ → PttMachine codec → ℕ
  deadline now m = elim m.state [
    | rx call ↦ call.last_voice + m.config.stream_timeout
    | rx_hang until ↦ until
    | tx call ↦ call.started + m.config.tx_timeout
    | idle ↦ now + 3_600_000
  ]
