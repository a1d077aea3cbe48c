-- ===== src/Ptt/Packets.antt =====
-- dmr-wire/src/voice/ptt.rs: the packets of a transmission can always be built.
use asl_dmr_bridge.Base.{ℕ, ◌≡◌, arith, List, Bool, Option, none, some}
use asl_dmr_bridge.Dmrd.{FrameType, serialize, id_to_24_be}
use asl_dmr_bridge.Bptc.{build_voice_lc, build_voice_lc_body, lc_body_bytes}
use asl_dmr_bridge.Frame.{Codewords}
use asl_dmr_bridge.Voice.{VoiceConfig, build_dmrd}
use asl_dmr_bridge.Ptt.Machine.{TxCall}
use asl_dmr_bridge.Ptt.View.{Configured}
use asl_dmr_bridge.Ptt.Tx.{serialized, build_tx_control, build_voice_burst, lc_rotation_of}

-- The identifiers of a valid configuration fit a packet, so that none of its builders panics.
abbrev pub IsSome : {A : Type 0} → Option A → Type 0
IsSome o = ¬ (o ≡ none)

module _ (config : VoiceConfig) where
  serialize_config :
      (seq stream : ℕ) (ft : FrameType) (dtype : ℕ) (burst : List ℕ)
      → Configured config
      → IsSome (serialize (build_dmrd seq config stream ft dtype burst))
  unfolding serialize id_to_24_be build_dmrd
  serialize_config seq stream ft dtype burst ok = ground arith

  pub voice_burst-IsSome :
      (ambe : Codewords) (call : TxCall)
      → Configured config
      → IsSome (build_voice_burst config ambe call).packet
  unfolding build_voice_burst
  voice_burst-IsSome ambe call ok = serialize_config _ _ _ _ _ ok

  lc_body-IsSome :
      (group_call : Bool)
      → Configured config
      → IsSome (build_voice_lc_body group_call config.talkgroup.as_u32 config.src_id.as_u32)
  unfolding build_voice_lc_body lc_body_bytes id_to_24_be
  lc_body-IsSome group_call ok = ground arith

  lc-IsSome :
      (group_call : Bool) (dt : ℕ)
      → Configured config
      → IsSome (build_voice_lc group_call config.talkgroup.as_u32 config.src_id.as_u32 dt)
  unfolding build_voice_lc lc_body_bytes id_to_24_be
  lc-IsSome group_call dt ok = ground arith

  serialized-IsSome :
      (call : TxCall) (dt : ℕ)
      → Configured config
      → (lc : Option (List ℕ)) → IsSome lc
      → IsSome (serialized lc config call dt)
  serialized-IsSome call dt ok none built = ground arith
  serialized-IsSome call dt ok (some lc) built = serialize_config _ _ _ _ _ ok

  pub tx_control-IsSome :
      (group_call : Bool) (dt : ℕ) (call : TxCall)
      → Configured config
      → IsSome (build_tx_control group_call config dt call).packet
  unfolding build_tx_control
  tx_control-IsSome group_call dt call ok =
      serialized-IsSome call dt ok _ (lc-IsSome group_call dt ok)

  pub lc_rotation-IsSome :
      (group_call : Bool) → Configured config → IsSome (lc_rotation_of group_call config)
  unfolding lc_rotation_of
  lc_rotation-IsSome group_call ok = let built = lc_body-IsSome group_call ok in ground arith
