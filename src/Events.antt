-- ===== src/Events.antt =====
-- dmr-events/src/lib.rs and dmr-wire/src/audio.rs: what the voice task tells the rest of the bridge.
-- A PCM frame is a list of 16-bit patterns, an AMBE frame a list of bytes, text a list of byte values,
-- a duration a number.
use asl_dmr_bridge.Base.{ℕ, List, Bool, Option}
use asl_dmr_bridge.Ids.{SubscriberId, Talkgroup, Slot, ColorCode}

abbrev pub PcmFrame : Type 0
PcmFrame = List ℕ

abbrev pub AmbeFrame : Type 0
AmbeFrame = List ℕ

pub record AudioFrame : Type 0 where
  pub keyup : Bool
  pub samples : Option PcmFrame
  pub dmr_stream_id : Option ℕ

pub record CallMetadata : Type 0 where
  pub dmr_id : SubscriberId
  pub tg : Talkgroup
  pub slot : Slot
  pub cc : ColorCode
  pub call : Option (List ℕ)
  pub name : Option (List ℕ)

pub data MetaEvent : Type 0 where
  call : CallMetadata → MetaEvent
  clear : MetaEvent

pub data CallDirection : Type 0 where
  fm_to_dmr dmr_to_fm : CallDirection

pub data TerminationReason : Type 0 where
  normal stream_timeout tx_timeout shutdown network_reset : TerminationReason

pub data StatsEvent : Type 0 where
  call_start : CallDirection → SubscriberId → ℕ → Slot → StatsEvent
  voice_frame : CallDirection → ℕ → StatsEvent
  frame_dropped : CallDirection → StatsEvent
  call_end : CallDirection → TerminationReason → StatsEvent
