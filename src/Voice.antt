-- ===== src/Voice.antt =====
-- dmr-wire/src/voice.rs: the configuration of the voice task and its helpers without state.
use asl_dmr_bridge.Base.{ℕ, List, Bool, true, false, ◌&&◌, Option, none, some, ◌==◌, replicate}
use asl_dmr_bridge.Ids.{SubscriberId, Talkgroup, DmrId, Slot, ColorCode}
use asl_dmr_bridge.Dmrd.{Dmrd, CallType, group, unit, FrameType}
use asl_dmr_bridge.Events.{AudioFrame, PcmFrame}

abbrev pub data_type_voice_header : ℕ
data_type_voice_header = 1

abbrev pub data_type_voice_terminator : ℕ
data_type_voice_terminator = 2

abbrev pub frames_per_burst : ℕ
frames_per_burst = 3

-- Shut, so that no proof computes its 160 samples.
unfoldable pub silence : PcmFrame
silence = replicate 160 0

pub data Direction : Type 0 where
  both dmr_to_fm fm_to_dmr : Direction

-- Durations and the clock count the same unit.
pub record VoiceConfig : Type 0 where
  pub gateway : Direction
  pub slot : Slot
  pub talkgroup : Talkgroup
  pub call_type : CallType
  pub hang_time : ℕ
  pub stream_timeout : ℕ
  pub tx_timeout : ℕ
  pub repeater_id : DmrId
  pub src_id : SubscriberId
  pub color_code : ColorCode
  pub callsign : List ℕ

unfoldable pub slot_eq : Slot → Slot → Bool
slot_eq Slot.one Slot.one = true
slot_eq Slot.two Slot.two = true
slot_eq _ _ = false

unfoldable pub call_type_eq : CallType → CallType → Bool
call_type_eq group group = true
call_type_eq unit unit = true
call_type_eq _ _ = false

-- Where a call of this type is addressed to us.
dst_match : CallType → Dmrd → VoiceConfig → Bool
dst_match group pkt config = pkt.dst_id == config.talkgroup.as_u32
dst_match unit pkt config = pkt.dst_id == config.src_id.as_u32

unfoldable pub matches_config : Dmrd → VoiceConfig → Bool
unfolding dst_match slot_eq call_type_eq
matches_config pkt config =
    dst_match config.call_type pkt config
    && slot_eq pkt.slot config.slot
    && call_type_eq pkt.call_type config.call_type

unfoldable pub make_voice_frame : PcmFrame → ℕ → AudioFrame
make_voice_frame audio stream_id = record {
  keyup = true;
  samples = some audio;
  dmr_stream_id = some stream_id;
}

unfoldable pub make_unkey_frame : Option ℕ → AudioFrame
make_unkey_frame stream_id = record { keyup = false; samples = none; dmr_stream_id = stream_id }

unfoldable pub build_dmrd : ℕ → VoiceConfig → ℕ → FrameType → ℕ → List ℕ → Dmrd
build_dmrd seq config stream_id frame_type dtype_vseq dmr_data = record {
  seq = seq;
  src_id = config.src_id;
  dst_id = config.talkgroup.as_u32;
  repeater_id = config.repeater_id;
  slot = config.slot;
  call_type = config.call_type;
  frame_type = frame_type;
  dtype_vseq = dtype_vseq;
  stream_id = stream_id;
  dmr_data = dmr_data;
}
