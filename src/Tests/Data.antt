-- ===== src/Tests/Data.antt =====
-- A vocoder that counts its calls, a machine that uses it, and packets from the network.
use asl_dmr_bridge.Base.{ℕ, suc, List, [], ◌∷◌, true, false, none, some, replicate}
use asl_dmr_bridge.Ids.{Slot}
use asl_dmr_bridge.Dmrd.{Dmrd, FrameType, voice_sync, data_sync, group}
use asl_dmr_bridge.Events.{AudioFrame}
use asl_dmr_bridge.Voice.{VoiceConfig, Direction}
use asl_dmr_bridge.Ptt.Machine.{Codec, Outcome, Env, RxCall, TxCall, PttMachine, PttState, Effect}

abbrev pub counting_codec : Codec
counting_codec = record {
  Vocoder = ℕ;
  decode = λ calls ambe. record {
    outcome = Outcome.good [];
    next = suc calls;
    elapsed = 1;
    cancel_seen = false;
  };
  encode = λ calls pcm. record {
    outcome = Outcome.good (replicate 9 0x55);
    next = suc calls;
    elapsed = 2;
    cancel_seen = false;
  };
  reset = λ calls. calls;
  warm_cache = λ calls. calls;
  Filter = ℕ;
  process_pcm = λ f pcm. (suc f, pcm);
  clear = λ f. 0;
}

abbrev pub voice_config : VoiceConfig
voice_config = record {
  gateway = Direction.both;
  slot = Slot.one;
  talkgroup = record { as_u32 = 91 };
  call_type = group;
  hang_time = 500;
  stream_timeout = 1000;
  tx_timeout = 180_000;
  repeater_id = record { as_u32 = 312_000 };
  src_id = record { as_u32 = 3_120_001 };
  color_code = record { value = 1 };
  callsign = b'N' ∷ b'0' ∷ b'C' ∷ b'A' ∷ b'L' ∷ b'L' ∷ [];
}

abbrev pub machine : PttState → List Effect → PttMachine counting_codec
machine state log = record {
  config = voice_config;
  vocoder = 0;
  poisoned = false;
  pre_encode_filter = some 0;
  stats_enabled = true;
  callsign_lookup = none;
  cancelled = false;
  state = state;
  log = log;
}

abbrev pub env_at : ℕ → Env
env_at now = record { now = now; new_stream_id = 77; audio_room = 50; voice_room = true }

abbrev pub packet : ℕ → FrameType → ℕ → ℕ → Dmrd
packet seq frame_type dtype stream = record {
  seq = seq;
  src_id = record { as_u32 = 3_120_002 };
  dst_id = 91;
  repeater_id = record { as_u32 = 312_000 };
  slot = Slot.one;
  call_type = group;
  frame_type = frame_type;
  dtype_vseq = dtype;
  stream_id = stream;
  dmr_data = replicate 33 0;
}

abbrev pub header_5 : Dmrd
header_5 = packet 0 data_sync 1 5

abbrev pub burst_5 : Dmrd
burst_5 = packet 1 voice_sync 0 5

abbrev pub terminator_5 : Dmrd
terminator_5 = packet 2 data_sync 2 5

abbrev pub keyed_audio : AudioFrame
keyed_audio = record { keyup = true; samples = some []; dmr_stream_id = none }

abbrev pub unkeyed_audio : AudioFrame
unkeyed_audio = record { keyup = false; samples = none; dmr_stream_id = none }

abbrev pub received_call : RxCall
received_call = record {
  stream_id = 5;
  src_id = record { as_u32 = 3_120_002 };
  dst_id = 91;
  slot = Slot.one;
  started = 10;
  last_voice = 10;
  last_seq = some 0;
}

abbrev pub sent_call : TxCall
sent_call = record {
  stream_id = 77;
  dmrd_seq = 255;
  vseq = 5;
  pcm_buf = [] ∷ [] ∷ [];
  started = 10;
  lc_rotation = ((0 ∷ 0 ∷ 0 ∷ 0 ∷ []) ∷ []) ∷ [];
  superframe_idx = 0;
}
