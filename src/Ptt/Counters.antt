-- ===== src/Ptt/Counters.antt =====
-- dmr-wire/src/voice/ptt.rs: the counters of a transmission stay in range.
pub mod Steps
use asl_dmr_bridge.Base.{
  ℕ, suc, ◌+◌, ◌%◌, ◌^◌, ◌≡◌, ◌<◌, refl, arith, List, [], ◌∷◌, ◌++◌, Bool, true, false, not, Option,
  none, some, ◌==◌, ltb, leb, Bool-cases, inl, inr, if◌then◌else◌, length, length-append, take, sym,
}
use mathlib.Core.Path.{subst}
use asl_dmr_bridge.Dmrd.{Dmrd, FrameType, voice, voice_sync, data_sync}
use asl_dmr_bridge.Events.{AmbeFrame, PcmFrame, TerminationReason}
use asl_dmr_bridge.Voice.{VoiceConfig, frames_per_burst}
use asl_dmr_bridge.Frame.{Codewords}
use asl_dmr_bridge.Ptt.Machine.{
  Codec, Env, RxCall, TxCall, PttState, idle, rx, rx_hang, tx, PttMachine, set_state, is_group_call,
}
use asl_dmr_bridge.Ptt.Tx.{
  codewords_of, build_tx_control, build_voice_burst, send_encoded, send_burst, encode_all,
  record_tx_frames, start_tx, start_with, lc_rotation_of, new_call,
}
use asl_dmr_bridge.Ptt.Handlers.{buffer_tx}

-- A burst position is one of six, fewer than three frames wait, and there is an LC to embed.
pub record InRange (call : TxCall) : Type 0 where
  pub seq_fits : call.dmrd_seq < 256
  pub position : call.vseq < 6
  pub waiting : length call.pcm_buf < frames_per_burst
  pub superframe_fits : call.superframe_idx < 2 ^ 32
  pub has_lc : 0 < length call.lc_rotation

pub voice_burst-InRange :
    (config : VoiceConfig) (ambe : Codewords) (call : TxCall)
    → InRange call
    → InRange (build_voice_burst config ambe call).call
unfolding build_voice_burst
voice_burst-InRange config ambe call r = record {
  seq_fits = ground arith;
  position = ground arith;
  waiting = r.waiting;
  superframe_fits = ground arith;
  has_lc = r.has_lc;
}

module _ {codec : Codec} (env : Env) where
  send_encoded-InRange :
      (r : Option (List AmbeFrame × List ℕ)) (call : TxCall) (m : PttMachine codec)
      → InRange call
      → InRange (send_encoded env r call m).1
  unfolding send_encoded
  send_encoded-InRange none call m h = h
  send_encoded-InRange (some (frames, times)) call m h =
      voice_burst-InRange m.config (codewords_of frames) call h

  pub send_burst-InRange :
      (pcm : List PcmFrame) (call : TxCall) (m : PttMachine codec)
      → InRange call
      → InRange (send_burst env pcm call m).1
  unfolding send_burst
  send_burst-InRange pcm call m h = send_encoded-InRange _ call _ h

  pub buffer_tx-InRange :
      (call : TxCall) (pcm : PcmFrame) (m : PttMachine codec)
      → InRange call
      → InRange (buffer_tx env call pcm m).1
  unfolding buffer_tx
  buffer_tx-InRange call pcm m h =
      elim (Bool-cases (leb frames_per_burst (length (call.pcm_buf ++ (pcm ∷ []))))) [
        | inl e ↦ simp e (
            send_burst-InRange (take frames_per_burst (call.pcm_buf ++ (pcm ∷ [])))
              (record call { pcm_buf = [] }) m
              (record {
                seq_fits = h.seq_fits;
                position = h.position;
                waiting = ground arith;
                superframe_fits = h.superframe_fits;
                has_lc = h.has_lc;
              }))
        | inr e ↦ simp e (record {
          seq_fits = h.seq_fits;
          position = h.position;
          waiting = ground arith;
          superframe_fits = h.superframe_fits;
          has_lc = h.has_lc;
        })
      ]

-- What the counters of a state are.
abbrev pub Bounded : PttState → Type 0
Bounded (tx call) = InRange call
Bounded _ = Unit
