-- ===== src/Bridge/Audio.antt =====
-- bridge/src/usrp.rs: the two tasks between the FM side and the voice task. Gain control and limiter are
-- parameters; the recording and the levels of what goes out are left out. Times count milliseconds.
pub mod Loopback
pub mod Pacing
pub mod Sending
use asl_dmr_bridge.Base.{
  ℕ, ◌+◌, ◌%◌, ◌^◌, List, [], ◌∷◌, ◌++◌, Bool, true, false, ◌&&◌, not, Option, none, some, ltb,
  ◌==◌, if◌then◌else◌, take,
}
use asl_dmr_bridge.Events.{PcmFrame, AudioFrame, MetaEvent, call, clear, CallMetadata}
use asl_dmr_bridge.Usrp.{
  Endian, Frame, FrameType, voice, dtmf, text, Parsed, good, failed, parse, serialize,
  serialize_text, packet_size,
}

-- Automatic gain control; `take_summary` starts new totals.
pub record Agc : Type 1 where
  pub State : Type 0
  pub process : PcmFrame → State → PcmFrame × State
  pub reset : State → State
  pub take_summary : State → State

abbrev pub recv_slack : ℕ
recv_slack = 64

abbrev pub voice_frame_interval : ℕ
voice_frame_interval = 20

-- A task goes on, or has returned.
pub data Task (S : Type 0) : Type 0 where
  running : S → Task S
  returned : Task S

-- How `try_send` to the voice task ends.
pub data Handed : Type 0 where
  taken full closed : Handed

-- A datagram comes with its sender, which is a number.
pub data RxEvent : Type 0 where
  cancelled recv_error : RxEvent
  datagram : ℕ → List ℕ → Handed → RxEvent

-- Metadata, or an audio frame with the time at which it is taken, the lateness of the wake-up where it has
-- to wait, and whether the task is cancelled meanwhile. `none` is a closed channel.
pub data TxEvent : Type 0 where
  cancelled : TxEvent
  metadata : ℕ → Option MetaEvent → TxEvent
  audio : ℕ → ℕ → Bool → Option AudioFrame → TxEvent

abbrev pub limited : Option (PcmFrame → PcmFrame) → Bool → Option PcmFrame → Option PcmFrame
limited (some limiter) true (some samples) = some (limiter samples)
limited limiter keyup samples = samples

-- What both tasks are given. `to_json` is the encoder of metadata, which may fail.
pub record Settings (agc_kind : Agc) : Type 0 where
  pub host : Endian
  pub byte_swap : Bool
  pub remote : ℕ
  pub talkgroup : ℕ
  pub limiter : Option (PcmFrame → PcmFrame)
  pub to_json : CallMetadata → Option (List ℕ)

-- The gain control in use, if there is one, and whether there was voice in this call.
pub record Rx (agc_kind : Agc) : Type 0 where
  pub agc : Option agc_kind.State
  pub had_voice_in_call : Bool

pub record Tx (agc_kind : Agc) : Type 0 where
  pub seq : ℕ
  pub next_voice_send : Option ℕ
  pub agc : Option agc_kind.State
  pub had_voice_in_call : Bool

-- A packet to the FM side, and when it is sent.
pub record Sent : Type 0 where
  pub at : ℕ
  pub packet : List ℕ

abbrev pub with_frame : Option AudioFrame → List AudioFrame → List AudioFrame
with_frame none frames = frames
with_frame (some frame) frames = frame ∷ frames

abbrev pub with_packet : Option Sent → List Sent → List Sent
with_packet none later = later
with_packet (some p) later = p ∷ later

-- `next_voice_send.unwrap_or_else(Instant::now)`
abbrev due : ℕ → Option ℕ → ℕ
due now none = now
due now (some deadline) = deadline

module _ (agc_kind : Agc) where
  abbrev summarized : Option agc_kind.State → Option agc_kind.State
  summarized none = none
  summarized (some agc) = some (agc_kind.take_summary agc)

  abbrev neutral : Option agc_kind.State → Option agc_kind.State
  neutral none = none
  neutral (some agc) = some (agc_kind.reset agc)

  -- Gain control on a frame for the FM side; it starts anew when the call ends.
  tx_level :
      Bool → Option PcmFrame → Option agc_kind.State → Option PcmFrame × Option agc_kind.State
  tx_level keyup samples none = (samples, none)
  tx_level false samples (some agc) = (samples, some (agc_kind.reset agc))
  tx_level true none (some agc) = (none, some agc)
  tx_level true (some samples) (some agc) =
      let (out, agc') = agc_kind.process samples agc in (some out, some agc')

module _ {agc_kind : Agc} where
  finalize_fm_in_agc_call : Rx agc_kind → Rx agc_kind
  finalize_fm_in_agc_call s =
      if s.had_voice_in_call
      then record { agc = neutral agc_kind (summarized agc_kind s.agc); had_voice_in_call = false }
      else s

  -- Gain control on a voice frame from the FM side.
  rx_level :
      Bool → Option PcmFrame → Option agc_kind.State → Rx agc_kind → Option PcmFrame × Rx agc_kind
  unfolding finalize_fm_in_agc_call
  rx_level keyup samples none s = (samples, s)
  rx_level true none (some agc) s = (none, s)
  rx_level true (some samples) (some agc) s =
      let (out, agc') = agc_kind.process samples agc in
      (some out, record { agc = some agc'; had_voice_in_call = true })
  rx_level false samples (some agc) s = (samples, finalize_fm_in_agc_call s)

  -- `try_send`: a frame that does not fit is dropped; the end of the channel ends the task.
  handed_over : Handed → AudioFrame → Rx agc_kind → Task (Rx agc_kind) × Option AudioFrame
  handed_over taken frame s = (running s, some frame)
  handed_over full frame s = (running s, none)
  handed_over closed frame s = (returned, none)

  rx_voice :
      Settings agc_kind
      → Handed
      → Bool
      → Option PcmFrame × Rx agc_kind
      → Task (Rx agc_kind) × Option AudioFrame
  unfolding handed_over
  rx_voice settings handed keyup (samples, s) =
      handed_over handed
        (record {
          keyup = keyup;
          samples = limited settings.limiter keyup samples;
          dmr_stream_id = none;
        })
        s

  -- Only voice goes on to the voice task.
  rx_typed :
      Settings agc_kind
      → Handed
      → FrameType
      → Frame
      → Rx agc_kind
      → Task (Rx agc_kind) × Option AudioFrame
  unfolding rx_voice rx_level
  rx_typed settings handed voice frame s =
      rx_voice settings handed frame.keyup (rx_level frame.keyup frame.audio s.agc s)
  rx_typed settings handed dtmf frame s = (running s, none)
  rx_typed settings handed text frame s = (running s, none)

  rx_frame :
      Settings agc_kind
      → Handed
      → Parsed Frame
      → Rx agc_kind
      → Task (Rx agc_kind) × Option AudioFrame
  unfolding rx_typed
  rx_frame settings handed (failed e) s = (running s, none)
  rx_frame settings handed (good frame) s = rx_typed settings handed frame.frame_type frame s

  unfoldable pub rx_turn :
      Settings agc_kind → RxEvent → Rx agc_kind → Task (Rx agc_kind) × Option AudioFrame
  unfolding rx_frame
  rx_turn settings cancelled s = (returned, none)
  rx_turn settings recv_error s = (running s, none)
  rx_turn settings (datagram sender bytes handed) s =
      if not (sender == settings.remote)
      then (running s, none)
      else rx_frame settings handed
          (parse settings.host settings.byte_swap (take (packet_size + recv_slack) bytes)) s

  -- The frames that go to the voice task.
  unfoldable pub rx_task : Settings agc_kind → List RxEvent → Task (Rx agc_kind) → List AudioFrame
  unfolding rx_turn
  rx_task settings [] t = []
  rx_task settings (e ∷ es) returned = []
  rx_task settings (e ∷ es) (running s) =
      let (t, frame) = rx_turn settings e s in with_frame frame (rx_task settings es t)

  finalize_agc_out_call : Tx agc_kind → Tx agc_kind
  finalize_agc_out_call s =
      if s.had_voice_in_call
      then record s { agc = summarized agc_kind s.agc; had_voice_in_call = false }
      else s

  -- The totals of a call are taken when it ends.
  tx_count : Bool → Option PcmFrame → Tx agc_kind → Tx agc_kind
  unfolding finalize_agc_out_call
  tx_count false samples s = finalize_agc_out_call s
  tx_count true none s = s
  tx_count true (some samples) s = record s { had_voice_in_call = true }

  -- The packet of a frame that is due at a time.
  tx_emit :
      Settings agc_kind
      → ℕ
      → Option ℕ
      → Bool
      → Option PcmFrame × Option agc_kind.State
      → Tx agc_kind
      → Task (Tx agc_kind) × Option Sent
  unfolding tx_count
  tx_emit settings at next keyup (samples, agc) s =
      let out = limited settings.limiter keyup samples in
      let frame : Frame = record {
        seq = s.seq;
        keyup = keyup;
        talkgroup = settings.talkgroup;
        frame_type = voice;
        audio = out;
        payload = none;
      } in
      (
        running (
            tx_count keyup out
              (record s { seq = (s.seq + 1) % 2 ^ 32; next_voice_send = next; agc = agc })),
        some (record { at = at; packet = serialize settings.host settings.byte_swap frame }),
      )

  -- Voice is sent every 20 ms and not before it is due, anything else at once.
  tx_audio :
      Settings agc_kind
      → ℕ
      → ℕ
      → Bool
      → AudioFrame
      → Option PcmFrame
      → Tx agc_kind
      → Task (Tx agc_kind) × Option Sent
  unfolding tx_emit tx_level
  tx_audio settings now late stop frame none s =
      tx_emit settings now none frame.keyup (tx_level agc_kind frame.keyup none s.agc) s
  tx_audio settings now late stop frame (some samples) s =
      if not frame.keyup
      then tx_emit settings now none false (tx_level agc_kind false (some samples) s.agc) s
      else (let deadline = due now s.next_voice_send in
          if ltb now deadline && stop
          then (returned, none)
          else tx_emit settings (if ltb now deadline then deadline + late else now)
              (some (deadline + voice_frame_interval)) true
              (tx_level agc_kind true (some samples) s.agc) s)

  tx_text : Settings agc_kind → ℕ → Option (List ℕ) → Tx agc_kind → Task (Tx agc_kind) × Option Sent
  tx_text settings now none s = (running s, none)
  tx_text settings now (some json) s = (
    running (record s { seq = (s.seq + 1) % 2 ^ 32 }),
    some (record { at = now; packet = serialize_text s.seq json }),
  )

  unfoldable pub tx_turn :
      Settings agc_kind → TxEvent → Tx agc_kind → Task (Tx agc_kind) × Option Sent
  unfolding tx_audio tx_text
  tx_turn settings cancelled s = (returned, none)
  tx_turn settings (metadata now none) s = (returned, none)
  tx_turn settings (metadata now (some clear)) s = tx_text settings now (some (b'{' ∷ b'}' ∷ [])) s
  tx_turn settings (metadata now (some (call meta))) s =
      tx_text settings now (settings.to_json meta) s
  tx_turn settings (audio now late stop none) s = (returned, none)
  tx_turn settings (audio now late stop (some frame)) s =
      tx_audio settings now late stop frame frame.samples s

  -- The packets to the FM side.
  unfoldable pub tx_task : Settings agc_kind → List TxEvent → Task (Tx agc_kind) → List Sent
  unfolding tx_turn
  tx_task settings [] t = []
  tx_task settings (e ∷ es) returned = []
  tx_task settings (e ∷ es) (running s) =
      let (t, p) = tx_turn settings e s in with_packet p (tx_task settings es t)
