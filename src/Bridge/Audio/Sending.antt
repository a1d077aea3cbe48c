-- ===== src/Bridge/Audio/Sending.antt =====
-- bridge/src/usrp.rs: one turn of the sending task, seen from the packets it sends.
use asl_dmr_bridge.Base.{
  ℕ, suc, ◌+◌, ◌%◌, ◌^◌, ◌≡◌, refl, List, [], ◌∷◌, Bool, true, false, Option, none, some, length,
  All, ap, if◌then◌else◌, ◌&&◌,
}
use asl_dmr_bridge.Events.{PcmFrame, AudioFrame, call, clear}
use asl_dmr_bridge.Usrp.{Frame, voice, serialize}
use asl_dmr_bridge.Usrp.Fields.{IsSample}
use asl_dmr_bridge.Bridge.Audio.{
  Agc, Settings, Handed, taken, full, closed, Tx, Sent, TxEvent, metadata, audio, Task, running,
  limited, tx_turn, returned, tx_count, tx_emit, tx_level, tx_audio, finalize_agc_out_call,
}

-- Samples that fill a packet.
abbrev pub Fits : Option PcmFrame → Type 0
Fits none = Unit {0}
Fits (some pcm) = All IsSample pcm × (length pcm ≡ 160)

-- What comes of a frame: a full channel drops it, and nothing follows the end of the channel.
abbrev pub handed_on : Handed → AudioFrame → List AudioFrame → List AudioFrame
handed_on taken frame later = frame ∷ later
handed_on full frame later = later
handed_on closed frame later = []

-- The number of packets, one more where metadata is encoded.
abbrev pub with_text : Option (List ℕ) → ℕ → ℕ
with_text none n = n
with_text (some json) n = suc n

module _ {agc_kind : Agc} (sender : Settings agc_kind) where
  -- Audio fits into packets, and the task is not cancelled while it waits to send.
  abbrev pub Plain : TxEvent → Type 0
  Plain (audio now late stop (some frame)) =
      (stop ≡ false) × Fits (limited sender.limiter frame.keyup frame.samples)
  Plain _ = Unit {0}

  -- The frames of the events with their stream forgotten and the sender's limiter applied, as far as the
  -- channel has room for them; `room` says what the channel does at the n-th packet, and the events
  -- count on from there.
  abbrev pub played : (ℕ → Handed) → ℕ → List TxEvent → List AudioFrame
  played room n [] = []
  played room n (audio now late stop (some frame) ∷ es) =
      handed_on (room n)
        (record {
          keyup = frame.keyup;
          samples = limited sender.limiter frame.keyup frame.samples;
          dmr_stream_id = none;
        })
        (played room (suc n) es)
  played room n (metadata now (some clear) ∷ es) = played room (suc n) es
  played room n (metadata now (some (call meta)) ∷ es) =
      played room (with_text (sender.to_json meta) n) es
  played room n (_ ∷ es) = []

  abbrev pub quiet : ℕ → Option ℕ → Bool → Tx agc_kind
  quiet seq next had = record {
    seq = seq;
    next_voice_send = next;
    agc = none;
    had_voice_in_call = had;
  }

  abbrev pub wire : ℕ → Bool → Option PcmFrame → Frame
  wire seq keyup samples = record {
    seq = seq;
    keyup = keyup;
    talkgroup = sender.talkgroup;
    frame_type = voice;
    audio = samples;
    payload = none;
  }

  abbrev pub wire_packet : ℕ → Bool → Option PcmFrame → List ℕ
  wire_packet seq keyup samples =
      serialize sender.host sender.byte_swap (wire seq keyup (limited sender.limiter keyup samples))

  counted :
      (keyup : Bool) (samples : Option PcmFrame) (seq : ℕ) (next : Option ℕ) (had : Bool)
      → (had' : Bool) × (tx_count keyup samples (quiet seq next had) ≡ quiet seq next had')
  unfolding tx_count finalize_agc_out_call
  counted true none seq next had = (had, refl)
  counted true (some pcm) seq next had = (true, refl)
  counted false samples seq next true = (false, refl)
  counted false samples seq next false = (false, refl)

  emitted :
      (at : ℕ) (due : Option ℕ) (keyup : Bool) (samples : Option PcmFrame) (seq : ℕ)
      (next : Option ℕ) (had : Bool)
      → (had' : Bool) × (tx_emit sender at due keyup (samples, none) (quiet seq next had) ≡ (
        running (quiet ((seq + 1) % 2 ^ 32) due had'),
        some (record { at = at; packet = wire_packet seq keyup samples }),
      ))
  unfolding tx_emit
  emitted at due keyup samples seq next had =
      let (had', e) =
        counted keyup (limited sender.limiter keyup samples) ((seq + 1) % 2 ^ 32) due had in
      (
        had',
        ap (λ s. (running s, some (record { at = at; packet = wire_packet seq keyup samples }))) e,
      )

  abbrev pub Turns : ℕ → Bool → Option PcmFrame → Task (Tx agc_kind) × Option Sent → Type 0
  Turns seq keyup samples turn =
      (next' : Option ℕ) × (had' : Bool) × (at : ℕ) × (turn ≡ (
        running (quiet ((seq + 1) % 2 ^ 32) next' had'),
        some (record { at = at; packet = wire_packet seq keyup samples }),
      ))

  on_emit :
      (at : ℕ) (due : Option ℕ) (keyup : Bool) (samples : Option PcmFrame) (seq : ℕ)
      (next : Option ℕ) (had : Bool)
      → Turns seq keyup samples (tx_emit sender at due keyup (samples, none) (quiet seq next had))
  on_emit at due keyup samples seq next had =
      let (had', e) = emitted at due keyup samples seq next had in (due, had', at, e)

  pub audio_turn :
      (seq : ℕ) (next : Option ℕ) (had : Bool) (now late : ℕ) (keyup : Bool)
      (samples : Option PcmFrame) (id : Option ℕ)
      → Turns seq keyup samples (
          tx_turn sender
            (audio now late false
              (some (record { keyup = keyup; samples = samples; dmr_stream_id = id })))
            (quiet seq next had))
  unfolding tx_turn tx_audio tx_level
  audio_turn seq next had now late keyup none id = on_emit now none keyup none seq next had
  audio_turn seq next had now late false (some pcm) id =
      on_emit now none false (some pcm) seq next had
  audio_turn seq next had now late true (some pcm) id = unless_stopped _ _ _
    where
      unless_stopped :
          (waits : Bool) (at : ℕ) (due : Option ℕ)
          → Turns seq true (some pcm) (
              if waits && false
              then (returned, none)
              else tx_emit sender at due true (some pcm, none) (quiet seq next had))
      unless_stopped true at due = on_emit at due true (some pcm) seq next had
      unless_stopped false at due = on_emit at due true (some pcm) seq next had
