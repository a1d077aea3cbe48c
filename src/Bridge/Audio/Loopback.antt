-- ===== src/Bridge/Audio/Loopback.antt =====
-- bridge/src/usrp.rs: what one task sends and the other receives.
use asl_dmr_bridge.Base.{
  ℕ, suc, ◌+◌, ◌*◌, ◌%◌, ◌^◌, ◌≡◌, ◌<◌, ◌≤◌, refl, arith, List, [], ◌∷◌, ◌++◌, Bool, false, not,
  Option, none, some, length, take, take_within, All, ap, ap₂, ◌∙◌, if◌then◌else◌, ==_iff,
}
use asl_dmr_bridge.Events.{PcmFrame, AudioFrame, call, clear}
use asl_dmr_bridge.Usrp.{
  voice, text, parse, serialize, serialize_text, good, header, packet_size, write_samples,
  samples_of, parse_typed,
}
use asl_dmr_bridge.Usrp.RoundTrip.{IsVoice, parse-serialize_frame}
use asl_dmr_bridge.Usrp.Fields.{
  IsSample, length-write_samples, length-header, parse-header, is_some,
}
use asl_dmr_bridge.Bridge.Audio.{
  Agc, Settings, Rx, Tx, Sent, RxEvent, datagram, TxEvent, cancelled, metadata, audio, Task,
  running, returned, Handed, taken, full, closed, limited, rx_turn, rx_task, tx_turn, tx_task,
  recv_slack, with_packet, with_frame, tx_text, rx_frame, rx_typed, rx_voice, rx_level, handed_over,
}
use asl_dmr_bridge.Bridge.Audio.Sending.{
  handed_on, with_text, Fits, Plain, played, quiet, wire, wire_packet, audio_turn,
}

module _ {agc_kind : Agc} (sender receiver : Settings agc_kind) where
  -- The receiver has no gain control.
  abbrev pub listening : Rx agc_kind
  listening = record { agc = none; had_voice_in_call = false }

  -- The datagrams that the packets become, from the n-th one on.
  abbrev pub packets_in : (ℕ → Handed) → ℕ → List Sent → List RxEvent
  packets_in room n [] = []
  packets_in room n (p ∷ ps) =
      datagram receiver.remote p.packet (room n) ∷ packets_in room (suc n) ps

  tx_task-returned : (es : List TxEvent) → tx_task sender es returned ≡ []
  unfolding tx_task
  tx_task-returned [] = refl
  tx_task-returned (e ∷ es) = refl

  rx_task-returned : (es : List RxEvent) → rx_task receiver es returned ≡ []
  unfolding rx_task
  rx_task-returned [] = refl
  rx_task-returned (e ∷ es) = refl

  after_frame :
      (handed : Handed) (frame : AudioFrame) (es : List RxEvent)
      → (let turn = handed_over handed frame listening in
          with_frame turn.1 (rx_task receiver es turn.0))
        ≡ handed_on handed frame (rx_task receiver es (running listening))
  unfolding handed_over
  after_frame taken frame es = refl
  after_frame full frame es = refl
  after_frame closed frame es = rx_task-returned es

  module _ (same_host : receiver.host ≡ sender.host)
      (same_order : receiver.byte_swap ≡ sender.byte_swap) (no_limiter : receiver.limiter ≡ none)
      (talkgroup_fits : sender.talkgroup < 2 ^ 32) where
    from_peer :
        (bytes : List ℕ) (handed : Handed)
        → rx_turn receiver (datagram receiver.remote bytes handed) listening
          ≡ rx_frame receiver handed
              (parse receiver.host receiver.byte_swap (take (packet_size + recv_slack) bytes))
              listening
    unfolding rx_turn
    from_peer bytes handed =
        ap
          (λ b.
            if not b
            then (running listening, none)
            else rx_frame receiver handed
                (parse receiver.host receiver.byte_swap (take (packet_size + recv_slack) bytes))
                listening)
          ((==_iff receiver.remote receiver.remote).1 refl)

    module _ (seq : ℕ) (keyup : Bool) (samples : Option PcmFrame) (fits : seq < 2 ^ 32) where
      wire-IsVoice : Fits samples → IsVoice (wire sender seq keyup samples)
      wire-IsVoice pcm_fits = record {
        seq_fits = fits;
        talkgroup_fits = talkgroup_fits;
        is_voice = refl;
        no_payload = refl;
        samples_fit = samples_fit samples pcm_fits;
        samples_count = samples_count samples pcm_fits;
      }
        where
          samples_fit : (pcm : Option PcmFrame) → Fits pcm → All IsSample (samples_of pcm)
          samples_fit none f = tt
          samples_fit (some pcm) f = f.0

          samples_count :
              (pcm : Option PcmFrame)
              → Fits pcm
              → length (samples_of pcm) ≡ (if is_some pcm then 160 else 0)
          samples_count none f = refl
          samples_count (some pcm) f = f.1

      short :
          Fits samples
          → length (serialize sender.host sender.byte_swap (wire sender seq keyup samples)) ≤ 416
      unfolding serialize
      short pcm_fits =
          at_most samples pcm_fits
            (length-header sender.host sender.byte_swap seq keyup sender.talkgroup
              (write_samples sender.host sender.byte_swap (samples_of samples)) voice)
            (length-write_samples sender.host sender.byte_swap (samples_of samples))
        where
          at_most :
              (pcm : Option PcmFrame)
              → Fits pcm
              → {n m : ℕ} → n ≡ 32 + m
              → m ≡ 2 * length (samples_of pcm)
              → n ≤ 416
          at_most none f e g = omega (arith, e, g)
          at_most (some pcm) f e g = omega (arith, e, g, f.1)

      voice-parsed :
          Fits samples
          → parse receiver.host receiver.byte_swap (
              take
                (packet_size + recv_slack)
                (serialize sender.host sender.byte_swap (wire sender seq keyup samples)))
            ≡ good (wire sender seq keyup samples)
      voice-parsed pcm_fits =
          ap₂
            (λ host order.
              parse host order
                (take 416 (serialize sender.host sender.byte_swap (wire sender seq keyup samples))))
            same_host same_order
          ∙ ap (parse sender.host sender.byte_swap) (take_within 416 _ (short pcm_fits))
          ∙ parse-serialize_frame sender.host sender.byte_swap (wire sender seq keyup samples)
              (wire-IsVoice pcm_fits)

    voice_in :
        (seq : ℕ) (keyup : Bool) (samples : Option PcmFrame) (handed : Handed)
        → seq < 2 ^ 32
        → Fits (limited sender.limiter keyup samples)
        → rx_turn receiver
            (datagram receiver.remote (wire_packet sender seq keyup samples) handed)
            listening
          ≡ handed_over handed
              (record {
                keyup = keyup;
                samples = limited sender.limiter keyup samples;
                dmr_stream_id = none;
              })
              listening
    unfolding rx_frame rx_typed rx_voice rx_level handed_over
    voice_in seq keyup samples handed fits pcm_fits =
        from_peer (wire_packet sender seq keyup samples) handed
        ∙ ap (λ r. rx_frame receiver handed r listening)
            (voice-parsed seq keyup (limited sender.limiter keyup samples) fits pcm_fits)
        ∙ ap
            (λ l.
              handed_over handed
                (record {
                  keyup = keyup;
                  samples = limited l keyup (limited sender.limiter keyup samples);
                  dmr_stream_id = none;
                })
                listening)
            no_limiter

    text_in :
        (seq : ℕ) (json : List ℕ) (handed : Handed)
        → rx_turn receiver (datagram receiver.remote (serialize_text seq json) handed) listening
          ≡ (running listening, none)
    unfolding rx_frame rx_typed parse_typed serialize_text header
    text_in seq json handed =
        from_peer (serialize_text seq json) handed
        ∙ ap (λ r. rx_frame receiver handed r listening)
            (parse-header receiver.host receiver.byte_swap seq false 0 (take 384 (json ++ (0 ∷ [])))
              text)

    module _ (room : ℕ → Handed) where
      abbrev received_from : ℕ → List TxEvent → Task (Tx agc_kind) × Option Sent → List AudioFrame
      received_from n es turn =
          rx_task receiver (packets_in room n (with_packet turn.1 (tx_task sender es turn.0)))
            (running listening)

      next_fits : (seq : ℕ) → (seq + 1) % 2 ^ 32 < 2 ^ 32
      next_fits seq = omega arith

      after_text :
          (n : ℕ) (es : List TxEvent) (seq : ℕ) (next : Option ℕ) (had : Bool) (now : ℕ)
          (json : Option (List ℕ))
          → ((n' seq' : ℕ)
              → seq' < 2 ^ 32
              → received_from n' es (running (quiet sender seq' next had), none)
                ≡ played sender room n' es)
          → seq < 2 ^ 32
          → received_from n es (tx_text sender now json (quiet sender seq next had))
            ≡ played sender room (with_text json n) es
      unfolding tx_text rx_task
      after_text n es seq next had now none ih fits = ih n seq fits
      after_text n es seq next had now (some json) ih fits =
          ap
            (λ turn. with_frame turn.1 (
              rx_task receiver
                (packets_in room (suc n)
                  (tx_task sender es (running (quiet sender ((seq + 1) % 2 ^ 32) next had))))
                turn.0))
            (text_in seq json (room n))
          ∙ ih (suc n) ((seq + 1) % 2 ^ 32) (next_fits seq)

      after_return : (n : ℕ) (es : List TxEvent) → received_from n es (returned, none) ≡ []
      unfolding rx_task
      after_return n es =
          ap (λ ps. rx_task receiver (packets_in room n ps) (running listening))
            (tx_task-returned es)

      -- Two tasks that agree on the order of bytes, without gain control on either side and without a
      -- limiter on the receiving one, where the sender is not cancelled while it waits and its frames fit
      -- into packets, and all packets arrive in order: the receiver hands on the frames of the audio that
      -- the sender was given, in order, with the sender's limiter applied and without their stream, and
      -- nothing else. A frame is left out where the channel to the voice task is full when its packet
      -- comes, and nothing follows once that channel is closed or the sender has returned.
      pub rx_task-tx_task :
          (n : ℕ) (events : List TxEvent) (seq : ℕ) (next : Option ℕ) (had : Bool)
          → All (Plain sender) events
          → seq < 2 ^ 32
          → rx_task receiver
              (packets_in room n (tx_task sender events (running (quiet sender seq next had))))
              (running listening)
            ≡ played sender room n events
      unfolding rx_task tx_task tx_turn
      rx_task-tx_task n [] seq next had plain fits = refl
      rx_task-tx_task n (cancelled ∷ es) seq next had plain fits = after_return n es
      rx_task-tx_task n (metadata now none ∷ es) seq next had plain fits = after_return n es
      rx_task-tx_task n (metadata now (some clear) ∷ es) seq next had plain fits =
          after_text n es seq next had now (some (b'{' ∷ b'}' ∷ []))
            (λ n' seq' f. rx_task-tx_task n' es seq' next had plain.1 f) fits
      rx_task-tx_task n (metadata now (some (call meta)) ∷ es) seq next had plain fits =
          after_text n es seq next had now (sender.to_json meta)
            (λ n' seq' f. rx_task-tx_task n' es seq' next had plain.1 f) fits
      rx_task-tx_task n (audio now late stop none ∷ es) seq next had plain fits = after_return n es
      rx_task-tx_task n (audio now late stop (some frame) ∷ es) seq next had plain fits =
          let (next', had', at, turn) =
            audio_turn sender seq next had now late frame.keyup frame.samples frame.dmr_stream_id in
          let later = tx_task sender es (running (quiet sender ((seq + 1) % 2 ^ 32) next' had')) in
          let out : AudioFrame = record {
            keyup = frame.keyup;
            samples = limited sender.limiter frame.keyup frame.samples;
            dmr_stream_id = none;
          } in
          ap
            (λ b.
              received_from n es
                (tx_turn sender (audio now late b (some frame)) (quiet sender seq next had)))
            plain.0.0
          ∙ ap (received_from n es) turn
          ∙ ap (λ turn. with_frame turn.1 (rx_task receiver (packets_in room (suc n) later) turn.0))
              (voice_in seq frame.keyup frame.samples (room n) fits plain.0.1)
          ∙ after_frame (room n) out (packets_in room (suc n) later)
          ∙ ap (handed_on (room n) out)
              (rx_task-tx_task (suc n) es ((seq + 1) % 2 ^ 32) next' had' plain.1 (next_fits seq))
