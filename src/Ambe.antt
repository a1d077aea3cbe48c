-- ===== src/Ambe.antt =====
-- ambe/src: the vocoder interface (lib.rs), and the vocoders behind a chip or a server, which exchange
-- DV3000 packets with it (ambeserver.rs, udp_dv.rs, thumbdv.rs, chip.rs). A gain is a whole number of
-- decibels, as the bit pattern of an `i8`.
pub mod Channel
pub mod Serial
use asl_dmr_bridge.Base.{
  ℕ, ◌+◌, ◌*◌, List, Bool, Option, none, some, ltb, not, ◌==◌, if◌then◌else◌, length, get_or, take,
  drop,
}
use asl_dmr_bridge.Events.{PcmFrame, AmbeFrame}
use asl_dmr_bridge.Dv3000.{
  Packet, ambe, ambe_of_bits, audio, control, ParseError, Result, ok, err, parse, max_packet,
  header_size, start_byte, total_len, build_audio, build_ambe, build_ambe_lost_frame, build_reset,
  build_ratep_dmr, build_ratep_custom, build_prodid, build_gain, build_ambe_for_bits, is_ready,
  is_ratep_ack, is_gain_ack,
}

pub data VocoderError : Type 0 where
  encode_failed decode_failed io protocol_failed init_failed unsupported : VocoderError
  parse_failed : ParseError → VocoderError

pub data Outcome (A : Type 0) : Type 0 where
  done : A → Outcome A
  failed : VocoderError → Outcome A

-- The trait: each method may change the state, also where it fails.
pub record Vocoder : Type 1 where
  pub State : Type 0
  pub encode : PcmFrame → State → Outcome AmbeFrame × State
  pub decode : Option AmbeFrame → State → Outcome PcmFrame × State
  pub reset : State → State
  pub warm_cache : State → State
  pub set_gain : ℕ → ℕ → State → Outcome (Unit {0}) × State

-- `f` on the result of a first step, with `?` on its error.
abbrev pub and_then : {S A B : Type 0} → Outcome A × S → (A → S → Outcome B × S) → Outcome B × S
and_then (r, s) f = elim r [ done a ↦ f a s | failed e ↦ (failed e, s) ]

unfoldable pub packet_of : Result (Packet × ℕ) → Outcome Packet
packet_of (ok (packet, n)) = done packet
packet_of (err e) = failed (parse_failed e)

-- A datagram of the peer, or none before the timeout; it is cut to the receive buffer.
unfoldable pub received : Option (List ℕ) → Outcome Packet
unfolding packet_of
received none = failed io
received (some bytes) = packet_of (parse (take max_packet bytes))

-- `UdpDvTransport::send_recv` with a peer that answers each datagram with at most one.
unfoldable pub send_recv :
    {S : Type 0} → (List ℕ → S → Option (List ℕ) × S) → List ℕ → S → Outcome Packet × S
unfolding received
send_recv peer request s = let (answer, s') = peer request s in (received answer, s')

-- A reply must pass the test.
abbrev pub checked :
    {S : Type 0} → (Packet → Bool) → VocoderError → Packet → S → Outcome (Unit {0}) × S
checked test e packet s = (if test packet then done tt else failed e, s)

abbrev pub frame_in : Packet → Outcome AmbeFrame
frame_in (ambe frame) = done frame
frame_in _ = failed encode_failed

abbrev pub samples_in : Packet → Outcome PcmFrame
samples_in (audio samples) = done samples
samples_in _ = failed decode_failed

abbrev pub bits_in : Packet → Outcome (ℕ × List ℕ)
bits_in (ambe frame) = done (72, frame)
bits_in (ambe_of_bits bits bytes) = done (bits, bytes)
bits_in _ = failed encode_failed

abbrev pub decode_request : Option AmbeFrame → List ℕ
decode_request (some frame) = build_ambe frame
decode_request none = build_ambe_lost_frame

-- The client's methods over an exchange of packets: `AmbeServer` and `AmbeServerClient` over UDP,
-- `ThumbDv` and `ThumbDvClient` over a serial line have the same bodies, but for `thumbdv_init`.
module _ {S : Type 0} (exchange : List ℕ → S → Outcome Packet × S) where
  unfoldable pub init : S → Outcome (Unit {0}) × S
  init s =
      and_then (and_then (exchange build_reset s) (checked is_ready init_failed))
        (λ _ s'. and_then (exchange build_ratep_dmr s') (checked is_ratep_ack init_failed))

  unfoldable pub thumbdv_init : S → Outcome (Unit {0}) × S
  thumbdv_init s =
      and_then (and_then (exchange build_reset s) (checked is_ready init_failed)) (λ _ s'.
        and_then (exchange build_prodid s')
          (λ _ s''. and_then (exchange build_ratep_dmr s'') (checked is_ratep_ack init_failed)))

  unfoldable pub encode : PcmFrame → S → Outcome AmbeFrame × S
  encode pcm s = and_then (exchange (build_audio pcm) s) (λ packet s'. (frame_in packet, s'))

  unfoldable pub decode : Option AmbeFrame → S → Outcome PcmFrame × S
  decode frame s =
      and_then (exchange (decode_request frame) s) (λ packet s'. (samples_in packet, s'))

  unfoldable pub set_gain : ℕ → ℕ → S → Outcome (Unit {0}) × S
  set_gain in_db out_db s =
      and_then (exchange (build_gain in_db out_db) s) (checked is_gain_ack init_failed)

  unfoldable pub chip_reset : S → Outcome (Unit {0}) × S
  chip_reset s = and_then (exchange build_reset s) (checked is_ready protocol_failed)

  unfoldable pub set_ratep : List ℕ → S → Outcome (Unit {0}) × S
  set_ratep rcws s =
      and_then (exchange (build_ratep_custom rcws) s) (checked is_ratep_ack protocol_failed)

  unfoldable pub chip_set_gain : ℕ → ℕ → S → Outcome (Unit {0}) × S
  chip_set_gain in_db out_db s =
      and_then (exchange (build_gain in_db out_db) s) (checked is_gain_ack protocol_failed)

  unfoldable pub encode_raw : PcmFrame → S → Outcome (ℕ × List ℕ) × S
  encode_raw pcm s = and_then (exchange (build_audio pcm) s) (λ packet s'. (bits_in packet, s'))

  unfoldable pub decode_raw : ℕ → List ℕ → S → Outcome PcmFrame × S
  decode_raw bits bytes s =
      and_then (exchange (build_ambe_for_bits bits bytes) s) (λ packet s'. (samples_in packet, s'))

abbrev pub with_rest : List ℕ → Result (Packet × ℕ) → Outcome (Packet × List ℕ)
with_rest rest (ok (packet, n)) = done (packet, rest)
with_rest rest (err e) = failed (parse_failed e)

-- `ThumbDv::recv` on the bytes that arrive before the timeout: the packet, and the bytes after it.
unfoldable pub serial_recv : List ℕ → Outcome (Packet × List ℕ)
serial_recv stream =
    if ltb (length stream) header_size
    then failed io
    else if not (get_or stream 0 0 == start_byte)
    then failed protocol_failed
    else if ltb max_packet (total_len stream)
    then failed protocol_failed
    else if ltb (length stream) (total_len stream)
    then failed io
    else with_rest (drop (total_len stream) stream) (parse (take (total_len stream) stream))

-- `SplitVocoder`: one vocoder encodes, the other decodes.
unfoldable pub split_vocoder : Vocoder → Vocoder → Vocoder
split_vocoder encoder decoder = record {
  State = encoder.State × decoder.State;
  encode = λ pcm s. let (r, e) = encoder.encode pcm s.0 in (r, (e, s.1));
  decode = λ frame s. let (r, d) = decoder.decode frame s.1 in (r, (s.0, d));
  reset = λ s. (encoder.reset s.0, decoder.reset s.1);
  warm_cache = λ s. (s.0, decoder.warm_cache s.1);
  set_gain = λ in_db out_db s.
      let (r, e) = encoder.set_gain in_db 0 s.0 in
      elim r [
        | failed x ↦ (failed x, (e, s.1))
        | done _ ↦ (let (q, d) = decoder.set_gain 0 out_db s.1 in (q, (e, d)))
      ];
}
