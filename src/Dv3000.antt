-- ===== src/Dv3000.antt =====
-- dv3000-wire/src/lib.rs and rates.rs: the packets of AMBE-3000 chips. Bytes are numbers, samples
-- 16-bit patterns, an `i8` its bit pattern.
pub mod RoundTrip
pub mod Framing
use asl_dmr_bridge.Base.{
  ℕ, zero, suc, ◌+◌, ◌-◌, ◌*◌, ◌/◌, ◌%◌, List, [], ◌∷◌, ◌++◌, Bool, true, false, ◌&&◌, not, ltb,
  ◌==◌, if◌then◌else◌, length, get_or, take, drop, slice, replicate, list_eq, Option, none, some,
}
use asl_dmr_bridge.Events.{PcmFrame, AmbeFrame}

abbrev pub start_byte : ℕ
start_byte = 0x61

abbrev pub header_size : ℕ
header_size = 4

abbrev pub type_control : ℕ
type_control = 0

abbrev pub type_ambe : ℕ
type_ambe = 1

abbrev pub type_audio : ℕ
type_audio = 2

abbrev pub control_reset : ℕ
control_reset = 0x33

abbrev pub control_ready : ℕ
control_ready = 0x39

abbrev pub control_ratep : ℕ
control_ratep = 0x0a

abbrev pub control_gain : ℕ
control_gain = 0x4b

abbrev pub control_prodid : ℕ
control_prodid = 0x30

abbrev pub pcm_samples : ℕ
pcm_samples = 160

abbrev pub ambe_frame_size : ℕ
ambe_frame_size = 9

abbrev pub ambe_bits : ℕ
ambe_bits = 72

abbrev pub max_packet : ℕ
max_packet = 512

abbrev pub gain_min_db : ℕ
gain_min_db = 256 - 90

abbrev pub gain_max_db : ℕ
gain_max_db = 90

abbrev pub field_speech_data : ℕ
field_speech_data = 0

abbrev pub field_cmode : ℕ
field_cmode = 2

abbrev pub field_channel_data : ℕ
field_channel_data = 1

abbrev pub ratep_dmr : List ℕ
ratep_dmr = 0x04 ∷ 0x31 ∷ 0x07 ∷ 0x54 ∷ 0x24 ∷ 0 ∷ 0 ∷ 0 ∷ 0 ∷ 0 ∷ 0x6f ∷ 0x48 ∷ []

pub data ParseError : Type 0 where
  too_short incomplete bad_field_id bad_bit_count bad_sample_count : ℕ → ℕ → ParseError
  bad_start_byte unknown_type : ℕ → ParseError
  empty_control : ParseError

pub data Packet : Type 0 where
  ambe : AmbeFrame → Packet
  ambe_of_bits : ℕ → List ℕ → Packet
  audio : PcmFrame → Packet
  control : ℕ → List ℕ → Packet

pub data Result {ℓ} (A : Type ℓ) : Type ℓ where
  ok : A → Result A
  err : ParseError → Result A

-- `bits.div_ceil(8)`
abbrev pub bytes_for : ℕ → ℕ
bytes_for bits = (bits + 7) / 8

unfoldable pub parse_ambe : List ℕ → Result Packet
parse_ambe payload =
    if ltb (length payload) 2
    then err (too_short (length payload) 2)
    else if not (get_or payload 0 0 == field_channel_data)
    then err (bad_field_id field_channel_data (get_or payload 0 0))
    else if ltb (length payload) (2 + bytes_for (get_or payload 1 0))
    then err (too_short (length payload) (2 + bytes_for (get_or payload 1 0)))
    else if get_or payload 1 0 == ambe_bits
    then ok (ambe (slice payload 2 (bytes_for (get_or payload 1 0))))
    else ok (ambe_of_bits (get_or payload 1 0) (slice payload 2 (bytes_for (get_or payload 1 0))))

-- `n` big-endian samples.
unfoldable pub be_samples : ℕ → List ℕ → PcmFrame
be_samples zero bytes = []
be_samples (suc n) bytes = (get_or bytes 0 0 * 256 + get_or bytes 1 0) ∷ be_samples n (drop 2 bytes)

unfoldable pub parse_audio : List ℕ → Result Packet
unfolding be_samples
parse_audio payload =
    if ltb (length payload) (2 + pcm_samples * 2)
    then err (too_short (length payload) (2 + pcm_samples * 2))
    else if not (get_or payload 0 0 == field_speech_data)
    then err (bad_field_id field_speech_data (get_or payload 0 0))
    else if not (get_or payload 1 0 == pcm_samples)
    then err (bad_sample_count pcm_samples (get_or payload 1 0))
    else ok (audio (be_samples pcm_samples (drop 2 payload)))

unfoldable pub parse_control : List ℕ → Result Packet
parse_control [] = err empty_control
parse_control (field_id ∷ bytes) = ok (control field_id bytes)

unfoldable pub parse_payload : ℕ → List ℕ → Result Packet
unfolding parse_ambe parse_audio parse_control
parse_payload packet_type payload =
    if packet_type == type_ambe
    then parse_ambe payload
    else if packet_type == type_audio
    then parse_audio payload
    else if packet_type == type_control
    then parse_control payload
    else err (unknown_type packet_type)

-- The packet with the number of bytes consumed.
abbrev pub consumed : ℕ → Result Packet → Result (Packet × ℕ)
consumed n (ok packet) = ok (packet, n)
consumed n (err e) = err e

-- `HEADER_SIZE + payload_len`.
abbrev pub total_len : List ℕ → ℕ
total_len buf = header_size + (get_or buf 1 0 * 256 + get_or buf 2 0)

unfoldable pub parse : List ℕ → Result (Packet × ℕ)
unfolding parse_payload
parse buf =
    if ltb (length buf) header_size
    then err (too_short (length buf) header_size)
    else if not (get_or buf 0 0 == start_byte)
    then err (bad_start_byte (get_or buf 0 0))
    else if ltb (length buf) (total_len buf)
    then err (incomplete (length buf) (total_len buf))
    else consumed (total_len buf)
        (parse_payload (get_or buf 3 0) (drop header_size (take (total_len buf) buf)))

-- `(payload_len as u16).to_be_bytes()`
abbrev pub u16_to_be : ℕ → List ℕ
u16_to_be v = (v / 256 % 256) ∷ (v % 256) ∷ []

-- What every builder writes: start byte, length, type, payload.
abbrev pub framed : ℕ → List ℕ → List ℕ
framed packet_type payload =
    start_byte ∷ (length payload / 256 % 256) ∷ (length payload % 256) ∷ packet_type ∷ payload

unfoldable pub be_bytes : PcmFrame → List ℕ
be_bytes [] = []
be_bytes (s ∷ ss) = (s / 256 % 256) ∷ (s % 256) ∷ be_bytes ss

unfoldable pub build_audio : PcmFrame → List ℕ
unfolding be_bytes
build_audio pcm =
    framed type_audio
      (field_speech_data ∷ pcm_samples ∷ (be_bytes pcm ++ (field_cmode ∷ 0 ∷ 0 ∷ [])))

unfoldable pub build_ambe : AmbeFrame → List ℕ
build_ambe frame = framed type_ambe (field_channel_data ∷ ambe_bits ∷ frame)

unfoldable pub build_ambe_lost_frame : List ℕ
build_ambe_lost_frame = framed type_ambe (
    field_channel_data
    ∷ ambe_bits
    ∷ (replicate ambe_frame_size 0 ++ (field_cmode ∷ u16_to_be 0x0004)))

unfoldable pub build_reset : List ℕ
build_reset = framed type_control (control_reset ∷ [])

unfoldable pub build_ratep_custom : List ℕ → List ℕ
build_ratep_custom rcws = framed type_control (control_ratep ∷ rcws)

unfoldable pub build_ratep_dmr : List ℕ
unfolding build_ratep_custom
build_ratep_dmr = build_ratep_custom ratep_dmr

-- `clamp(GAIN_MIN_DB, GAIN_MAX_DB)` on the bit pattern of an `i8`.
unfoldable pub clamp_db : ℕ → ℕ
clamp_db db =
    if ltb db 128
    then (if ltb gain_max_db db then gain_max_db else db)
    else if ltb db gain_min_db
    then gain_min_db
    else db

unfoldable pub build_gain : ℕ → ℕ → List ℕ
unfolding clamp_db
build_gain in_db out_db = framed type_control (control_gain ∷ clamp_db in_db ∷ clamp_db out_db ∷ [])

unfoldable pub build_prodid : List ℕ
build_prodid = framed type_control (control_prodid ∷ [])

unfoldable pub build_prodid_response : List ℕ → List ℕ
build_prodid_response payload = framed type_control (control_prodid ∷ payload)

unfoldable pub build_ready : List ℕ
build_ready = framed type_control (control_ready ∷ [])

unfoldable pub build_control_ack : ℕ → ℕ → List ℕ
build_control_ack field_id result = framed type_control (field_id ∷ result ∷ [])

-- ambe/src/chip.rs
unfoldable pub build_ambe_for_bits : ℕ → List ℕ → List ℕ
build_ambe_for_bits bits bytes = framed type_ambe (field_channel_data ∷ bits ∷ bytes)

-- `data.first() == Some(&0)`
abbrev first_is_zero : List ℕ → Bool
first_is_zero [] = false
first_is_zero (b ∷ bs) = b == 0

unfoldable pub is_gain_ack : Packet → Bool
is_gain_ack (control field_id bytes) = field_id == control_gain && first_is_zero bytes
is_gain_ack _ = false

unfoldable pub is_ready : Packet → Bool
is_ready (control field_id bytes) = field_id == control_ready
is_ready _ = false

unfoldable pub is_ratep_ack : Packet → Bool
is_ratep_ack (control field_id bytes) = field_id == control_ratep && first_is_zero bytes
is_ratep_ack _ = false
