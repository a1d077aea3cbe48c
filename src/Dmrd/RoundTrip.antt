-- ===== src/Dmrd/RoundTrip.antt =====
-- dmr-wire/src/dmrd.rs: a serialized packet parses back.
use asl_dmr_bridge.Base.{
  u32_back, take-append, ℕ, ◌+◌, ◌/◌, ◌%◌, ◌^◌, ◌≤◌, ◌<◌, ◌≡◌, refl, List, [], ◌∷◌, ◌++◌, false,
  some, arith, ltb, length, u32_to_be, u32_from_be, IsByte, length-append,
}
use asl_dmr_bridge.Ids.{
  valid, dmr_id, subscriber_id, to_be_bytes_3, max_24bit, IsSubscriberId, IsDmrId,
}
use asl_dmr_bridge.Dmrd.{
  Dmrd, ok, serialize, parse, parse_fields, flags_of, magic, dmr_data_size, packet_size,
}
use asl_dmr_bridge.Dmrd.Flags.{flags_of-FlagsRead}

-- What the type and its constructors enforce of a packet that goes on the wire.
pub record IsDmrd (d : Dmrd) : Type 0 where
  pub seq_byte : IsByte d.seq
  pub src_fits : IsSubscriberId d.src_id
  pub dst_fits : d.dst_id ≤ max_24bit
  pub repeater_fits : IsDmrId d.repeater_id
  pub dtype_nibble : d.dtype_vseq < 16
  pub stream_fits : d.stream_id < 2 ^ 32
  pub data_length : length d.dmr_data ≡ dmr_data_size

-- The three bytes of an id, read back.
u24_back : (v : ℕ) → v ≤ max_24bit → u32_from_be 0 (v / 65536 % 256) (v / 256 % 256) (v % 256) ≡ v
u24_back v h = omega arith

-- The fields of a packet, behind what `serialize` writes.
unfoldable pub wire : Dmrd → List ℕ → List ℕ
wire d tail =
    magic
    ++ (d.seq ∷ [])
    ++ to_be_bytes_3 d.src_id.as_u32
    ++ to_be_bytes_3 d.dst_id
    ++ u32_to_be d.repeater_id.as_u32
    ++ (flags_of d.slot d.call_type d.frame_type d.dtype_vseq ∷ [])
    ++ u32_to_be d.stream_id
    ++ tail

subscriber_id-valid :
    (v : ℕ) → 0 < v → v ≤ max_24bit → subscriber_id v ≡ valid (record { as_u32 = v })
unfolding subscriber_id
subscriber_id-valid v h k = ground arith

dmr_id-valid : (v : ℕ) → 0 < v → dmr_id v ≡ valid (record { as_u32 = v })
unfolding dmr_id
dmr_id-valid v h = ground arith

parse_fields-wire :
    (d : Dmrd) (rest : List ℕ) → IsDmrd d → parse_fields (wire d (d.dmr_data ++ rest)) ≡ ok d
unfolding wire parse_fields to_be_bytes_3
parse_fields-wire d rest v =
    let read = flags_of-FlagsRead d.slot d.call_type d.frame_type d.dtype_vseq v.dtype_nibble in
    rw
      (
        u24_back d.src_id.as_u32 v.src_fits.1,
        subscriber_id-valid d.src_id.as_u32 v.src_fits.0 v.src_fits.1,
        u32_back d.repeater_id.as_u32 v.repeater_fits.1,
        dmr_id-valid d.repeater_id.as_u32 v.repeater_fits.0,
        read.frame_type_back,
        read.slot_back,
        read.call_type_back,
        read.dtype_back,
        u24_back d.dst_id v.dst_fits,
        u32_back d.stream_id v.stream_fits,
        take-append 33 d.dmr_data rest v.data_length,
      )
      refl

pub length-wire : (d : Dmrd) (tail : List ℕ) → length (wire d tail) ≡ 20 + length tail
unfolding wire to_be_bytes_3
length-wire d tail = omega arith

pub serialize-wire : (d : Dmrd) → d.dst_id ≤ max_24bit → serialize d ≡ some (wire d d.dmr_data)
unfolding serialize wire
serialize-wire d h = ground arith

-- A packet whose fields are in range is serialized, to 53 bytes, and parsing those bytes gives the
-- packet back, whatever bytes follow them in the buffer.
pub parse-serialize :
    (d : Dmrd) (rest : List ℕ)
    → IsDmrd d
    → (buf : List ℕ) × (serialize d ≡ some buf)
      × (length buf ≡ packet_size)
      × (parse (buf ++ rest) ≡ ok d)
parse-serialize d rest v = (
  wire d d.dmr_data,
  serialize-wire d v.dst_fits,
  omega (arith, length-wire d d.dmr_data, v.data_length),
  parses,
)
  where
    joined : wire d d.dmr_data ++ rest ≡ wire d (d.dmr_data ++ rest)
    joined = unfold wire to_be_bytes_3 in refl

    long : ltb (length (wire d (d.dmr_data ++ rest))) packet_size ≡ false
    long =
        ground
          (arith, length-wire d (d.dmr_data ++ rest), length-append d.dmr_data rest, v.data_length)

    parses : parse (wire d d.dmr_data ++ rest) ≡ ok d
    parses =
        unfold parse in rw (joined, long) (unfold wire to_be_bytes_3 in parse_fields-wire d rest v)
