-- ===== src/Dmrd/Reparse.antt =====
-- dmr-wire/src/dmrd.rs: what a parsed packet is, and that it serializes to the bytes it came from.
use asl_dmr_bridge.Base.{
  ℕ, zero, suc, ◌≤◌, ◌<◌, ◌≡◌, refl, List, [], ◌∷◌, true, some, arith, ltb, bit_and, length, take,
  drop, list_eq, u32_to_be, u32_from_be, each_below, each_below_sound, IsByte, All, sym, ap, ◌∙◌,
  length-take_le, list_eq→eq,
}
use asl_dmr_bridge.Ids.{DmrId, SubscriberId, dmr_id, subscriber_id, to_be_bytes_3, IsSubscriberId}
use asl_dmr_bridge.Dmrd.{
  Dmrd, ok, serialize, parse, parse_fields, invalid_src_id, invalid_repeater_id, slot_of_flags,
  call_type_of_flags, frame_type_of_flags, map_err, be_at, magic, dmr_data_size, header_size,
  packet_size,
}
use asl_dmr_bridge.Dmrd.Flags.{flags_rebuilt}
use asl_dmr_bridge.Dmrd.RoundTrip.{IsDmrd, wire, serialize-wire}

src_checked :
    (v : ℕ) (s : SubscriberId)
    → map_err invalid_src_id (subscriber_id v) ≡ ok s
    → (s.as_u32 ≡ v) × IsSubscriberId s
unfolding subscriber_id
src_checked v s h = ground arith

repeater_checked :
    (v : ℕ) (r : DmrId)
    → map_err invalid_repeater_id (dmr_id v) ≡ ok r
    → (r.as_u32 ≡ v) × (0 < r.as_u32)
unfolding dmr_id
repeater_checked v r h = ground arith

-- What a successful `parse_fields` has read.
record FieldsOf (buf : List ℕ) (d : Dmrd) : Type 0 where
  seq_at : d.seq ≡ be_at buf 4
  src_at : d.src_id.as_u32 ≡ u32_from_be 0 (be_at buf 5) (be_at buf 6) (be_at buf 7)
  src_valid : IsSubscriberId d.src_id
  dst_at : d.dst_id ≡ u32_from_be 0 (be_at buf 8) (be_at buf 9) (be_at buf 10)
  repeater_at :
      d.repeater_id.as_u32 ≡ u32_from_be (be_at buf 11) (be_at buf 12) (be_at buf 13) (be_at buf 14)
  repeater_valid : 0 < d.repeater_id.as_u32
  slot_at : d.slot ≡ slot_of_flags (be_at buf 15)
  call_type_at : d.call_type ≡ call_type_of_flags (be_at buf 15)
  frame_type_at : frame_type_of_flags (be_at buf 15) ≡ ok d.frame_type
  dtype_at : d.dtype_vseq ≡ bit_and (be_at buf 15) 0x0f
  stream_at : d.stream_id ≡ u32_from_be (be_at buf 16) (be_at buf 17) (be_at buf 18) (be_at buf 19)
  data_at : d.dmr_data ≡ take dmr_data_size (drop header_size buf)

parse_fields-FieldsOf : (buf : List ℕ) (d : Dmrd) → parse_fields buf ≡ ok d → FieldsOf buf d
unfolding parse_fields
parse_fields-FieldsOf buf d h = ground (
  arith,
  src_checked (u32_from_be 0 (be_at buf 5) (be_at buf 6) (be_at buf 7)) d.src_id,
  repeater_checked (u32_from_be (be_at buf 11) (be_at buf 12) (be_at buf 13) (be_at buf 14))
      d.repeater_id,
)

byte_at : (buf : List ℕ) (i : ℕ) → All IsByte buf → be_at buf i < 256
byte_at [] i h = omega arith
byte_at (x ∷ xs) zero h = h.0
byte_at (x ∷ xs) (suc i) h = byte_at xs i h.1

-- The first 53 bytes, the header's 20 by their positions.
header_split :
    (buf : List ℕ)
    → header_size ≤ length buf
    → take packet_size buf
      ≡ be_at buf 0
        ∷ be_at buf 1
        ∷ be_at buf 2
        ∷ be_at buf 3
        ∷ be_at buf 4
        ∷ be_at buf 5
        ∷ be_at buf 6
        ∷ be_at buf 7
        ∷ be_at buf 8
        ∷ be_at buf 9
        ∷ be_at buf 10
        ∷ be_at buf 11
        ∷ be_at buf 12
        ∷ be_at buf 13
        ∷ be_at buf 14
        ∷ be_at buf 15
        ∷ be_at buf 16
        ∷ be_at buf 17
        ∷ be_at buf 18
        ∷ be_at buf 19
        ∷ take dmr_data_size (drop header_size buf)
header_split (a ∷ b ∷ c ∷ d ∷ e ∷ f ∷ g ∷ h ∷ i ∷ j ∷ k ∷ l ∷ m ∷ n ∷ o ∷ p ∷ q ∷ r ∷ s ∷ t ∷ rest)
      len =
    refl
header_split _ len = absurd (omega arith)

length-data :
    (buf : List ℕ)
    → packet_size ≤ length buf
    → length (take dmr_data_size (drop header_size buf)) ≡ 33
length-data (a ∷ b ∷ c ∷ d ∷ e ∷ f ∷ g ∷ h ∷ i ∷ j ∷ k ∷ l ∷ m ∷ n ∷ o ∷ p ∷ q ∷ r ∷ s ∷ t ∷ rest)
      len =
    length-take_le 33 rest (omega arith)
length-data _ len = absurd (omega arith)

-- What a successful `parse` says of the buffer.
pub parse-ok :
    (buf : List ℕ) (d : Dmrd)
    → parse buf ≡ ok d
    → (packet_size ≤ length buf) × (list_eq (take 4 buf) magic ≡ true) × (parse_fields buf ≡ ok d)
unfolding parse
parse-ok buf d h = ground arith

nibble_table : each_below 256 (λ f. ltb (bit_and f 0x0f) 16) ≡ true
unfolding each_below
nibble_table = refl

low_nibble-lt : (f : ℕ) → f < 256 → bit_and f 0x0f < 16
low_nibble-lt f h =
    ground (arith, each_below_sound 256 (λ f. ltb (bit_and f 0x0f) 16) f nibble_table h)

-- A packet that parses from bytes has every field in range: the id of the source is not zero and fits
-- 24 bits, that of the repeater is not zero and fits 32 bits, that of the destination fits 24 bits, and
-- may be zero, the sequence number is a byte, the data type four bits, the stream a 32-bit number, and
-- the payload has 33 bytes.
pub parse-IsDmrd : (buf : List ℕ) (d : Dmrd) → All IsByte buf → parse buf ≡ ok d → IsDmrd d
parse-IsDmrd buf d bytes h =
    let (long, magic_ok, fields) = parse-ok buf d h in
    let f = parse_fields-FieldsOf buf d fields in
    record {
      seq_byte = omega (arith, f.seq_at, byte_at buf 4 bytes);
      src_fits = f.src_valid;
      dst_fits =
          omega (arith, f.dst_at, byte_at buf 8 bytes, byte_at buf 9 bytes, byte_at buf 10 bytes);
      repeater_fits = (
        f.repeater_valid,
        omega (
          arith,
          f.repeater_at,
          byte_at buf 11 bytes,
          byte_at buf 12 bytes,
          byte_at buf 13 bytes,
          byte_at buf 14 bytes,
        ),
      );
      dtype_nibble = omega (arith, f.dtype_at, low_nibble-lt (be_at buf 15) (byte_at buf 15 bytes));
      stream_fits = omega (
        arith,
        f.stream_at,
        byte_at buf 16 bytes,
        byte_at buf 17 bytes,
        byte_at buf 18 bytes,
        byte_at buf 19 bytes,
      );
      data_length = ap length f.data_at ∙ length-data buf long;
    }

-- Bytes cut from a number that was put together from bytes.
u24_bytes :
    (a b c v : ℕ)
    → v ≡ u32_from_be 0 a b c
    → a < 256
    → b < 256
    → c < 256
    → to_be_bytes_3 v ≡ a ∷ b ∷ c ∷ []
unfolding to_be_bytes_3
u24_bytes a b c v e ha hb hc = ground arith

u32_bytes :
    (a b c d v : ℕ)
    → v ≡ u32_from_be a b c d
    → a < 256
    → b < 256
    → c < 256
    → d < 256
    → u32_to_be v ≡ a ∷ b ∷ c ∷ d ∷ []
u32_bytes a b c d v e ha hb hc hd = ground arith

magic_bytes :
    (buf : List ℕ)
    → header_size ≤ length buf
    → list_eq (take 4 buf) magic ≡ true
    → magic ≡ be_at buf 0 ∷ be_at buf 1 ∷ be_at buf 2 ∷ be_at buf 3 ∷ []
magic_bytes (a ∷ b ∷ c ∷ d ∷ rest) len h = sym (list_eq→eq _ _ h)
magic_bytes _ len h = absurd (omega arith)

wire-take :
    (buf : List ℕ) (d : Dmrd)
    → All IsByte buf
    → parse buf ≡ ok d
    → wire d d.dmr_data ≡ take packet_size buf
unfolding wire to_be_bytes_3
wire-take buf d bytes h =
    let (long, magic_ok, fields) = parse-ok buf d h in
    let f = parse_fields-FieldsOf buf d fields in
    ground (
      arith,
      header_split buf,
      magic_bytes buf,
      u24_bytes _ _ _ d.src_id.as_u32 f.src_at (byte_at buf 5 bytes) (byte_at buf 6 bytes)
          (byte_at buf 7 bytes),
      u24_bytes _ _ _ d.dst_id f.dst_at (byte_at buf 8 bytes) (byte_at buf 9 bytes)
          (byte_at buf 10 bytes),
      u32_bytes _ _ _ _ d.repeater_id.as_u32 f.repeater_at (byte_at buf 11 bytes)
          (byte_at buf 12 bytes) (byte_at buf 13 bytes) (byte_at buf 14 bytes),
      u32_bytes _ _ _ _ d.stream_id f.stream_at (byte_at buf 16 bytes) (byte_at buf 17 bytes)
          (byte_at buf 18 bytes) (byte_at buf 19 bytes),
      flags_rebuilt (be_at buf 15) (byte_at buf 15 bytes) f.frame_type_at,
    )

-- Serializing a packet that was parsed from bytes gives the first 53 of those bytes back.
pub serialize-parse :
    (buf : List ℕ) (d : Dmrd)
    → All IsByte buf
    → parse buf ≡ ok d
    → serialize d ≡ some (take packet_size buf)
serialize-parse buf d bytes h =
    serialize-wire d (parse-IsDmrd buf d bytes h).dst_fits ∙ ap some (wire-take buf d bytes h)
