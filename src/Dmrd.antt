-- ===== src/Dmrd.antt =====
-- dmr-wire/src/dmrd.rs and `id_to_24_be` of dmr-wire/src/lib.rs: the 53-byte DMRD packet.
-- A packet is a list of bytes. A panic is `none`: only `id_to_24_be` can raise one.
pub mod Flags
pub mod RoundTrip
pub mod Reparse
use asl_dmr_bridge.Base.{
  ℕ, ◌+◌, ◌*◌, ◌/◌, ◌%◌, ◌^◌, ◌≤◌, ◌<◌, ◌≡◌, refl, List, [], ◌∷◌, ◌++◌, Bool, Option, none, some,
  arith, ltb, leb, ◌==◌, not, if◌then◌else◌, bit_and, bit_or, length, get_or, take, drop, list_eq,
  u32_to_be, u32_from_be, ◌<<<◌, ◌>>>◌,
}
use asl_dmr_bridge.Ids.{
  DmrId, SubscriberId, Slot, InvalidValue, Checked, valid, invalid, dmr_id, subscriber_id,
  to_be_bytes_3, max_24bit,
}

-- b"DMRD"
abbrev pub magic : List ℕ
magic = b'D' ∷ b'M' ∷ b'R' ∷ b'D' ∷ []

abbrev pub header_size : ℕ
header_size = 20

abbrev pub dmr_data_size : ℕ
dmr_data_size = 33

abbrev pub packet_size : ℕ
packet_size = 53

pub data CallType : Type 0 where
  group unit : CallType

pub data FrameType : Type 0 where
  voice voice_sync data_sync : FrameType

pub data DmrdError : Type 0 where
  too_short : ℕ → DmrdError
  bad_magic : List ℕ → DmrdError
  reserved_frame_type : DmrdError
  invalid_src_id invalid_repeater_id : InvalidValue → DmrdError

pub record Dmrd : Type 0 where
  pub seq : ℕ
  pub src_id : SubscriberId
  pub dst_id : ℕ
  pub repeater_id : DmrId
  pub slot : Slot
  pub call_type : CallType
  pub frame_type : FrameType
  pub dtype_vseq : ℕ
  pub stream_id : ℕ
  pub dmr_data : List ℕ

pub data Result {ℓ} (Parsed : Type ℓ) : Type ℓ where
  err : DmrdError → Result Parsed
  ok : Parsed → Result Parsed

infixl 5 ◌>>=◌
abbrev pub ◌>>=◌ {ℓ κ} : {X : Type ℓ} {Y : Type κ} (first : Result X) → (X → Result Y) → Result Y
err failure >>= next = err failure
ok parsed >>= next = next parsed

-- `.map_err(wrap)?`
abbrev pub map_err {ℓ} : {A : Type ℓ} → (InvalidValue → DmrdError) → Checked A → Result A
map_err wrap (valid a) = ok a
map_err wrap (invalid e) = err (wrap e)

-- The assertion that an id fits the wire's three bytes.
unfoldable pub id_to_24_be : ℕ → Option (List ℕ)
unfolding to_be_bytes_3
id_to_24_be id = if leb id max_24bit then some (to_be_bytes_3 id) else none

slot_flag : Slot → ℕ
slot_flag Slot.one = 0
slot_flag Slot.two = 0x80

call_type_flag : CallType → ℕ
call_type_flag group = 0
call_type_flag unit = 0x40

frame_type_code : FrameType → ℕ
frame_type_code voice = 0
frame_type_code voice_sync = 1
frame_type_code data_sync = 2

-- The flag byte, as the successive `|=` build it.
unfoldable pub flags_of : Slot → CallType → FrameType → ℕ → ℕ
unfolding slot_flag call_type_flag frame_type_code
flags_of slot call_type frame_type dtype_vseq =
    bit_or
      (bit_or (bit_or (slot_flag slot) (call_type_flag call_type))
        (frame_type_code frame_type <<< 4))
      (bit_and dtype_vseq 0x0f)

unfoldable pub serialize : Dmrd → Option (List ℕ)
unfolding id_to_24_be flags_of
serialize d = elim (id_to_24_be d.dst_id) [
  | none ↦ none
  | some dst ↦ some (
      magic
      ++ (d.seq ∷ [])
      ++ to_be_bytes_3 d.src_id.as_u32
      ++ dst
      ++ u32_to_be d.repeater_id.as_u32
      ++ (flags_of d.slot d.call_type d.frame_type d.dtype_vseq ∷ [])
      ++ u32_to_be d.stream_id
      ++ d.dmr_data)
]

unfoldable pub slot_of_flags : ℕ → Slot
slot_of_flags flags = if bit_and flags 0x80 == 0 then Slot.one else Slot.two

unfoldable pub call_type_of_flags : ℕ → CallType
call_type_of_flags flags = if bit_and flags 0x40 == 0 then group else unit

unfoldable pub frame_type_of_flags : ℕ → Result FrameType
frame_type_of_flags flags =
    let code = bit_and flags 0x30 >>> 4 in
    if code == 0
    then ok voice
    else if code == 1
    then ok voice_sync
    else if code == 2
    then ok data_sync
    else err reserved_frame_type

abbrev pub be_at : List ℕ → ℕ → ℕ
be_at buf i = get_or buf i 0

-- The fields of a buffer that is long enough and has the magic, in the order of the source's checks.
unfoldable pub parse_fields : List ℕ → Result Dmrd
parse_fields buf = do
  src ←
      map_err invalid_src_id
        (subscriber_id (u32_from_be 0 (be_at buf 5) (be_at buf 6) (be_at buf 7)))
  let dst = u32_from_be 0 (be_at buf 8) (be_at buf 9) (be_at buf 10)
  repeater ←
      map_err invalid_repeater_id
        (dmr_id (u32_from_be (be_at buf 11) (be_at buf 12) (be_at buf 13) (be_at buf 14)))
  let flags = be_at buf 15
  frame_type ← frame_type_of_flags flags
  ok (record {
    seq = be_at buf 4;
    src_id = src;
    dst_id = dst;
    repeater_id = repeater;
    slot = slot_of_flags flags;
    call_type = call_type_of_flags flags;
    frame_type = frame_type;
    dtype_vseq = bit_and flags 0x0f;
    stream_id = u32_from_be (be_at buf 16) (be_at buf 17) (be_at buf 18) (be_at buf 19);
    dmr_data = take dmr_data_size (drop header_size buf);
  })

unfoldable pub parse : List ℕ → Result Dmrd
parse buf =
    if ltb (length buf) packet_size
    then err (too_short (length buf))
    else if list_eq (take 4 buf) magic
    then parse_fields buf
    else err (bad_magic (take 4 buf))
