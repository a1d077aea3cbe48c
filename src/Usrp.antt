-- ===== src/Usrp.antt =====
-- usrp-wire/src/lib.rs: the packets between the bridge and the AllStarLink channel driver.
-- A sample is its 16-bit pattern; the field `text` of a frame is `payload`, a list of bytes. What serialization writes is the used part of
-- the source's fixed buffer.
pub mod Fields
pub mod RoundTrip
use asl_dmr_bridge.Base.{
  ℕ, zero, suc, ◌+◌, ◌*◌, ◌/◌, ◌%◌, ◌≡◌, List, [], ◌∷◌, ◌++◌, Bool, true, false, not, ◌&&◌, ◌||◌,
  Option, none, some, ltb, leb, ◌==◌, if◌then◌else◌, length, get_or, take, drop, list_eq, u32_to_be,
  u32_from_be,
}

abbrev pub magic : List ℕ
magic = b'U' ∷ b'S' ∷ b'R' ∷ b'P' ∷ []

abbrev pub header_size : ℕ
header_size = 32

abbrev pub voice_samples : ℕ
voice_samples = 160

abbrev pub packet_size : ℕ
packet_size = 352

-- The I/O error of the source is its callers'.
pub data UsrpError : Type 0 where
  too_short : ℕ → UsrpError
  bad_magic : List ℕ → UsrpError
  unknown_frame_type : ℕ → UsrpError
  ambiguous_length : ℕ → ℕ → ℕ → UsrpError

pub data FrameType : Type 0 where
  voice dtmf text : FrameType

pub record Frame : Type 0 where
  pub seq : ℕ
  pub keyup : Bool
  pub talkgroup : ℕ
  pub frame_type : FrameType
  pub audio : Option (List ℕ)
  pub payload : Option (List ℕ)

pub data Parsed {ℓ} (A : Type ℓ) : Type ℓ where
  good : A → Parsed A
  failed : UsrpError → Parsed A

unfoldable pub from_u32 : ℕ → Parsed FrameType
from_u32 v =
    if v == 0
    then good voice
    else if v == 1
    then good dtmf
    else if v == 2
    then good text
    else failed (unknown_frame_type v)

-- `frame_type as u32`.
unfoldable pub type_code : FrameType → ℕ
type_code voice = 0
type_code dtmf = 1
type_code text = 2

-- The byte order of the host, which `from_ne_bytes` and `to_ne_bytes` follow.
pub data Endian : Type 0 where
  little big : Endian

from_ne_bytes : Endian → ℕ → ℕ → ℕ
from_ne_bytes little a b = a + 256 * b
from_ne_bytes big a b = 256 * a + b

to_ne_bytes : Endian → ℕ → ℕ × ℕ
to_ne_bytes little sample = (sample % 256, sample / 256)
to_ne_bytes big sample = (sample / 256, sample % 256)

unfoldable pub read_sample : Endian → Bool → ℕ → ℕ → ℕ
unfolding from_ne_bytes
read_sample host true a b = from_ne_bytes host b a
read_sample host false a b = from_ne_bytes host a b

unfoldable pub write_sample : Endian → Bool → ℕ → List ℕ
unfolding to_ne_bytes
write_sample host byte_swap sample =
    let (a, b) = to_ne_bytes host sample in if byte_swap then b ∷ a ∷ [] else a ∷ b ∷ []

-- The loop over the samples of a packet.
unfoldable pub read_samples : Endian → Bool → ℕ → List ℕ → List ℕ
unfolding read_sample
read_samples host byte_swap (suc n) (a ∷ b ∷ bytes) =
    read_sample host byte_swap a b ∷ read_samples host byte_swap n bytes
read_samples host byte_swap _ _ = []

unfoldable pub write_samples : Endian → Bool → List ℕ → List ℕ
unfolding write_sample
write_samples host byte_swap [] = []
write_samples host byte_swap (s ∷ ss) =
    write_sample host byte_swap s ++ write_samples host byte_swap ss

-- `if payload.last() == Some(&0) { payload.pop() }`
unfoldable pub without_nul : List ℕ → List ℕ
without_nul [] = []
without_nul (b ∷ []) = if b == 0 then [] else b ∷ []
without_nul (b ∷ c ∷ bytes) = b ∷ without_nul (c ∷ bytes)

abbrev be_at : List ℕ → ℕ → ℕ
be_at buf at =
    u32_from_be (get_or buf at 0) (get_or buf (at + 1) 0) (get_or buf (at + 2) 0)
      (get_or buf (at + 3) 0)

abbrev frame_of : List ℕ → FrameType → Option (List ℕ) → Option (List ℕ) → Frame
frame_of buf frame_type audio payload = record {
  seq = be_at buf 4;
  keyup = not (be_at buf 12 == 0);
  talkgroup = be_at buf 16;
  frame_type = frame_type;
  audio = audio;
  payload = payload;
}

-- A voice packet is header-only or full; what is between is ambiguous.
unfoldable pub parse_typed : Endian → Bool → List ℕ → Parsed FrameType → Parsed Frame
unfolding read_samples without_nul
parse_typed host byte_swap buf (failed e) = failed e
parse_typed host byte_swap buf (good voice) =
    if not (length buf == header_size) && not (length buf == packet_size)
    then failed (ambiguous_length (length buf) header_size packet_size)
    else good (
        frame_of buf voice
          (if leb packet_size (length buf)
            then some (read_samples host byte_swap voice_samples (drop header_size buf))
            else none)
          none)
parse_typed host byte_swap buf (good dtmf) =
    good (frame_of buf dtmf none (some (without_nul (drop header_size buf))))
parse_typed host byte_swap buf (good text) =
    good (frame_of buf text none (some (without_nul (drop header_size buf))))

unfoldable pub parse : Endian → Bool → List ℕ → Parsed Frame
unfolding from_u32 parse_typed
parse host byte_swap buf =
    if ltb (length buf) header_size
    then failed (too_short (length buf))
    else if list_eq (take 4 buf) magic
    then parse_typed host byte_swap buf (from_u32 (be_at buf 20))
    else failed (bad_magic (take 4 buf))

abbrev zeros_4 : List ℕ
zeros_4 = 0 ∷ 0 ∷ 0 ∷ 0 ∷ []

-- Magic, seq, memory, keyup, talkgroup, type, mpxid, reserved.
unfoldable pub header : ℕ → Bool → ℕ → FrameType → List ℕ → List ℕ
unfolding type_code
header seq keyup talkgroup frame_type rest =
    magic
    ++ (u32_to_be seq
        ++ (zeros_4
            ++ (u32_to_be (if keyup then 1 else 0)
                ++ (u32_to_be talkgroup
                    ++ (u32_to_be (type_code frame_type) ++ (zeros_4 ++ (zeros_4 ++ rest)))))))

unfoldable pub serialize_text : ℕ → List ℕ → List ℕ
unfolding header
serialize_text seq payload = header seq false 0 text (payload ++ (0 ∷ []))

abbrev pub samples_of : Option (List ℕ) → List ℕ
samples_of none = []
samples_of (some samples) = samples

unfoldable pub serialize : Endian → Bool → Frame → List ℕ
unfolding header write_samples
serialize host byte_swap frame =
    header frame.seq frame.keyup frame.talkgroup frame.frame_type
      (write_samples host byte_swap (samples_of frame.audio))
