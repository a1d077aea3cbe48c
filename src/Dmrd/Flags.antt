-- ===== src/Dmrd/Flags.antt =====
-- dmr-wire/src/dmrd.rs: the flag byte of a packet, written and read back.
use asl_dmr_bridge.Base.{
  ℕ, ◌<◌, ◌≡◌, refl, Bool, true, arith, ltb, ◌==◌, ◌&&◌, ==_iff, bit_and, each_below,
  each_below_sound, IsByte,
}
use asl_dmr_bridge.Ids.{Slot}
use asl_dmr_bridge.Dmrd.{
  CallType, group, unit, FrameType, voice, voice_sync, data_sync, Result, ok, err, flags_of,
  slot_of_flags, call_type_of_flags, frame_type_of_flags,
}

-- The fields of a flag byte, written back.
rebuilt : ℕ → ℕ
unfolding flags_of slot_of_flags call_type_of_flags frame_type_of_flags
rebuilt flags = elim (frame_type_of_flags flags) [
  | ok frame_type ↦
      flags_of (slot_of_flags flags) (call_type_of_flags flags) frame_type (bit_and flags 0x0f)
  | err e ↦ flags
]

rebuilt_table : each_below 256 (λ flags. rebuilt flags == flags) ≡ true
unfolding each_below rebuilt
rebuilt_table = refl

pub flags_rebuilt :
    (flags : ℕ) {frame_type : FrameType}
    → flags < 256
    → frame_type_of_flags flags ≡ ok frame_type
    → flags_of (slot_of_flags flags) (call_type_of_flags flags) frame_type (bit_and flags 0x0f)
      ≡ flags
unfolding rebuilt
flags_rebuilt flags h e =
    rw (e, rebuilt) at
      ((==_iff _ flags).0 (each_below_sound 256 (λ f. rebuilt f == f) flags rebuilt_table h))

abbrev slot_eq : Slot → Slot → Bool
slot_eq Slot.one Slot.one = true
slot_eq Slot.two Slot.two = true
slot_eq _ _ = Bool.false

abbrev call_type_eq : CallType → CallType → Bool
call_type_eq group group = true
call_type_eq unit unit = true
call_type_eq _ _ = Bool.false

abbrev frame_type_eq : Result FrameType → FrameType → Bool
frame_type_eq (ok voice) voice = true
frame_type_eq (ok voice_sync) voice_sync = true
frame_type_eq (ok data_sync) data_sync = true
frame_type_eq _ _ = Bool.false

-- What a packet's flag byte reads back as.
pub record FlagsRead (flags : ℕ) (s : Slot) (c : CallType) (f : FrameType) (v : ℕ) : Type 0 where
  pub slot_back : slot_of_flags flags ≡ s
  pub call_type_back : call_type_of_flags flags ≡ c
  pub frame_type_back : frame_type_of_flags flags ≡ ok f
  pub dtype_back : bit_and flags 0x0f ≡ v
  pub flag_byte : IsByte flags

flags_check : ℕ → Slot → CallType → FrameType → ℕ → Bool
flags_check flags s c f v =
    slot_eq (slot_of_flags flags) s
    && call_type_eq (call_type_of_flags flags) c
    && frame_type_eq (frame_type_of_flags flags) f
    && bit_and flags 0x0f == v
    && ltb flags 256

slot_eq→eq : (a b : Slot) → slot_eq a b ≡ true → a ≡ b
slot_eq→eq a b h = ground arith

call_type_eq→eq : (a b : CallType) → call_type_eq a b ≡ true → a ≡ b
call_type_eq→eq a b h = ground arith

frame_type_eq→eq : (a : Result FrameType) (b : FrameType) → frame_type_eq a b ≡ true → a ≡ ok b
frame_type_eq→eq a b h = ground arith

all_five :
    (a b c d e : Bool)
    → (a && b && c && d && e) ≡ true
    → (a ≡ true) × (b ≡ true) × (c ≡ true) × (d ≡ true) × (e ≡ true)
all_five a b c d e h = ground arith

flags_check→read :
    (flags : ℕ) (s : Slot) (c : CallType) (f : FrameType) (v : ℕ)
    → flags_check flags s c f v ≡ true
    → FlagsRead flags s c f v
unfolding flags_check
flags_check→read flags s c f v h =
    let (hs, hc, hf, hd, hb) = all_five _ _ _ _ _ h in
    record {
      slot_back = slot_eq→eq _ s hs;
      call_type_back = call_type_eq→eq _ c hc;
      frame_type_back = frame_type_eq→eq _ f hf;
      dtype_back = (==_iff _ v).0 hd;
      flag_byte = ground arith;
    }

flags_all :
    (s : Slot) (c : CallType) (f : FrameType)
    → each_below 16 (λ v. flags_check (flags_of s c f v) s c f v) ≡ true
unfolding each_below flags_check flags_of slot_of_flags call_type_of_flags frame_type_of_flags
flags_all Slot.one group voice = refl
flags_all Slot.one group voice_sync = refl
flags_all Slot.one group data_sync = refl
flags_all Slot.one unit voice = refl
flags_all Slot.one unit voice_sync = refl
flags_all Slot.one unit data_sync = refl
flags_all Slot.two group voice = refl
flags_all Slot.two group voice_sync = refl
flags_all Slot.two group data_sync = refl
flags_all Slot.two unit voice = refl
flags_all Slot.two unit voice_sync = refl
flags_all Slot.two unit data_sync = refl

pub flags_of-FlagsRead :
    (s : Slot) (c : CallType) (f : FrameType) (v : ℕ)
    → v < 16
    → FlagsRead (flags_of s c f v) s c f v
flags_of-FlagsRead s c f v h =
    flags_check→read _ s c f v
      (each_below_sound 16 (λ v. flags_check (flags_of s c f v) s c f v) v (flags_all s c f) h)
