-- ===== src/Ids.antt =====
-- dmr-types/src/lib.rs: the DMR identifiers and the ranges that their constructors enforce.
-- A newtype is a record of its number; a value that `try_from` built meets the type's predicate.
use asl_dmr_bridge.Base.{ℕ, ◌/◌, ◌%◌, ◌^◌, ◌≤◌, ◌<◌, List, [], ◌∷◌, ltb, ◌==◌, if◌then◌else◌}

abbrev pub max_24bit : ℕ
max_24bit = 0x00ff_ffff

abbrev pub max_color_code : ℕ
max_color_code = 15

pub data InvalidValue : Type 0 where
  dmr_id_zero subscriber_id_zero talkgroup_zero : InvalidValue
  subscriber_id_too_large talkgroup_too_large color_code_too_large slot_invalid : ℕ → InvalidValue

pub record DmrId : Type 0 where
  pub as_u32 : ℕ

pub record SubscriberId : Type 0 where
  pub as_u32 : ℕ

pub record Talkgroup : Type 0 where
  pub as_u32 : ℕ

pub record ColorCode : Type 0 where
  pub value : ℕ

pub data Slot : Type 0 where
  one two : Slot

-- `Result<T, InvalidValue>`.
pub data Checked {ℓ} (A : Type ℓ) : Type ℓ where
  valid : A → Checked A
  invalid : InvalidValue → Checked A

unfoldable pub dmr_id : ℕ → Checked DmrId
dmr_id v = if v == 0 then invalid dmr_id_zero else valid (record { as_u32 = v })

unfoldable pub subscriber_id : ℕ → Checked SubscriberId
subscriber_id v =
    if v == 0
    then invalid subscriber_id_zero
    else if ltb max_24bit v
    then invalid (subscriber_id_too_large v)
    else valid (record { as_u32 = v })

unfoldable pub talkgroup : ℕ → Checked Talkgroup
talkgroup v =
    if v == 0
    then invalid talkgroup_zero
    else if ltb max_24bit v
    then invalid (talkgroup_too_large v)
    else valid (record { as_u32 = v })

unfoldable pub color_code : ℕ → Checked ColorCode
color_code v =
    if ltb max_color_code v then invalid (color_code_too_large v) else valid (record { value = v })

unfoldable pub slot_from_u8 : ℕ → Checked Slot
slot_from_u8 v =
    if v == 1 then valid one else if v == 2 then valid two else invalid (slot_invalid v)

-- `Slot::as_u8` and `Slot::index`.
unfoldable pub slot_as_u8 : Slot → ℕ
slot_as_u8 one = 1
slot_as_u8 two = 2

unfoldable pub slot_index : Slot → ℕ
slot_index one = 0
slot_index two = 1

-- The last three of the four big-endian bytes: `SubscriberId::to_be_bytes_3`.
unfoldable pub to_be_bytes_3 : ℕ → List ℕ
to_be_bytes_3 v = (v / 65536 % 256) ∷ (v / 256 % 256) ∷ (v % 256) ∷ []

abbrev pub IsDmrId : DmrId → Type 0
IsDmrId d = (0 < d.as_u32) × (d.as_u32 < 2 ^ 32)

abbrev pub IsSubscriberId : SubscriberId → Type 0
IsSubscriberId s = (0 < s.as_u32) × (s.as_u32 ≤ max_24bit)

abbrev pub IsTalkgroup : Talkgroup → Type 0
IsTalkgroup t = (0 < t.as_u32) × (t.as_u32 ≤ max_24bit)

abbrev pub IsColorCode : ColorCode → Type 0
IsColorCode c = c.value ≤ max_color_code
