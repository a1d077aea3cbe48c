-- ===== src/Bridge/Rptc.antt =====
-- bridge/src/network/brandmeister.rs: the packet that describes this repeater to the master, with the
-- types of bridge/src/types.rs. Floating-point numbers and their formatting are a parameter.
pub mod Columns
pub mod Reading
use asl_dmr_bridge.Base.{
  ℕ, zero, suc, ◌+◌, ◌-◌, ◌/◌, ◌%◌, List, [], ◌∷◌, ◌++◌, Bool, true, false, ◌&&◌, ◌||◌, not, Option,
  none, some, ltb, leb, ◌==◌, if◌then◌else◌, length, get_or, take, replicate, u32_to_be,
}
use asl_dmr_bridge.Ids.{DmrId, SubscriberId, ColorCode, Slot}

pub record Frequency : Type 0 where
  pub hz : ℕ

pub record Callsign : Type 0 where
  pub as_str : List ℕ

abbrev pub max_freq_hz : ℕ
max_freq_hz = 999_999_999

abbrev pub max_callsign_len : ℕ
max_callsign_len = 8

-- `deserialize` of a number, which may reject it.
unfoldable pub frequency : ℕ → Option Frequency
frequency v = if v == 0 then none else if ltb max_freq_hz v then none else some (record { hz = v })

abbrev pub between : ℕ → ℕ → ℕ → Bool
between low high b = leb low b && leb b high

abbrev pub is_ascii_alphanumeric : ℕ → Bool
is_ascii_alphanumeric b = between 48 57 b || (between 65 90 b || between 97 122 b)

abbrev pub all_alphanumeric : List ℕ → Bool
all_alphanumeric [] = true
all_alphanumeric (b ∷ bytes) = is_ascii_alphanumeric b && all_alphanumeric bytes

unfoldable pub callsign : List ℕ → Option Callsign
callsign s =
    if length s == 0
    then none
    else if ltb max_callsign_len (length s)
    then none
    else if not (all_alphanumeric s)
    then none
    else some (record { as_str = s })

-- Numbers padded with zeros to a width that they fit into.
unfoldable pub zero_padded : ℕ → ℕ → List ℕ
zero_padded zero n = []
zero_padded (suc width) n = zero_padded width (n / 10) ++ ((48 + n % 10) ∷ [])

abbrev pub as_rptc_digits : Frequency → List ℕ
as_rptc_digits f = zero_padded 9 f.hz

-- `f64`, as far as it is used: `format` is `{v:+0width$.4}`.
pub record Floats : Type 1 where
  pub F : Type 0
  pub unset : F
  pub max_latitude : F
  pub max_longitude : F
  pub clamp_to : F → F → F
  pub format : F → ℕ → List ℕ

module _ (floats : Floats) where
  abbrev or_unset : Option floats.F → floats.F
  or_unset none = floats.unset
  or_unset (some v) = v

  pub record PeerConfig : Type 0 where
    pub callsign : Callsign
    pub dmr_id : DmrId
    pub src_id : SubscriberId
    pub rx_freq : Frequency
    pub tx_freq : Frequency
    pub tx_power : List ℕ
    pub color_code : ColorCode
    pub latitude : Option floats.F
    pub longitude : Option floats.F
    pub height : Option ℕ
    pub location : List ℕ
    pub description : List ℕ
    pub url : List ℕ

abbrev pub or_default : List ℕ → List ℕ → List ℕ
or_default [] default = default
or_default (b ∷ value) default = b ∷ value

-- A byte that does not continue a character of UTF-8.
abbrev pub starts_char : ℕ → Bool
starts_char b = ltb b 128 || leb 192 b

abbrev pub is_char_boundary : List ℕ → ℕ → Bool
is_char_boundary value i =
    (i == length value) || (ltb i (length value) && starts_char (get_or value i 0))

-- The last boundary up to an index; the start is one.
unfoldable pub cut_at : List ℕ → ℕ → ℕ
cut_at value zero = zero
cut_at value (suc i) =
    let earlier = cut_at value i in if is_char_boundary value (suc i) then suc i else earlier

abbrev pub shorter : ℕ → ℕ → ℕ
shorter a b = if leb a b then a else b

unfoldable pub fmt_str : List ℕ → ℕ → List ℕ
unfolding cut_at
fmt_str value width =
    let s = take (cut_at value (shorter (length value) width)) value in
    s ++ replicate (width - length s) 32

abbrev pub height_of : Option ℕ → ℕ
height_of none = 0
height_of (some height) = shorter height 999

abbrev pub slot_digit : Slot → List ℕ
slot_digit Slot.one = b'1' ∷ []
slot_digit Slot.two = b'2' ∷ []

abbrev pub software_id : List ℕ
software_id =
    b'2' ∷ b'0' ∷ b'2' ∷ b'6' ∷ b'0' ∷ b'4' ∷ b'1' ∷ b'2' ∷ b'_' ∷ b'a' ∷ b's' ∷ b'l' ∷ b'-' ∷ b'd'
    ∷ b'm' ∷ b'r' ∷ b'-' ∷ b'b' ∷ b'r' ∷ b'i' ∷ b'd' ∷ b'g' ∷ b'e' ∷ []

abbrev pub package_id : List ℕ
package_id =
    b'M' ∷ b'M' ∷ b'D' ∷ b'V' ∷ b'M' ∷ b'_' ∷ b'a' ∷ b's' ∷ b'l' ∷ b'-' ∷ b'd' ∷ b'm' ∷ b'r' ∷ b'-'
    ∷ b'b' ∷ b'r' ∷ b'i' ∷ b'd' ∷ b'g' ∷ b'e' ∷ []

abbrev pub default_description : List ℕ
default_description =
    b'a' ∷ b's' ∷ b'l' ∷ b'-' ∷ b'd' ∷ b'm' ∷ b'r' ∷ b'-' ∷ b'b' ∷ b'r' ∷ b'i' ∷ b'd' ∷ b'g' ∷ b'e'
    ∷ []

abbrev pub tag_rptc : List ℕ
tag_rptc = b'R' ∷ b'P' ∷ b'T' ∷ b'C' ∷ []

abbrev pub concat : List (List ℕ) → List ℕ
concat [] = []
concat (xs ∷ xss) = xs ++ concat xss

-- `assert_eq!` on the length of the text: `none` is its panic.
abbrev pub asserted : ℕ → List ℕ → List ℕ → Option (List ℕ)
asserted size payload packet = if length payload == size then some packet else none

abbrev pub config_string_len : ℕ
config_string_len = 294

module _ {floats : Floats} where
  abbrev pub columns_of : PeerConfig floats → Slot → List (List ℕ)
  columns_of r slot =
      fmt_str r.callsign.as_str 8
      ∷ fmt_str (as_rptc_digits r.rx_freq) 9
      ∷ fmt_str (as_rptc_digits r.tx_freq) 9
      ∷ fmt_str (or_default r.tx_power (b'0' ∷ b'1' ∷ [])) 2
      ∷ zero_padded 2 r.color_code.value
      ∷ floats.format (floats.clamp_to (or_unset floats r.latitude) floats.max_latitude) 8
      ∷ floats.format (floats.clamp_to (or_unset floats r.longitude) floats.max_longitude) 9
      ∷ zero_padded 3 (height_of r.height)
      ∷ fmt_str (or_default r.location []) 20
      ∷ fmt_str (or_default r.description default_description) 19
      ∷ slot_digit slot
      ∷ fmt_str r.url 124
      ∷ fmt_str software_id 40
      ∷ fmt_str package_id 40
      ∷ []

  unfoldable pub config_packet : PeerConfig floats → Slot → Option (List ℕ)
  unfolding fmt_str zero_padded
  config_packet r slot =
      let payload = concat (columns_of r slot) in
      asserted config_string_len payload (tag_rptc ++ (u32_to_be r.dmr_id.as_u32 ++ payload))
