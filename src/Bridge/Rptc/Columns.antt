-- ===== src/Bridge/Rptc/Columns.antt =====
-- bridge/src/network/brandmeister.rs: the columns of the packet, and what can be read out of them.
use asl_dmr_bridge.Base.{
  ℕ, suc, ◌-◌, ◌^◌, ◌≡◌, ◌<◌, ◌≤◌, refl, arith, List, [], ◌∷◌, ◌++◌, map, Option, none, some, ◌==◌,
  if◌then◌else◌, length, get_or, take, drop, replicate, ap, sym, ◌∙◌, u32_to_be, u32_from_be,
  u32_back,
}
use mathlib.Core.List.{append-nil}
use asl_dmr_bridge.Ids.{Slot}
use asl_dmr_bridge.Bridge.Rptc.{
  Frequency, frequency, callsign, Floats, PeerConfig, fmt_str, or_default, height_of, slot_digit,
  concat, columns_of, config_packet, as_rptc_digits, tag_rptc, or_unset, default_description,
  software_id, package_id,
}
use asl_dmr_bridge.Bridge.Rptc.Reading.{
  columns, widths, decimal_from, until_space, columns-concat, sum, length-concat, length-fmt_str,
  fmt_str-whole, length-zero_padded, decimal-zero_padded, until_space-padded, frequency_lem,
  callsign_lem,
}

-- What documentation says of the numbers: each format has the width that is asked for, after clamping.
pub record Formats (floats : Floats) : Type 0 where
  pub latitude_width :
      (v : floats.F) → length (floats.format (floats.clamp_to v floats.max_latitude) 8) ≡ 8
  pub longitude_width :
      (v : floats.F) → length (floats.format (floats.clamp_to v floats.max_longitude) 9) ≡ 9

abbrev pub column : List ℕ → ℕ → List ℕ
column packet i = get_or (columns widths (drop 8 packet)) i []

-- What the master reads in a packet.
pub record Readable {floats : Floats} (r : PeerConfig floats) (slot : Slot) (packet : List ℕ)
    : Type 0 where
  pub size : length packet ≡ 302
  pub tagged : take 4 packet ≡ tag_rptc
  pub id :
      u32_from_be (get_or packet 4 0) (get_or packet 5 0) (get_or packet 6 0) (get_or packet 7 0)
      ≡ r.dmr_id.as_u32
  pub call : until_space (column packet 0) ≡ r.callsign.as_str
  pub rx : decimal_from 0 (column packet 1) ≡ r.rx_freq.hz
  pub tx : decimal_from 0 (column packet 2) ≡ r.tx_freq.hz
  pub color : decimal_from 0 (column packet 4) ≡ r.color_code.value
  pub height : decimal_from 0 (column packet 7) ≡ height_of r.height
  pub slot_column : column packet 10 ≡ slot_digit slot

module _ {floats : Floats} (law : Formats floats) (r : PeerConfig floats) (slot : Slot) where
  columns_of-widths : map length (columns_of r slot) ≡ widths
  columns_of-widths = λ i.
      length-fmt_str r.callsign.as_str 8 i
      ∷ length-fmt_str (as_rptc_digits r.rx_freq) 9 i
      ∷ length-fmt_str (as_rptc_digits r.tx_freq) 9 i
      ∷ length-fmt_str (or_default r.tx_power (b'0' ∷ b'1' ∷ [])) 2 i
      ∷ length-zero_padded 2 r.color_code.value i
      ∷ law.latitude_width (or_unset floats r.latitude) i
      ∷ law.longitude_width (or_unset floats r.longitude) i
      ∷ length-zero_padded 3 (height_of r.height) i
      ∷ length-fmt_str (or_default r.location []) 20 i
      ∷ length-fmt_str (or_default r.description default_description) 19 i
      ∷ one_digit slot i
      ∷ length-fmt_str r.url 124 i
      ∷ length-fmt_str software_id 40 i
      ∷ length-fmt_str package_id 40 i
      ∷ []
    where
      one_digit : (s : Slot) → length (slot_digit s) ≡ 1
      one_digit Slot.one = refl
      one_digit Slot.two = refl

  payload_length : length (concat (columns_of r slot)) ≡ 294
  payload_length = length-concat (columns_of r slot) ∙ ap sum columns_of-widths

  payload_columns : columns widths (concat (columns_of r slot)) ≡ columns_of r slot
  payload_columns =
      ap (λ ws. columns ws (concat (columns_of r slot))) (sym columns_of-widths)
      ∙ columns-concat (columns_of r slot)

  abbrev the_packet : List ℕ
  the_packet = tag_rptc ++ (u32_to_be r.dmr_id.as_u32 ++ concat (columns_of r slot))

  -- A column that holds a number or a word that fits.
  digits_back :
      (f : Frequency) → f.hz < 10 ^ 9 → decimal_from 0 (fmt_str (as_rptc_digits f) 9) ≡ f.hz
  digits_back f h =
      ap (decimal_from 0)
        (fmt_str-whole (as_rptc_digits f) 9 (omega (arith, length-zero_padded 9 f.hz)) ∙ no_pad)
      ∙ decimal-zero_padded 9 f.hz h
    where
      no_pad : as_rptc_digits f ++ replicate (9 - length (as_rptc_digits f)) 32 ≡ as_rptc_digits f
      no_pad =
          ap (λ n. as_rptc_digits f ++ replicate (9 - n) 32) (length-zero_padded 9 f.hz)
          ∙ append-nil (as_rptc_digits f)

  columns_read : (i : ℕ) → column the_packet i ≡ get_or (columns_of r slot) i []
  columns_read i = ap (λ cs. get_or cs i []) payload_columns

  -- For a repeater whose callsign and frequencies were accepted by their types, whose color code is at most
  -- 15 and whose id has 32 bits, the packet is built without a panic: it has 302 bytes, and the id, the
  -- callsign, both frequencies, the color code, the height (999 at most) and the slot can be read in their
  -- columns, whatever the free texts and the coordinates are.
  pub config_packet-Readable :
      (name : List ℕ) (rx tx : ℕ)
      → callsign name ≡ some r.callsign
      → frequency rx ≡ some r.rx_freq
      → frequency tx ≡ some r.tx_freq
      → r.color_code.value ≤ 15
      → r.dmr_id.as_u32 < 2 ^ 32
      → (packet : List ℕ) × (config_packet r slot ≡ some packet) × Readable r slot packet
  unfolding config_packet
  config_packet-Readable name rx tx named heard sent color_fits id_fits =
      let (short, alnum) = callsign_lem name r.callsign named in
      (
        the_packet,
        ap (λ n. if n == 294 then some the_packet else none) payload_length,
        record {
          size = ap (λ n. suc (suc (suc (suc (suc (suc (suc (suc n)))))))) payload_length;
          tagged = refl;
          id = u32_back r.dmr_id.as_u32 id_fits;
          call =
              ap until_space (columns_read 0 ∙ fmt_str-whole r.callsign.as_str 8 short)
              ∙ until_space-padded r.callsign.as_str (8 - length r.callsign.as_str) alnum;
          rx =
              ap (decimal_from 0) (columns_read 1)
              ∙ digits_back r.rx_freq (frequency_lem rx r.rx_freq heard);
          tx =
              ap (decimal_from 0) (columns_read 2)
              ∙ digits_back r.tx_freq (frequency_lem tx r.tx_freq sent);
          color =
              ap (decimal_from 0) (columns_read 4)
              ∙ decimal-zero_padded 2 r.color_code.value (omega (arith, color_fits));
          height =
              ap (decimal_from 0) (columns_read 7)
              ∙ decimal-zero_padded 3 (height_of r.height) (at_most r.height);
          slot_column = columns_read 10;
        },
      )
    where
      at_most : (h : Option ℕ) → height_of h < 10 ^ 3
      at_most none = omega arith
      at_most (some h) = ground arith
