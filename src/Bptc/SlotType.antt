-- ===== src/Bptc/SlotType.antt =====
-- dmr-wire/src/bptc.rs and dmr-wire/src/fec.rs: the slot type of a data burst.
use asl_dmr_bridge.Base.{
  ℕ, ◌+◌, ◌*◌, ◌≡◌, ◌<◌, refl, true, some, each_below, each_below_sound, is_just, is_just_sound,
}
use asl_dmr_bridge.Fec.{golay_20_8_parity, golay_20_8_decode}
use asl_dmr_bridge.Bptc.{encode_slot_type}

slot_type_table :
    each_below 16 (λ cc.
      each_below 16 (λ dt. is_just (16 * cc + dt) (golay_20_8_decode (encode_slot_type dt cc))))
    ≡ true
unfolding golay_20_8_decode golay_20_8_parity encode_slot_type each_below
slot_type_table = refl

-- The Golay(20,8) code word of a slot type decodes to its color code and data type, for both below 16.
pub golay_20_8_decode-encode_slot_type :
    (data_type color_code : ℕ)
    → data_type < 16
    → color_code < 16
    → golay_20_8_decode (encode_slot_type data_type color_code) ≡ some (16 * color_code + data_type)
golay_20_8_decode-encode_slot_type dt cc h k = is_just_sound _ _ (
    each_below_sound 16 (λ d. is_just (16 * cc + d) (golay_20_8_decode (encode_slot_type d cc))) dt
      (each_below_sound 16
        (λ c. each_below 16 (λ d. is_just (16 * c + d) (golay_20_8_decode (encode_slot_type d c))))
        cc slot_type_table k)
      h)
