-- ===== src/Sync.antt =====
-- dmr-wire/src/sync.rs: sync patterns and the EMB section of voice bursts.
pub mod Emb
use asl_dmr_bridge.Base.{
  ℕ, zero, suc, ◌+◌, ◌-◌, ◌*◌, ◌/◌, ◌%◌, ◌^◌, ◌≤◌, ◌<◌, ◌≡◌, refl, List, [], ◌∷◌, ◌++◌, map, foldl,
  Bool, true, false, ◌&&◌, ◌||◌, not, Option, none, some, arith, ltb, leb, ◌==◌, if◌then◌else◌,
  bit_and, bit_or, bit_xor, length, get_or, set, take, drop, slice, write_at, replicate, range_from,
  tabulate, bits_of_byte, bits_of_bytes, byte_of_bits, bytes_of_bits, list_eq, u32_from_be, ◌<<<◌,
  ◌>>>◌,
}
use asl_dmr_bridge.Fec.{bit, qr_16_7_encode}

abbrev pub bs_voice_sync : List ℕ
bs_voice_sync = 0x75 ∷ 0x5f ∷ 0xd7 ∷ 0xdf ∷ 0x75 ∷ 0xf7 ∷ []

abbrev pub bs_data_sync : List ℕ
bs_data_sync = 0xdf ∷ 0xf5 ∷ 0x7d ∷ 0x75 ∷ 0xdf ∷ 0x5d ∷ []

-- CC(4) | PI(1) = 0 | LCSS(2), coded, around the four bytes of the LC fragment.
unfoldable pub build_emb_section : ℕ → ℕ → List ℕ → List ℕ
unfolding qr_16_7_encode
build_emb_section color_code lcss embedded_lc =
    let info = bit_or (bit_and color_code 0x0f <<< 3) (bit_and lcss 0x03) in
    let codeword = qr_16_7_encode info in
    (codeword >>> 8) % 256
    ∷ bit embedded_lc 0
    ∷ bit embedded_lc 1
    ∷ bit embedded_lc 2
    ∷ bit embedded_lc 3
    ∷ bit_and codeword 0xff
    ∷ []

unfoldable pub build_null_emb : ℕ → List ℕ
unfolding build_emb_section
build_null_emb color_code = build_emb_section color_code 0 (0 ∷ 0 ∷ 0 ∷ 0 ∷ [])
