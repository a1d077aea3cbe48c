-- ===== src/Bptc.antt =====
-- dmr-wire/src/bptc.rs: the BPTC(196,96) product code of voice LC headers and terminators, the
-- bursts that carry them, and the decoder that checks received ones.
pub mod Product
pub mod SlotType
pub mod Passes
pub mod Correction
pub mod Entries
pub mod Interleaving
pub mod Recovery
pub mod Bursts
pub mod LcBytes
pub mod VoiceLc
use asl_dmr_bridge.Base.{
  ℕ, zero, suc, ◌+◌, ◌-◌, ◌*◌, ◌/◌, ◌%◌, ◌^◌, ◌≤◌, ◌<◌, ◌≡◌, refl, List, [], ◌∷◌, ◌++◌, map, foldl,
  Bool, true, false, ◌&&◌, ◌||◌, not, Option, none, some, arith, ltb, leb, ◌==◌, if◌then◌else◌,
  bit_and, bit_or, bit_xor, length, get_or, set, take, drop, slice, write_at, replicate, range_from,
  tabulate, bits_of_byte, bits_of_bytes, byte_of_bits, bytes_of_bits, list_eq, u32_from_be, ◌<<<◌,
  ◌>>>◌,
}
use asl_dmr_bridge.Fec.{
  bit, golay_20_8_parity, hamming_15_11_parity, hamming_13_9_parity, hamming_15_11_correct,
  hamming_13_9_correct, Corrected, fixed, fail,
}
use asl_dmr_bridge.Rs.{
  rs_12_9_fec, rs_12_9_syndromes, rs_12_9_correct, Syndromes, lc_header_mask, lc_terminator_mask,
}
use asl_dmr_bridge.Dmrd.{id_to_24_be}

abbrev pub data_positions : List ℕ
unfolding range_from
data_positions =
    range_from 4 8
    ++ range_from 16 11
    ++ range_from 31 11
    ++ range_from 46 11
    ++ range_from 61 11
    ++ range_from 76 11
    ++ range_from 91 11
    ++ range_from 106 11
    ++ range_from 121 11

-- `matrix[pos] = data[i]` for each `(i, pos)`.
unfoldable pub place : List ℕ → List ℕ → List ℕ → List ℕ
place (pos ∷ ps) (v ∷ vs) matrix = place ps vs (set matrix pos v)
place _ _ matrix = matrix

-- One row: its four parity bits behind its eleven data bits.
unfoldable pub row_pass : List ℕ → ℕ → List ℕ
row_pass matrix r =
    let base = r * 15 + 1 in
    write_at matrix (base + 11) (hamming_15_11_parity (slice matrix base 11))

-- The thirteen positions of column `c`.
abbrev pub column_positions : ℕ → List ℕ
column_positions c = map (λ k. c + 1 + k * 15) (range_from 0 13)

unfoldable pub col_pass : List ℕ → ℕ → List ℕ
unfolding place range_from
col_pass matrix c =
    let col = map (λ pos. get_or matrix pos 0) (column_positions c) in
    place (column_positions c) (take 9 col ++ hamming_13_9_parity (take 9 col)) matrix

-- `out[i * 181 % 196] = matrix[i]`.
unfoldable pub interleave : List ℕ → List ℕ
unfolding place range_from
interleave matrix = place (map (λ i. (i * 181) % 196) (range_from 0 196)) matrix (replicate 196 0)

unfoldable pub bptc_encode : List ℕ → List ℕ
unfolding place row_pass col_pass interleave range_from hamming_15_11_parity hamming_13_9_parity
bptc_encode bits =
    let placed = place data_positions bits (replicate 196 0) in
    let rows = foldl row_pass placed (range_from 0 9) in
    interleave (foldl col_pass rows (range_from 0 15))

unfoldable pub encode_slot_type : ℕ → ℕ → List ℕ
unfolding golay_20_8_parity
encode_slot_type data_type color_code =
    let info = bit_or (bit_and color_code 0x0f <<< 4) (bit_and data_type 0x0f) in
    let parity = golay_20_8_parity info in
    bits_of_byte info
    ++ bits_of_byte (bit_and parity 0xff)
    ++ take 4 (bits_of_byte (bit_and (parity >>> 8) 0xff))

-- `if bit != 0 { *byte |= 1 << (7 - bit) }` for the eight bits from `at` on.
unfoldable pub byte_of_flags : List ℕ → ℕ → ℕ
unfolding range_from
byte_of_flags bits at =
    foldl (λ v k. if get_or bits (at + k) 0 == 0 then v else bit_or v (1 <<< (7 - k))) 0
      (range_from 0 8)

-- Info1[98] + SlotType1[10] + SYNC[48] + SlotType2[10] + Info2[98], packed into 33 bytes.
unfoldable pub build_data_burst : List ℕ → ℕ → ℕ → List ℕ → List ℕ
unfolding bptc_encode encode_slot_type bits_of_bytes tabulate byte_of_flags
build_data_burst lc_bits data_type color_code sync =
    let interleaved = bptc_encode lc_bits in
    let slot_type = encode_slot_type data_type color_code in
    let burst_bits =
      take 98 interleaved
      ++ take 10 slot_type
      ++ bits_of_bytes sync
      ++ drop 10 slot_type
      ++ drop 98 interleaved in
    tabulate 33 (λ i. byte_of_flags burst_bits (i * 8))

-- PF/Res/FLCO, FID, options, then the two ids; `none` is the panic on an id over 24 bits.
unfoldable pub lc_body_bytes : Bool → ℕ → ℕ → Option (List ℕ)
unfolding id_to_24_be
lc_body_bytes group_call dst_id src_id = elim (id_to_24_be dst_id) [
  | none ↦ none
  | some dst ↦ elim (id_to_24_be src_id) [
    | none ↦ none
    | some src ↦ some (((if group_call then 0 else 0x03) ∷ 0 ∷ 0 ∷ []) ++ dst ++ src)
  ]
]

unfoldable pub build_voice_lc_body : Bool → ℕ → ℕ → Option (List ℕ)
unfolding lc_body_bytes bits_of_bytes
build_voice_lc_body group_call dst_id src_id = elim (lc_body_bytes group_call dst_id src_id) [
  | none ↦ none
  | some body ↦ some (bits_of_bytes body)
]

abbrev pub mask_of : ℕ → List ℕ
mask_of data_type = if data_type == 2 then lc_terminator_mask else lc_header_mask

unfoldable pub build_voice_lc : Bool → ℕ → ℕ → ℕ → Option (List ℕ)
unfolding lc_body_bytes rs_12_9_fec bits_of_bytes
build_voice_lc group_call dst_id src_id data_type = elim (lc_body_bytes group_call dst_id src_id) [
  | none ↦ none
  | some body ↦ some (bits_of_bytes (body ++ rs_12_9_fec body (mask_of data_type)))
]

pub record DecodedVoiceLc : Type 0 where
  pub src_id : ℕ
  pub dst_id : ℕ
  pub rs_syndromes : Syndromes
  pub rs_corrected : Bool
  pub bptc_corrected_bits : ℕ

-- The matrix under correction with the count of flipped bits; `none` once a column is uncorrectable.
abbrev pub Progress : Type 0
Progress = Option (List ℕ × ℕ)

abbrev pub counted : ℕ → Bool → ℕ
counted n true = (n + 1) % 256
counted n false = n

-- `hamming_15_11_correct` never fails on a row.
unfoldable pub correct_row : Progress → ℕ → Progress
correct_row none r = none
correct_row (some (matrix, n)) r = elim (hamming_15_11_correct (slice matrix (r * 15 + 1) 15)) [
  | fixed row flipped ↦ some (write_at matrix (r * 15 + 1) row, counted n flipped)
  | fail ↦ none
]

unfoldable pub correct_col : Progress → ℕ → Progress
unfolding place range_from
correct_col none c = none
correct_col (some (matrix, n)) c =
    elim (hamming_13_9_correct (map (λ pos. get_or matrix pos 0) (column_positions c))) [
      | fixed col flipped ↦ some (place (column_positions c) col matrix, counted n flipped)
      | fail ↦ none
    ]

unfoldable pub deinterleave : List ℕ → List ℕ
unfolding tabulate
deinterleave interleaved = tabulate 196 (λ i. get_or interleaved ((i * 181) % 196) 0)

unfoldable pub bptc_decode_correct : List ℕ → Option (List ℕ × ℕ)
unfolding deinterleave correct_row correct_col range_from hamming_15_11_correct hamming_13_9_correct
bptc_decode_correct interleaved =
    let rows = foldl correct_row (some (deinterleave interleaved, 0)) (range_from 0 9) in
    elim (foldl correct_col rows (range_from 0 15)) [
      | none ↦ none
      | some (matrix, n) ↦ some (map (λ pos. get_or matrix pos 0) data_positions, n)
    ]

unfoldable pub extract_burst_interleaved : List ℕ → List ℕ
unfolding bits_of_bytes
extract_burst_interleaved burst =
    let burst_bits = bits_of_bytes burst in take 98 burst_bits ++ slice burst_bits 166 98

-- The word of the Reed-Solomon code: the LC with the mask taken off its parity.
unfoldable pub unmasked : List ℕ → ℕ → List ℕ
unmasked lc data_type =
    take 9 lc
    ++ (bit_xor (bit lc 9) (bit (mask_of data_type) 0)
        ∷ bit_xor (bit lc 10) (bit (mask_of data_type) 1)
        ∷ bit_xor (bit lc 11) (bit (mask_of data_type) 2)
        ∷ [])

unfoldable pub decode_voice_lc_burst : List ℕ → ℕ → Option DecodedVoiceLc
unfolding extract_burst_interleaved bptc_decode_correct bytes_of_bits unmasked rs_12_9_syndromes
    rs_12_9_correct
decode_voice_lc_burst burst data_type =
    elim (bptc_decode_correct (extract_burst_interleaved burst)) [
      | none ↦ none
      | some (bits, n) ↦
          let received = unmasked (bytes_of_bits 12 bits) data_type in
          let attempt = rs_12_9_correct received in
          some (record {
            src_id =
                u32_from_be 0 (bit attempt.codeword 6) (bit attempt.codeword 7)
                  (bit attempt.codeword 8);
            dst_id =
                u32_from_be 0 (bit attempt.codeword 3) (bit attempt.codeword 4)
                  (bit attempt.codeword 5);
            rs_syndromes = rs_12_9_syndromes received;
            rs_corrected = attempt.valid;
            bptc_corrected_bits = n;
          })
    ]
