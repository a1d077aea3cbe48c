-- ===== src/EmbeddedLc/Recovery.antt =====
-- dmr-wire/src/embedded_lc.rs: what a receiver reads back from the interleaved bits.
use asl_dmr_bridge.Base.{
  ℕ, ◌+◌, ◌*◌, ◌≡◌, refl, arith, List, ◌++◌, length, tabulate, range_from, bit_and, bytes_of_bits,
  ◌>>>◌, tabulate-get_or, ◌∙◌, true, ◌==◌, ==_iff, each_below, each_below_sound, ◌<◌,
}
use mathlib.Core.List.{flatten}
use mathlib.Core.Path.{subst}
use asl_dmr_bridge.Fec.{bit}
use asl_dmr_bridge.EmbeddedLc.{encode_raw, data_rows, matrix_of, read_columns, crc5_embedded}

-- The first `n` bits of a row of the matrix, which was sent by columns of eight.
abbrev row_sent : List ℕ → ℕ → ℕ → List ℕ
row_sent raw row n = tabulate n (λ column. bit raw (8 * column + row))

-- The data bits: eleven of rows 0 and 1, ten of rows 2 to 6.
unfoldable pub received_lc : List ℕ → List ℕ
unfolding tabulate range_from
received_lc raw =
    row_sent raw 0 11
    ++ row_sent raw 1 11
    ++ row_sent raw 2 10
    ++ row_sent raw 3 10
    ++ row_sent raw 4 10
    ++ row_sent raw 5 10
    ++ row_sent raw 6 10

-- The checksum bits, the last of rows 2 to 6.
unfoldable pub received_crc : List ℕ → ℕ
received_crc raw = 16 * bit raw 82 + 8 * bit raw 83 + 4 * bit raw 84 + 2 * bit raw 85 + bit raw 86

crc_of_bits : ℕ → ℕ
crc_of_bits crc =
    16 * bit_and (crc >>> 4) 1
    + 8 * bit_and (crc >>> 3) 1
    + 4 * bit_and (crc >>> 2) 1
    + 2 * bit_and (crc >>> 1) 1
    + bit_and crc 1

crc_table : each_below 31 (λ crc. crc_of_bits crc == crc) ≡ true
unfolding each_below crc_of_bits
crc_table = refl

crc5_embedded_bound : (bytes : List ℕ) → crc5_embedded bytes < 31
unfolding crc5_embedded
crc5_embedded_bound bytes = omega arith

interleaved : List ℕ → ℕ → List ℕ
unfolding flatten
interleaved lc crc = read_columns 128 0 (flatten (matrix_of (data_rows lc crc)))

received_tabulated :
    (f : ℕ → ℕ) (crc : ℕ)
    → (received_lc (interleaved (tabulate 72 f) crc) ≡ tabulate 72 f)
      × (received_crc (interleaved (tabulate 72 f) crc) ≡ crc_of_bits crc)
unfolding received_lc received_crc crc_of_bits interleaved tabulate range_from read_columns
    matrix_of data_rows flatten
received_tabulated f crc = (refl, refl)

-- The 72 bits of an LC and its checksum stand in the interleaved bits where a receiver looks for
-- them: the LC in the first columns of rows 0 to 6, the checksum in the last data column.
pub received_lc-encode_raw :
    (lc : List ℕ)
    → length lc ≡ 72
    → (received_lc (encode_raw lc) ≡ lc)
      × (received_crc (encode_raw lc) ≡ crc5_embedded (bytes_of_bits 9 lc))
unfolding encode_raw interleaved
received_lc-encode_raw lc h = (both.0, both.1 ∙ crc_back)
  where
    crc : ℕ
    crc = crc5_embedded (bytes_of_bits 9 lc)

    whole : tabulate 72 (bit lc) ≡ lc
    whole = subst (λ n. tabulate n (bit lc) ≡ lc) h (tabulate-get_or lc)

    both :
        (received_lc (interleaved lc (crc5_embedded (bytes_of_bits 9 lc))) ≡ lc)
        × (received_crc (interleaved lc (crc5_embedded (bytes_of_bits 9 lc)))
            ≡ crc_of_bits (crc5_embedded (bytes_of_bits 9 lc)))
    both =
        subst
          (λ l.
            (received_lc (interleaved l crc) ≡ l)
            × (received_crc (interleaved l crc) ≡ crc_of_bits crc))
          whole (received_tabulated (bit lc) crc)

    crc_back : crc_of_bits (crc5_embedded (bytes_of_bits 9 lc)) ≡ crc5_embedded (bytes_of_bits 9 lc)
    crc_back = (==_iff _ crc).0 (
        each_below_sound 31 (λ c. crc_of_bits c == c) crc crc_table
          (crc5_embedded_bound (bytes_of_bits 9 lc)))
