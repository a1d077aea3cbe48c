-- ===== src/EmbeddedLc.antt =====
-- dmr-wire/src/embedded_lc.rs: the embedded link control of voice bursts B to E.
pub mod Recovery
use asl_dmr_bridge.Base.{
  ℕ, zero, suc, ◌+◌, ◌-◌, ◌*◌, ◌%◌, List, [], ◌∷◌, ◌++◌, map, foldl, ◌||◌, ltb, ◌==◌, if◌then◌else◌,
  bit_and, bit_xor, slice, replicate, tabulate, bytes_of_bits, ◌>>>◌,
}
use mathlib.Core.List.{flatten}
use asl_dmr_bridge.Fec.{bit, hamming_16_11_parity}

abbrev pub lcss_first : ℕ
lcss_first = 1

abbrev pub lcss_continuation : ℕ
lcss_continuation = 3

abbrev pub lcss_last : ℕ
lcss_last = 2

abbrev pub lcss_null : ℕ
lcss_null = 0

-- The sum of nine bytes fits the source's `u16`.
unfoldable pub crc5_embedded : List ℕ → ℕ
crc5_embedded lc_bytes = foldl (λ total b. total + b) 0 lc_bytes % 31

-- Rows 0 to 6 without their parity: data bits, and on rows 2 to 6 one bit of the CRC.
unfoldable pub data_rows : List ℕ → ℕ → List (List ℕ)
data_rows lc_bits crc =
    slice lc_bits 0 11
    ∷ slice lc_bits 11 11
    ∷ (slice lc_bits 22 10 ++ (bit_and (crc >>> 4) 1 ∷ []))
    ∷ (slice lc_bits 32 10 ++ (bit_and (crc >>> 3) 1 ∷ []))
    ∷ (slice lc_bits 42 10 ++ (bit_and (crc >>> 2) 1 ∷ []))
    ∷ (slice lc_bits 52 10 ++ (bit_and (crc >>> 1) 1 ∷ []))
    ∷ (slice lc_bits 62 10 ++ (bit_and crc 1 ∷ []))
    ∷ []

-- The exclusive or of two rows, column by column.
abbrev xor_rows : List ℕ → List ℕ → List ℕ
xor_rows (a ∷ left) (b ∷ right) = bit_xor a b ∷ xor_rows left right
xor_rows _ _ = []

-- Row 7: the parity of each column over rows 0 to 6.
parity_row : List (List ℕ) → List ℕ
parity_row [] = replicate 16 0
parity_row (r ∷ rs) = foldl xor_rows r rs

-- The seven rows with their Hamming parity, and the row of column parities.
unfoldable pub matrix_of : List (List ℕ) → List (List ℕ)
unfolding parity_row hamming_16_11_parity
matrix_of rows =
    let coded = map (λ d. d ++ hamming_16_11_parity d) rows in coded ++ (parity_row coded ∷ [])

-- `idx += 16; if idx > 127 { idx -= 127 }`.
unfoldable pub next_index : ℕ → ℕ
next_index idx = if ltb 127 (idx + 16) then idx + 16 - 127 else idx + 16

-- `n` more bits of the matrix, read from `idx` on.
unfoldable pub read_columns : ℕ → ℕ → List ℕ → List ℕ
unfolding next_index
read_columns zero idx mat = []
read_columns (suc n) idx mat = bit mat idx ∷ read_columns n (next_index idx) mat

unfoldable pub encode_raw : List ℕ → List ℕ
unfolding data_rows matrix_of read_columns crc5_embedded bytes_of_bits flatten
encode_raw lc_bits =
    read_columns 128 0
      (flatten (matrix_of (data_rows lc_bits (crc5_embedded (bytes_of_bits 9 lc_bits)))))

unfoldable pub build_fragments : List ℕ → List (List ℕ)
unfolding encode_raw tabulate bytes_of_bits
build_fragments lc_bits =
    let raw = encode_raw lc_bits in tabulate 4 (λ n. bytes_of_bits 4 (slice raw (n * 32) 32))

unfoldable pub lcss_for_fragment : ℕ → ℕ
lcss_for_fragment n =
    if n == 0
    then lcss_first
    else if n == 1 || n == 2
    then lcss_continuation
    else if n == 3
    then lcss_last
    else lcss_null
