-- ===== src/Ambe/Channel.antt =====
-- ambe/src/voice_channel.rs: 49 bits of the codec and the 72 bits of a voice frame on the channel. A row
-- of the matrix has 24 columns, with one number per bit.
pub mod Codewords
pub mod Interleaving
pub mod Recovery
use asl_dmr_bridge.Base.{
  ℕ, zero, suc, ◌+◌, ◌-◌, ◌*◌, ◌%◌, ◌/◌, List, [], ◌∷◌, ◌++◌, map, Bool, true, false, if◌then◌else◌,
  ◌==◌, ◌<<<◌, ◌>>>◌, bit_and, bit_or, bit_xor, get_or, take, drop, replicate, range_from, tabulate,
  bits_of_bytes, bytes_of_bits,
}

abbrev pub golay_23_12_gen : ℕ
golay_23_12_gen = 0xc75

abbrev pub mbelib_to_chip : List ℕ
mbelib_to_chip =
    0 ∷ 3 ∷ 6 ∷ 9 ∷ 12 ∷ 15 ∷ 18 ∷ 21 ∷ 24 ∷ 27 ∷ 30 ∷ 33 ∷ 36 ∷ 39 ∷ 41 ∷ 43 ∷ 45 ∷ 47 ∷ 1 ∷ 4 ∷ 7
    ∷ 10 ∷ 13 ∷ 16 ∷ 19 ∷ 22 ∷ 25 ∷ 28 ∷ 31 ∷ 34 ∷ 37 ∷ 40 ∷ 42 ∷ 44 ∷ 46 ∷ 48 ∷ 2 ∷ 5 ∷ 8 ∷ 11 ∷ 14
    ∷ 17 ∷ 20 ∷ 23 ∷ 26 ∷ 29 ∷ 32 ∷ 35 ∷ 38 ∷ []

abbrev pub rw_table : List ℕ
rw_table =
    0 ∷ 1 ∷ 0 ∷ 1 ∷ 0 ∷ 1 ∷ 0 ∷ 1 ∷ 0 ∷ 1 ∷ 0 ∷ 1 ∷ 0 ∷ 1 ∷ 0 ∷ 1 ∷ 0 ∷ 1 ∷ 0 ∷ 1 ∷ 0 ∷ 1 ∷ 0 ∷ 2
    ∷ 0 ∷ 2 ∷ 0 ∷ 2 ∷ 0 ∷ 2 ∷ 0 ∷ 2 ∷ 0 ∷ 2 ∷ 0 ∷ 2 ∷ []

abbrev pub rx_table : List ℕ
rx_table =
    23 ∷ 10 ∷ 22 ∷ 9 ∷ 21 ∷ 8 ∷ 20 ∷ 7 ∷ 19 ∷ 6 ∷ 18 ∷ 5 ∷ 17 ∷ 4 ∷ 16 ∷ 3 ∷ 15 ∷ 2 ∷ 14 ∷ 1 ∷ 13
    ∷ 0 ∷ 12 ∷ 10 ∷ 11 ∷ 9 ∷ 10 ∷ 8 ∷ 9 ∷ 7 ∷ 8 ∷ 6 ∷ 7 ∷ 5 ∷ 6 ∷ 4 ∷ []

abbrev pub ry_table : List ℕ
ry_table =
    0 ∷ 2 ∷ 0 ∷ 2 ∷ 0 ∷ 2 ∷ 0 ∷ 2 ∷ 0 ∷ 3 ∷ 0 ∷ 3 ∷ 1 ∷ 3 ∷ 1 ∷ 3 ∷ 1 ∷ 3 ∷ 1 ∷ 3 ∷ 1 ∷ 3 ∷ 1 ∷ 3
    ∷ 1 ∷ 3 ∷ 1 ∷ 3 ∷ 1 ∷ 3 ∷ 1 ∷ 3 ∷ 1 ∷ 3 ∷ 1 ∷ 3 ∷ []

abbrev pub rz_table : List ℕ
rz_table =
    5 ∷ 3 ∷ 4 ∷ 2 ∷ 3 ∷ 1 ∷ 2 ∷ 0 ∷ 1 ∷ 13 ∷ 0 ∷ 12 ∷ 22 ∷ 11 ∷ 21 ∷ 10 ∷ 20 ∷ 9 ∷ 19 ∷ 8 ∷ 18 ∷ 7
    ∷ 17 ∷ 6 ∷ 16 ∷ 5 ∷ 15 ∷ 4 ∷ 14 ∷ 3 ∷ 13 ∷ 2 ∷ 12 ∷ 1 ∷ 11 ∷ 0 ∷ []

-- `for i in (11..=22).rev()`: `n` rounds are left.
unfoldable pub golay_rounds : ℕ → ℕ → ℕ
golay_rounds zero remainder = remainder
golay_rounds (suc n) remainder = golay_rounds n (
    if bit_and remainder (1 <<< (n + 11)) == 0
    then remainder
    else bit_xor remainder (golay_23_12_gen <<< n))

unfoldable pub golay_23_12_encode : ℕ → ℕ
unfolding golay_rounds
golay_23_12_encode info = bit_or (info <<< 11) (bit_and (golay_rounds 12 (info <<< 11)) 0x7ff)

-- `count_ones` of a number of so many bits.
unfoldable pub count_ones : ℕ → ℕ → ℕ
count_ones zero v = 0
count_ones (suc n) v = v % 2 + count_ones n (v / 2)

unfoldable pub golay_24_12_encode : ℕ → ℕ
unfolding golay_23_12_encode count_ones
golay_24_12_encode info =
    let cw23 = golay_23_12_encode info in bit_or (cw23 <<< 1) (bit_and (count_ones 32 cw23) 1)

abbrev pub pn_next : ℕ → ℕ
pn_next pr = (173 * pr + 13849) % 65536

-- The bits that follow a state.
unfoldable pub pn_from : ℕ → ℕ → List Bool
pn_from pr zero = []
pn_from pr (suc n) = (bit_and (pn_next pr >>> 15) 1 == 1) ∷ pn_from (pn_next pr) n

unfoldable pub pn_sequence : ℕ → ℕ → List Bool
unfolding pn_from
pn_sequence seed_12 n = pn_from (seed_12 * 16) n

abbrev pub bit_of : Bool → ℕ
bit_of true = 1
bit_of false = 0

abbrev pub set_at : {A : Type 0} → List A → ℕ → A → List A
set_at [] i y = []
set_at (x ∷ xs) zero y = y ∷ xs
set_at (x ∷ xs) (suc i) y = x ∷ set_at xs i y

abbrev pub entry : List (List ℕ) → ℕ → ℕ → ℕ
entry fr row col = get_or (get_or fr row []) col 0

abbrev pub set_entry : List (List ℕ) → ℕ → ℕ → ℕ → List (List ℕ)
set_entry fr row col b = set_at fr row (set_at (get_or fr row []) col b)

abbrev pub blank : List (List ℕ)
blank = replicate 4 (replicate 24 0)

-- The dibits of the bytes, the highest first, as pairs of bits.
abbrev pub dibits_of_byte : ℕ → List ℕ
dibits_of_byte byte =
    bit_and (byte >>> 6) 3 ∷ bit_and (byte >>> 4) 3 ∷ bit_and (byte >>> 2) 3 ∷ bit_and byte 3 ∷ []

unfoldable pub dibits_of : List ℕ → List ℕ
dibits_of [] = []
dibits_of (byte ∷ bytes) = dibits_of_byte byte ++ dibits_of bytes

abbrev pub split : ℕ → ℕ × ℕ
split dibit = (bit_and (dibit >>> 1) 1, bit_and dibit 1)

-- The loop over the dibits, with what is left of the four tables.
unfoldable pub place_dibits :
    List ℕ → List ℕ → List ℕ → List ℕ → List (ℕ × ℕ) → List (List ℕ) → List (List ℕ)
place_dibits (a ∷ rws) (b ∷ bs) (c ∷ cs) (d ∷ ds) ((msb, lsb) ∷ dibits) fr =
    place_dibits rws bs cs ds dibits (set_entry (set_entry fr a b msb) c d lsb)
place_dibits _ _ _ _ _ fr = fr

unfoldable pub deinterleave : List ℕ → List (List ℕ)
unfolding dibits_of place_dibits
deinterleave coded =
    place_dibits rw_table rx_table ry_table rz_table (map split (dibits_of coded)) blank

unfoldable pub read_dibits : List ℕ → List ℕ → List ℕ → List ℕ → List (List ℕ) → List (ℕ × ℕ)
read_dibits (a ∷ rws) (b ∷ bs) (c ∷ cs) (d ∷ ds) fr =
    (entry fr a b, entry fr c d) ∷ read_dibits rws bs cs ds fr
read_dibits _ _ _ _ fr = []

abbrev pub joined_bits : ℕ × ℕ → ℕ
joined_bits (msb, lsb) = bit_or (msb <<< 1) lsb

-- Four dibits to a byte.
unfoldable pub bytes_of_dibits : List ℕ → List ℕ
bytes_of_dibits (a ∷ b ∷ c ∷ d ∷ dibits) =
    bit_or (bit_or (bit_or (a <<< 6) (b <<< 4)) (c <<< 2)) d ∷ bytes_of_dibits dibits
bytes_of_dibits _ = []

unfoldable pub interleave : List (List ℕ) → List ℕ
unfolding read_dibits bytes_of_dibits
interleave fr =
    bytes_of_dibits (map joined_bits (read_dibits rw_table rx_table ry_table rz_table fr))

-- `(v << 1) | bit` for each bit.
unfoldable pub msb_first : ℕ → List ℕ → ℕ
msb_first v [] = v
msb_first v (b ∷ bits) = msb_first (bit_or (v <<< 1) b) bits

-- The columns from `col + n - 1` down to `col`.
abbrev pub columns_down : List ℕ → ℕ → ℕ → List ℕ
columns_down row col zero = []
columns_down row col (suc n) = get_or row (col + n) 0 ∷ columns_down row col n

unfoldable pub row0_seed : List (List ℕ) → ℕ
unfolding msb_first
row0_seed fr = msb_first 0 (columns_down (get_or fr 0 []) 12 12)

abbrev pub pack_msb_first : List ℕ → List ℕ
pack_msb_first bits = bytes_of_bits 7 bits

abbrev pub unpack_msb_first : List ℕ → List ℕ
unpack_msb_first packed = take 49 (bits_of_bytes packed)

-- `bits[i] = chip_bits[MBELIB_TO_CHIP[i]]`, and the other way.
abbrev pub gather : List ℕ → List ℕ → List ℕ
gather table chip_bits = map (λ i. get_or chip_bits i 0) table

abbrev pub scatter : List ℕ → List ℕ → List ℕ → List ℕ
scatter (i ∷ table) (b ∷ bits) chip_bits = scatter table bits (set_at chip_bits i b)
scatter _ _ chip_bits = chip_bits

unfoldable pub permute_mbelib_to_chip : List ℕ → List ℕ
unfolding bits_of_bytes bytes_of_bits
permute_mbelib_to_chip mbelib_packed =
    pack_msb_first (scatter mbelib_to_chip (unpack_msb_first mbelib_packed) (replicate 49 0))

unfoldable pub permute_chip_to_mbelib : List ℕ → List ℕ
unfolding bits_of_bytes bytes_of_bits
permute_chip_to_mbelib chip_packed =
    pack_msb_first (gather mbelib_to_chip (unpack_msb_first chip_packed))

-- Each bit with the next one of the sequence.
abbrev pub whitened : List ℕ → List Bool → List ℕ
whitened (b ∷ bits) (p ∷ pr) = bit_xor b (bit_of p) ∷ whitened bits pr
whitened _ _ = []

-- The source bits of a matrix, in the order of mbelib.
unfoldable pub source_bits : List (List ℕ) → List ℕ
unfolding row0_seed
source_bits fr =
    columns_down (get_or fr 0 []) 12 12
    ++ (whitened (columns_down (get_or fr 1 []) 11 12) (pn_sequence (row0_seed fr) 12)
        ++ (columns_down (get_or fr 2 []) 0 11 ++ columns_down (get_or fr 3 []) 0 14))

unfoldable pub channel_decode : List ℕ → List ℕ
unfolding deinterleave source_bits bytes_of_bits
channel_decode coded =
    pack_msb_first (scatter mbelib_to_chip (source_bits (deinterleave coded)) (replicate 49 0))

unfoldable pub to_source_bits : List ℕ → List ℕ
unfolding channel_decode permute_chip_to_mbelib
to_source_bits coded = permute_chip_to_mbelib (channel_decode coded)

-- `(cw >> col) & 1` for the columns of a row; `k` of them, the rest is zero.
abbrev pub codeword_bits : ℕ → ℕ → List ℕ
codeword_bits cw k = tabulate k (λ col. bit_and (cw >>> col) 1)

-- Source bits stand in a row with the first one in the highest column.
abbrev pub reversed_onto : List ℕ → List ℕ → List ℕ
reversed_onto [] row = row
reversed_onto (b ∷ bits) row = reversed_onto bits (b ∷ row)

abbrev pub reversed_bools : List Bool → List Bool → List Bool
reversed_bools [] acc = acc
reversed_bools (p ∷ pr) acc = reversed_bools pr (p ∷ acc)

unfoldable pub matrix_of_bits : List ℕ → List (List ℕ)
unfolding golay_24_12_encode golay_23_12_encode msb_first tabulate
matrix_of_bits bits =
    let row0_data = msb_first 0 (take 12 bits) in
    let cw1 = golay_23_12_encode (msb_first 0 (take 12 (drop 12 bits))) in
    codeword_bits (golay_24_12_encode row0_data) 24
    ∷ (whitened (codeword_bits cw1 23) (reversed_bools (pn_sequence row0_data 23) []) ++ (0 ∷ []))
    ∷ reversed_onto (take 11 (drop 24 bits)) (replicate 13 0)
    ∷ reversed_onto (take 14 (drop 35 bits)) (replicate 10 0)
    ∷ []

unfoldable pub channel_encode : List ℕ → List ℕ
unfolding matrix_of_bits interleave bits_of_bytes
channel_encode raw = interleave (matrix_of_bits (gather mbelib_to_chip (unpack_msb_first raw)))

unfoldable pub encode_from_ambe_d : List ℕ → List ℕ
unfolding channel_encode permute_mbelib_to_chip
encode_from_ambe_d ambe_d = channel_encode (permute_mbelib_to_chip (pack_msb_first ambe_d))
