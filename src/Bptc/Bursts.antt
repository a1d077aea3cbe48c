-- ===== src/Bptc/Bursts.antt =====
-- dmr-wire/src/bptc.rs: the bits of a burst packed into bytes by build_data_burst, and unpacked again.
use asl_dmr_bridge.Base.{
  ℕ, zero, suc, ◌+◌, ◌*◌, ◌≤◌, ◌<◌, ◌≡◌, refl, arith, List, [], ◌∷◌, ◌++◌, map, Bool, true, ◌&&◌,
  ltb, ◌==◌, inl, inr, IsByte, ap, ap₂, sym, ◌∙◌, length, length-append, length-take_le,
  length-drop, get_or, take, drop, slice, range_from, All, All-append, All-take, All-drop, IsBit,
  IsBits-All, all_bits, all_bits_sound, list_eq, list_eq→eq, bits_of_byte, bits_of_bytes, tabulate,
  take-split, take-drop, drop-drop, read-slice, each_below, each_below_sound, take_all, take-append,
  drop-append,
}
use asl_dmr_bridge.Fec.{golay_20_8_parity}
use asl_dmr_bridge.Bptc.{
  byte_of_flags, build_data_burst, extract_burst_interleaved, bptc_encode, encode_slot_type,
}

-- A string of bits, checked by evaluation.
abbrev all_are_bits : List ℕ → Bool
all_are_bits [] = true
all_are_bits (b ∷ bits) = ltb b 2 && all_are_bits bits

all_are_bits_sound : (bits : List ℕ) → all_are_bits bits ≡ true → All IsBit bits
all_are_bits_sound [] h = tt
all_are_bits_sound (b ∷ bits) h = (is_bit b (ground arith), all_are_bits_sound bits (ground arith))
  where
    is_bit : (b : ℕ) → b < 2 → IsBit b
    is_bit zero h = inl refl
    is_bit (suc zero) h = inr refl
    is_bit (suc (suc b)) h = absurd (omega (arith, h))

byte_table : all_bits 8 (λ bits. list_eq (bits_of_byte (byte_of_flags bits 0)) bits) ≡ true
unfolding all_bits byte_of_flags range_from
byte_table = refl

byte_read :
    (bits : List ℕ) (b : ℕ)
    → byte_of_flags bits b ≡ byte_of_flags (map (λ k. get_or bits (b + k) 0) (range_from 0 8)) 0
unfolding byte_of_flags range_from
byte_read bits b = refl

-- Eight bits packed into a byte.
bits_of_byte-byte_of_flags :
    (bits : List ℕ) (b : ℕ)
    → All IsBit bits
    → b + 8 ≤ length bits
    → bits_of_byte (byte_of_flags bits b) ≡ slice bits b 8
bits_of_byte-byte_of_flags bits b h k =
    ap bits_of_byte (byte_read bits b ∙ ap (λ l. byte_of_flags l 0) (read-slice bits b 8 k))
    ∙ list_eq→eq _ (slice bits b 8) (
        all_bits_sound 8 (λ bits. list_eq (bits_of_byte (byte_of_flags bits 0)) bits)
          (slice bits b 8) byte_table
          (IsBits-All 8 (slice bits b 8) (All-take IsBit 8 (drop b bits) (All-drop IsBit b bits h))
            (length-take_le 8 (drop b bits) (omega (arith, k, length-drop b bits)))))

bits_of_bytes-packed :
    (bits : List ℕ) (i n : ℕ)
    → All IsBit bits
    → (i + n) * 8 ≤ length bits
    → bits_of_bytes (map (λ i. byte_of_flags bits (i * 8)) (range_from i n))
      ≡ slice bits (i * 8) (n * 8)
unfolding bits_of_bytes range_from
bits_of_bytes-packed bits i zero h k = refl
bits_of_bytes-packed bits i (suc n) h k =
    ap₂ ◌++◌ (bits_of_byte-byte_of_flags bits (i * 8) h (omega (arith, k))) (
      bits_of_bytes-packed bits (i + 1) n h (omega (arith, k))
      ∙ ap (take (n * 8)) (sym (drop-drop bits 8 (i * 8) ((i + 1) * 8) (omega arith))))
    ∙ sym (take-split (drop (i * 8) bits) (suc n * 8) 8 (n * 8) (omega arith))

skip : (m n : ℕ) (xs ys : List ℕ) → m ≡ length xs + n → drop m (xs ++ ys) ≡ drop n ys
skip m n xs ys e = drop-append m xs ys (omega (arith, e)) ∙ ap (λ k. drop k ys) (omega (arith, e))

take_front : (n : ℕ) (xs ys : List ℕ) → n ≤ length xs → take n (xs ++ ys) ≡ take n xs
take_front zero xs ys h = refl
take_front (suc n) [] ys h = absurd (omega (arith, h))
take_front (suc n) (x ∷ xs) ys h = ap (◌∷◌ x) (take_front n xs ys (omega (arith, h)))

-- Where the two halves of the 196 bits stand, before and behind slot type and sync.
halves :
    (first type_1 sync type_2 second : List ℕ)
    → length first ≡ 98
    → length (first ++ type_1 ++ sync ++ type_2) ≡ 166
    → length second ≡ 98
    → take 98 (first ++ type_1 ++ sync ++ type_2 ++ second)
        ++ slice (first ++ type_1 ++ sync ++ type_2 ++ second) 166 98
      ≡ first ++ second
halves first type_1 sync type_2 second a b c =
    ap₂ ◌++◌
      (take_front 98 (first ++ type_1 ++ sync ++ type_2) second (omega (arith, b))
        ∙ take_front 98 (first ++ type_1 ++ sync) type_2
            (omega (arith, a, length-append (first ++ type_1) sync, length-append first type_1))
        ∙ take_front 98 (first ++ type_1) sync (omega (arith, a, length-append first type_1))
        ∙ take-append 98 first type_1 a)
      (ap (take 98) (skip 166 0 (first ++ type_1 ++ sync ++ type_2) second (omega (arith, b)))
        ∙ take_all 98 second c)

-- The slot type is made of bits, for all color codes and data types.
slot_type_bits_table :
    each_below 16 (λ dt.
      each_below 16
        (λ cc. all_are_bits (encode_slot_type dt cc) && (length (encode_slot_type dt cc) == 20)))
    ≡ true
unfolding each_below encode_slot_type golay_20_8_parity
slot_type_bits_table = refl

bits_table : each_below 256 (λ b. all_are_bits (bits_of_byte b)) ≡ true
unfolding each_below
bits_table = refl

pub bits_of_bytes-bits : (bytes : List ℕ) → All IsByte bytes → All IsBit (bits_of_bytes bytes)
unfolding bits_of_bytes
bits_of_bytes-bits [] h = tt
bits_of_bytes-bits (b ∷ bytes) (h, hs) =
    All-append IsBit (bits_of_byte b) (bits_of_bytes bytes)
      (all_are_bits_sound (bits_of_byte b)
        (each_below_sound 256 (λ b. all_are_bits (bits_of_byte b)) b bits_table h))
      (bits_of_bytes-bits bytes hs)

pub length-bits_of_bytes : (bytes : List ℕ) → length (bits_of_bytes bytes) ≡ 8 * length bytes
unfolding bits_of_bytes
length-bits_of_bytes [] = refl
length-bits_of_bytes (b ∷ bytes) = omega (arith, length-bits_of_bytes bytes)

-- A receiver finds the encoded bits in a burst that was built.
module _ (lc : List ℕ) (data_type color_code : ℕ) (sync : List ℕ) (dt : data_type < 16)
    (cc : color_code < 16) (sync_bytes : All IsByte sync) (sync_size : length sync ≡ 6)
    (encoded_bits : All IsBit (bptc_encode lc)) (encoded_size : length (bptc_encode lc) ≡ 196) where
  abbrev slot_type : List ℕ
  slot_type = encode_slot_type data_type color_code

  slot_type_checked : (all_are_bits slot_type && (length slot_type == 20)) ≡ true
  slot_type_checked =
      each_below_sound 16
        (λ cc.
          all_are_bits (encode_slot_type data_type cc)
          && (length (encode_slot_type data_type cc) == 20))
        color_code
        (each_below_sound 16
          (λ dt. each_below 16 (λ cc.
            all_are_bits (encode_slot_type dt cc) && (length (encode_slot_type dt cc) == 20)))
          data_type slot_type_bits_table dt)
        cc

  slot_type_bits : All IsBit slot_type
  slot_type_bits = all_are_bits_sound slot_type (ground (arith, slot_type_checked))

  length-slot_type : length slot_type ≡ 20
  length-slot_type = ground (arith, slot_type_checked)

  abbrev burst_bits : List ℕ
  burst_bits =
      take 98 (bptc_encode lc)
      ++ take 10 slot_type
      ++ bits_of_bytes sync
      ++ drop 10 slot_type
      ++ drop 98 (bptc_encode lc)

  burst_bits-bits : All IsBit burst_bits
  burst_bits-bits =
      All-append IsBit _ (drop 98 (bptc_encode lc))
        (All-append IsBit _ (drop 10 slot_type)
          (All-append IsBit _ (bits_of_bytes sync)
            (All-append IsBit (take 98 (bptc_encode lc)) (take 10 slot_type)
              (All-take IsBit 98 (bptc_encode lc) encoded_bits)
              (All-take IsBit 10 slot_type slot_type_bits))
            (bits_of_bytes-bits sync sync_bytes))
          (All-drop IsBit 10 slot_type slot_type_bits))
        (All-drop IsBit 98 (bptc_encode lc) encoded_bits)

  size_1 : length (take 98 (bptc_encode lc)) ≡ 98
  size_1 = length-take_le 98 (bptc_encode lc) (omega (arith, encoded_size))

  size_2 : length (take 10 slot_type) ≡ 10
  size_2 = length-take_le 10 slot_type (omega (arith, length-slot_type))

  size_3 : length (bits_of_bytes sync) ≡ 48
  size_3 = omega (arith, length-bits_of_bytes sync, sync_size)

  size_4 : length (drop 10 slot_type) ≡ 10
  size_4 = omega (arith, length-drop 10 slot_type, length-slot_type)

  size_5 : length (drop 98 (bptc_encode lc)) ≡ 98
  size_5 = omega (arith, length-drop 98 (bptc_encode lc), encoded_size)

  length-front :
      length
        (take 98 (bptc_encode lc) ++ take 10 slot_type ++ bits_of_bytes sync ++ drop 10 slot_type)
      ≡ 166
  length-front = omega (
    arith,
    size_1,
    size_2,
    size_3,
    size_4,
    length-append (take 98 (bptc_encode lc)) (take 10 slot_type),
    length-append (take 98 (bptc_encode lc) ++ take 10 slot_type) (bits_of_bytes sync),
    length-append (take 98 (bptc_encode lc) ++ take 10 slot_type ++ bits_of_bytes sync)
        (drop 10 slot_type),
  )

  length-burst_bits : length burst_bits ≡ 264
  length-burst_bits = omega (
    arith,
    length-front,
    size_5,
    length-append
        (take 98 (bptc_encode lc) ++ take 10 slot_type ++ bits_of_bytes sync ++ drop 10 slot_type)
        (drop 98 (bptc_encode lc)),
  )

  pub extract_burst_interleaved-build_data_burst :
      extract_burst_interleaved (build_data_burst lc data_type color_code sync) ≡ bptc_encode lc
  unfolding extract_burst_interleaved build_data_burst tabulate
  extract_burst_interleaved-build_data_burst =
      ap (λ b. take 98 b ++ slice b 166 98)
        (bits_of_bytes-packed burst_bits 0 33 burst_bits-bits (omega (arith, length-burst_bits))
          ∙ take_all 264 burst_bits length-burst_bits)
      ∙ halves (take 98 (bptc_encode lc)) (take 10 slot_type) (bits_of_bytes sync)
          (drop 10 slot_type) (drop 98 (bptc_encode lc)) size_1 length-front size_5
      ∙ take-drop 98 (bptc_encode lc)
