-- ===== src/Ambe/Channel/Recovery.antt =====
-- ambe/src/voice_channel.rs: decoding gives back what was encoded.
use asl_dmr_bridge.Ambe.Channel.Codewords.{
  whitened_twice, whitened-IsBit, get_or-IsBit, All-map, range-IsBits, reversed_onto-IsBit,
  codeword-IsBit, bits_of_bytes-IsBit, golay_24_table, golay_23_table,
}
use asl_dmr_bridge.Ambe.Channel.Interleaving.{matrix, deinterleave-interleave, padded-IsBit}
use asl_dmr_bridge.Base.{
  ℕ, get_or, ◌≡◌, refl, List, [], ◌∷◌, ◌++◌, map, true, ◌>>>◌, bit_and, list_eq, list_eq→eq,
  all_bits_sound, IsBit, each_below, each_below_sound, IsByte, All, All-take, bits_of_byte,
  bits_of_bytes, byte_of_bits, bytes_of_bits, replicate, tabulate, range_from, length, ap, sym, ◌∙◌,
}
use asl_dmr_bridge.Ambe.Channel.{
  golay_23_12_encode, golay_24_12_encode, msb_first, codeword_bits, columns_down, whitened,
  deinterleave, interleave, reversed_bools, pn_sequence, pn_from, reversed_onto, matrix_of_bits,
  source_bits, row0_seed, scatter, gather, mbelib_to_chip, pack_msb_first, unpack_msb_first,
  channel_encode, channel_decode,
}

-- What is read of a matrix.
source_bits-rows :
    (x y z w : List ℕ)
    → source_bits (matrix x y z w)
      ≡ columns_down x 12 12
        ++ (whitened (columns_down y 11 12) (pn_sequence (msb_first 0 (columns_down x 12 12)) 12)
            ++ (columns_down z 0 11 ++ columns_down w 0 14))
unfolding source_bits row0_seed tabulate range_from
source_bits-rows x y z w = refl

whitened-columns :
    (f : ℕ → ℕ) (seed : ℕ)
    → columns_down (whitened (tabulate 23 f) (reversed_bools (pn_sequence seed 23) [])) 11 12
      ≡ whitened (columns_down (tabulate 23 f) 11 12) (pn_sequence seed 12)
unfolding tabulate range_from pn_sequence pn_from
whitened-columns f seed = refl

twelve : (f : ℕ → ℕ) (i seed : ℕ) → length (map f (range_from i 12)) ≡ length (pn_sequence seed 12)
unfolding range_from pn_sequence pn_from
twelve f i seed = refl

-- The 49 bits that stand in a list.
abbrev bits_49 : List ℕ → List ℕ
bits_49 s = tabulate 49 (λ i. get_or s i 0)

module _ (s : List ℕ) (all_bit : All IsBit s) where
  abbrev first_12 : List ℕ
  first_12 = map (λ i. get_or s i 0) (range_from 0 12)

  abbrev next_12 : List ℕ
  next_12 = map (λ i. get_or s i 0) (range_from 12 12)

  abbrev row_0 : List ℕ
  row_0 = codeword_bits (golay_24_12_encode (msb_first 0 first_12)) 24

  abbrev row_1 : List ℕ
  row_1 =
      whitened (codeword_bits (golay_23_12_encode (msb_first 0 next_12)) 23)
        (reversed_bools (pn_sequence (msb_first 0 first_12) 23) [])

  abbrev row_2 : List ℕ
  row_2 = reversed_onto (map (λ i. get_or s i 0) (range_from 24 11)) []

  abbrev row_3 : List ℕ
  row_3 = reversed_onto (map (λ i. get_or s i 0) (range_from 35 14)) []

  as_matrix : matrix_of_bits (bits_49 s) ≡ matrix row_0 row_1 row_2 row_3
  unfolding matrix_of_bits tabulate range_from pn_sequence
  as_matrix = refl

  IsBit-at : (k : ℕ) → IsBit (get_or s k 0)
  IsBit-at k = get_or-IsBit s k all_bit

  first_back : columns_down row_0 12 12 ≡ first_12
  first_back = list_eq→eq (columns_down row_0 12 12) first_12 (
      all_bits_sound 12
        (λ bits.
          list_eq (columns_down (codeword_bits (golay_24_12_encode (msb_first 0 bits)) 24) 12 12)
            bits)
        first_12 golay_24_table (range-IsBits (λ i. get_or s i 0) 0 12 IsBit-at))

  next_back :
      columns_down (codeword_bits (golay_23_12_encode (msb_first 0 next_12)) 23) 11 12 ≡ next_12
  next_back = list_eq→eq _ next_12 (
      all_bits_sound 12
        (λ bits.
          list_eq (columns_down (codeword_bits (golay_23_12_encode (msb_first 0 bits)) 23) 11 12)
            bits)
        next_12 golay_23_table (range-IsBits (λ i. get_or s i 0) 12 12 IsBit-at))

  row_1-back : whitened (columns_down row_1 11 12) (pn_sequence (msb_first 0 first_12) 12) ≡ next_12
  row_1-back =
      ap (λ bits. whitened bits (pn_sequence (msb_first 0 first_12) 12))
        (whitened-columns (λ col. bit_and (golay_23_12_encode (msb_first 0 next_12) >>> col) 1)
            (msb_first 0 first_12)
          ∙ ap (λ bits. whitened bits (pn_sequence (msb_first 0 first_12) 12)) next_back)
      ∙ whitened_twice next_12 (pn_sequence (msb_first 0 first_12) 12)
          (twelve (λ i. get_or s i 0) 12 (msb_first 0 first_12))
          (All-map (λ i. get_or s i 0) (range_from 12 12) IsBit-at)

  lower_rows :
      first_12 ++ (next_12 ++ (columns_down row_2 0 11 ++ columns_down row_3 0 14)) ≡ bits_49 s
  unfolding tabulate range_from
  lower_rows = refl

  source_bits-matrix : source_bits (matrix row_0 row_1 row_2 row_3) ≡ bits_49 s
  source_bits-matrix =
      source_bits-rows row_0 row_1 row_2 row_3
      ∙ ap
          (λ front.
            front
            ++ (whitened (columns_down row_1 11 12) (pn_sequence (msb_first 0 front) 12)
                ++ (columns_down row_2 0 11 ++ columns_down row_3 0 14)))
          first_back
      ∙ ap (λ middle. first_12 ++ (middle ++ (columns_down row_2 0 11 ++ columns_down row_3 0 14)))
          row_1-back
      ∙ lower_rows

  matrix-IsBit : All (All IsBit) (matrix row_0 row_1 row_2 row_3)
  unfolding tabulate
  matrix-IsBit = (
    All-map (λ i. get_or row_0 i 0) (range_from 0 24)
        (λ i. get_or-IsBit row_0 i (codeword-IsBit (golay_24_12_encode (msb_first 0 first_12)) 24)),
    (
      padded-IsBit row_1 23 1 (
          whitened-IsBit (codeword_bits (golay_23_12_encode (msb_first 0 next_12)) 23)
            (reversed_bools (pn_sequence (msb_first 0 first_12) 23) [])
            (codeword-IsBit (golay_23_12_encode (msb_first 0 next_12)) 23)),
      (
        padded-IsBit row_2 11 13 (
            reversed_onto-IsBit (map (λ i. get_or s i 0) (range_from 24 11)) []
              (All-map (λ i. get_or s i 0) (range_from 24 11) IsBit-at) tt),
        (
          padded-IsBit row_3 14 10 (
              reversed_onto-IsBit (map (λ i. get_or s i 0) (range_from 35 14)) []
                (All-map (λ i. get_or s i 0) (range_from 35 14) IsBit-at) tt),
          tt,
        ),
      ),
    ),
  )

  -- The matrix is read back, and the source bits out of it.
  decoded_bits : source_bits (deinterleave (interleave (matrix_of_bits (bits_49 s)))) ≡ bits_49 s
  decoded_bits =
      ap (λ fr. source_bits (deinterleave (interleave fr))) as_matrix
      ∙ ap source_bits (deinterleave-interleave row_0 row_1 row_2 row_3 matrix-IsBit)
      ∙ source_bits-matrix

scatter-gather :
    (c : List ℕ)
    → scatter mbelib_to_chip (gather mbelib_to_chip (bits_49 c)) (replicate 49 0) ≡ bits_49 c
unfolding tabulate range_from
scatter-gather c = refl

gathered : (c : List ℕ) → bits_49 (gather mbelib_to_chip c) ≡ gather mbelib_to_chip c
unfolding tabulate range_from
gathered c = refl

gathered_49 : (c : List ℕ) → gather mbelib_to_chip (bits_49 c) ≡ gather mbelib_to_chip c
unfolding tabulate range_from
gathered_49 c = refl

whole_byte_table : each_below 256 (λ b. list_eq (bytes_of_bits 1 (bits_of_byte b)) (b ∷ [])) ≡ true
unfolding each_below bytes_of_bits tabulate range_from byte_of_bits
whole_byte_table = refl

last_byte_table :
    each_below 256 (λ b. list_eq (bytes_of_bits 1 (bit_and (b >>> 7) 1 ∷ [])) (bit_and b 0x80 ∷ []))
    ≡ true
unfolding each_below bytes_of_bits tabulate range_from byte_of_bits
last_byte_table = refl

module _ (b0 b1 b2 b3 b4 b5 b6 : ℕ) where
  abbrev raw : List ℕ
  raw = b0 ∷ b1 ∷ b2 ∷ b3 ∷ b4 ∷ b5 ∷ b6 ∷ []

  abbrev masked : List ℕ
  masked = b0 ∷ b1 ∷ b2 ∷ b3 ∷ b4 ∷ b5 ∷ bit_and b6 0x80 ∷ []

  chip-IsBit : All IsBit (gather mbelib_to_chip (unpack_msb_first raw))
  chip-IsBit =
      All-map (λ i. get_or (unpack_msb_first raw) i 0) mbelib_to_chip
        (λ i.
          get_or-IsBit (unpack_msb_first raw) i
            (All-take IsBit 49 (bits_of_bytes raw) (bits_of_bytes-IsBit raw)))

  unpacked_49 : bits_49 (unpack_msb_first raw) ≡ unpack_msb_first raw
  unfolding tabulate range_from bits_of_bytes
  unpacked_49 = refl

  pack-unpack : All IsByte raw → pack_msb_first (unpack_msb_first raw) ≡ masked
  unfolding bytes_of_bits bits_of_bytes tabulate range_from byte_of_bits
  pack-unpack (h0, (h1, (h2, (h3, (h4, (h5, (h6, u))))))) = λ i.
      back b0 h0 i
      ∷ back b1 h1 i
      ∷ back b2 h2 i
      ∷ back b3 h3 i
      ∷ back b4 h4 i
      ∷ back b5 h5 i
      ∷ last_back b6 h6 i
      ∷ []
    where
      back : (b : ℕ) → IsByte b → byte_of_bits (bits_of_byte b) 0 ≡ b
      back b h =
          ap (λ bs. get_or bs 0 0)
            (list_eq→eq (bytes_of_bits 1 (bits_of_byte b)) (b ∷ []) (
              each_below_sound 256 (λ c. list_eq (bytes_of_bits 1 (bits_of_byte c)) (c ∷ [])) b
                whole_byte_table h))

      last_back : (b : ℕ) → IsByte b → byte_of_bits (bit_and (b >>> 7) 1 ∷ []) 0 ≡ bit_and b 0x80
      last_back b h =
          ap (λ bs. get_or bs 0 0)
            (list_eq→eq (bytes_of_bits 1 (bit_and (b >>> 7) 1 ∷ [])) (bit_and b 0x80 ∷ []) (
              each_below_sound 256
                (λ c. list_eq (bytes_of_bits 1 (bit_and (c >>> 7) 1 ∷ [])) (bit_and c 0x80 ∷ [])) b
                last_byte_table h))

  -- Whatever the 49 bits of a frame are, which seven bytes carry with seven unused bits at the end, the
  -- decoder gives them back from the nine bytes that the encoder makes of them, with the unused bits zero.
  pub channel_decode-channel_encode : All IsByte raw → channel_decode (channel_encode raw) ≡ masked
  unfolding channel_decode channel_encode
  channel_decode-channel_encode bytes =
      ap
        (λ s. pack_msb_first (
          scatter mbelib_to_chip (source_bits (deinterleave (interleave (matrix_of_bits s))))
            (replicate 49 0)))
        (sym (gathered (unpack_msb_first raw)))
      ∙ ap (λ s. pack_msb_first (scatter mbelib_to_chip s (replicate 49 0)))
          (decoded_bits (gather mbelib_to_chip (unpack_msb_first raw)) chip-IsBit
            ∙ gathered (unpack_msb_first raw)
            ∙ sym (gathered_49 (unpack_msb_first raw)))
      ∙ ap pack_msb_first (scatter-gather (unpack_msb_first raw) ∙ unpacked_49)
      ∙ pack-unpack bytes
