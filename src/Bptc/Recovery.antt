-- ===== src/Bptc/Recovery.antt =====
-- dmr-wire/src/bptc.rs: bptc_decode_correct gives the encoded bits back, also when one of the 196 bits
-- arrived wrong.
use asl_dmr_bridge.Base.{
  ℕ, zero, suc, ◌+◌, ◌*◌, ◌%◌, ◌<◌, ◌≡◌, refl, arith, List, ◌++◌, map, true, false, ap, ap₂, sym,
  ◌∙◌, length, get_or, range_from, none, some, take, drop, slice, All, IsBit, take-split, drop-drop,
  take-drop, map-range_from, tabulate, tabulate-get_or, if◌then◌else◌, ◌==◌, Bool-cases, ltb,
}
use mathlib.Core.Path.{subst}
use mathlib.Core.Logic.{◌⊎◌, inl, inr}
use asl_dmr_bridge.Fec.{hamming_15_11_parity, hamming_13_9_parity}
use asl_dmr_bridge.Fec.Hamming.{with_error}
use asl_dmr_bridge.Bptc.{data_positions, deinterleave, bptc_encode, bptc_decode_correct}
use asl_dmr_bridge.Bptc.Product.{
  encoded_matrix, column, deinterleave-interleave, length-encoded_matrix, IsProductWord,
  bptc_encode-IsProductWord,
}
use asl_dmr_bridge.Bptc.Passes.{read, avoids, read-set_other}
use asl_dmr_bridge.Bptc.Correction.{
  IsWord, passes, passes-word, passes-first, passes-row, passes-col,
}
use asl_dmr_bridge.Bptc.Entries.{encoded_matrix-bits}
use asl_dmr_bridge.Bptc.Interleaving.{deinterleave-with_error}

-- What decoding returns after the passes.
decode_passed :
    (received matrix : List ℕ) (count : ℕ)
    → passes (deinterleave received) ≡ some (matrix, count)
    → bptc_decode_correct received ≡ some (read matrix data_positions, count)
unfolding bptc_decode_correct
decode_passed received matrix count e =
    ap
      (λ p. elim p [
        | none ↦ none
        | some (m, n) ↦ some (map (λ pos. get_or m pos 0) data_positions, n)
      ])
      e

first_of : (at : ℕ) → at < 196 → ((at * 13) % 196 == 0) ≡ (at == 0)
first_of at h = ground arith

module _ (bits : List ℕ) (size : length bits ≡ 96) (all : All IsBit bits) where
  encoded-size : length (encoded_matrix bits) ≡ 196
  encoded-size =
      subst (λ b. length (encoded_matrix b) ≡ 196)
        (subst (λ n. tabulate n (λ i. get_or bits i 0) ≡ bits) size (tabulate-get_or bits))
        (length-encoded_matrix (λ i. get_or bits i 0))

  encoded-product : IsProductWord bits (encoded_matrix bits)
  unfolding bptc_encode encoded_matrix
  encoded-product =
      subst (IsProductWord bits) (deinterleave-interleave (encoded_matrix bits) encoded-size)
        (bptc_encode-IsProductWord bits size)

  encoded-IsWord : IsWord (encoded_matrix bits)
  unfolding column
  encoded-IsWord = record {
    size = encoded-size;
    bits = encoded_matrix-bits bits all;
    row = λ r h.
        take-split (drop (r * 15 + 1) m) 15 11 4 refl
        ∙ ap (◌++◌ (slice m (r * 15 + 1) 11)) (
            ap (take 4) (drop-drop m 11 (r * 15 + 1) (r * 15 + 12) (omega arith))
            ∙ map-range_from (λ r. slice m (r * 15 + 12) 4)
                (λ r. hamming_15_11_parity (slice m (r * 15 + 1) 11)) 0 9 r encoded-product.rows
                (omega arith) (omega (arith, h)));
    col = λ c h.
        sym (take-drop 9 (column m c))
        ∙ ap (◌++◌ (take 9 (column m c))) (
            map-range_from (λ c. drop 9 (column m c))
              (λ c. hamming_13_9_parity (take 9 (column m c))) 0 15 c encoded-product.columns
              (omega arith) (omega (arith, h)));
  }
    where
      m : List ℕ
      m = encoded_matrix bits

  -- 96 bits that arrive as they were sent are decoded, with no bit flipped.
  pub bptc_decode_correct-bptc_encode : bptc_decode_correct (bptc_encode bits) ≡ some (bits, 0)
  unfolding bptc_encode encoded_matrix
  bptc_decode_correct-bptc_encode =
      decode_passed (bptc_encode bits) (encoded_matrix bits) 0 (
        ap passes (deinterleave-interleave (encoded_matrix bits) encoded-size)
        ∙ passes-word (encoded_matrix bits) encoded-IsWord)
      ∙ ap (λ b. some (b, 0)) encoded-product.holds

  first_apart : avoids data_positions 0 ≡ true
  unfolding range_from
  first_apart = refl

  decode_error :
      (pos : ℕ)
      → pos < 196
      → (matrix : List ℕ) × ((passes (with_error (encoded_matrix bits) pos)
            ≡ some (matrix, if pos == 0 then 0 else 1))
          × (read matrix data_positions ≡ bits))
  decode_error zero h = (
    with_error (encoded_matrix bits) 0,
    (
      passes-first (encoded_matrix bits) encoded-IsWord,
      read-set_other data_positions (encoded_matrix bits) 0 _ first_apart ∙ encoded-product.holds,
    ),
  )
  decode_error (suc pos) h = (
    encoded_matrix bits,
    (
      one_pass (Bool-cases (ltb (suc pos) 136))
          ∙ ap (λ b. some (encoded_matrix bits, if b then 0 else 1)) (sym not_first),
      encoded-product.holds,
    ),
  )
    where
      not_first : (suc pos == 0) ≡ false
      not_first = ground arith

      one_pass :
          (ltb (suc pos) 136 ≡ true) ⊎ (ltb (suc pos) 136 ≡ false)
          → passes (with_error (encoded_matrix bits) (suc pos)) ≡ some (encoded_matrix bits, 1)
      one_pass (inl low) =
          passes-row (encoded_matrix bits) encoded-IsWord (suc pos) (omega arith) (ground arith)
      one_pass (inr high) =
          passes-col (encoded_matrix bits) encoded-IsWord (suc pos) (ground arith) h

  -- Of the 196 bits of an encoded word, any one may arrive wrong: the 96 data bits are decoded, and one
  -- flipped bit is reported, or none if the bit was the first, which no code covers.
  pub bptc_decode_correct-single :
      (at : ℕ)
      → at < 196
      → bptc_decode_correct (with_error (bptc_encode bits) at)
        ≡ some (bits, if at == 0 then 0 else 1)
  unfolding bptc_encode encoded_matrix
  bptc_decode_correct-single at h =
      let pos = (at * 13) % 196 in
      let (matrix, (passed, held)) = decode_error pos (omega arith) in
      decode_passed (with_error (bptc_encode bits) at) matrix (if pos == 0 then 0 else 1)
        (ap passes (deinterleave-with_error (encoded_matrix bits) at encoded-size h) ∙ passed)
      ∙ ap₂ (λ b first. some (b, if first then 0 else 1)) held (first_of at h)
