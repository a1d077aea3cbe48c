-- ===== src/Bptc/Product.antt =====
-- dmr-wire/src/bptc.rs: the encoded bits as a word of the product code.
use asl_dmr_bridge.Base.{
  ℕ, ◌+◌, ◌*◌, ◌≡◌, refl, List, length, get_or, tabulate, tabulate-get_or, range_from, map, foldl,
  slice, replicate, take, drop, sym,
}
use mathlib.Core.Path.{subst}
use asl_dmr_bridge.Fec.{hamming_15_11_parity, hamming_13_9_parity}
use asl_dmr_bridge.Bptc.{
  data_positions, column_positions, deinterleave, interleave, bptc_encode, place, row_pass,
  col_pass,
}

unfoldable pub column : List ℕ → ℕ → List ℕ
unfolding range_from
column matrix c = map (λ pos. get_or matrix pos 0) (column_positions c)

-- The matrix holds the data bits, each of its first nine rows is a Hamming(15,11) word, and each of its
-- columns a Hamming(13,9) word.
pub record IsProductWord (bits matrix : List ℕ) : Type 0 where
  pub holds : map (λ pos. get_or matrix pos 0) data_positions ≡ bits
  pub rows :
      map (λ r. slice matrix (r * 15 + 12) 4) (range_from 0 9)
      ≡ map (λ r. hamming_15_11_parity (slice matrix (r * 15 + 1) 11)) (range_from 0 9)
  pub columns :
      map (λ c. drop 9 (column matrix c)) (range_from 0 15)
      ≡ map (λ c. hamming_13_9_parity (take 9 (column matrix c))) (range_from 0 15)

deinterleave_tabulated : (f : ℕ → ℕ) → deinterleave (interleave (tabulate 196 f)) ≡ tabulate 196 f
unfolding deinterleave interleave tabulate range_from place
deinterleave_tabulated f = refl

pub deinterleave-interleave :
    (matrix : List ℕ) → length matrix ≡ 196 → deinterleave (interleave matrix) ≡ matrix
deinterleave-interleave matrix h =
    subst (λ m. deinterleave (interleave m) ≡ m)
      (subst (λ n. tabulate n (λ i. get_or matrix i 0) ≡ matrix) h (tabulate-get_or matrix))
      (deinterleave_tabulated (λ i. get_or matrix i 0))

unfoldable pub encoded_matrix : List ℕ → List ℕ
unfolding place row_pass col_pass range_from
encoded_matrix bits =
    foldl col_pass (foldl row_pass (place data_positions bits (replicate 196 0)) (range_from 0 9))
      (range_from 0 15)

pub length-encoded_matrix : (f : ℕ → ℕ) → length (encoded_matrix (tabulate 96 f)) ≡ 196
unfolding encoded_matrix tabulate range_from place row_pass col_pass hamming_13_9_parity
    hamming_15_11_parity
length-encoded_matrix f = refl

pub encoded_matrix-holds :
    (f : ℕ → ℕ)
    → map (λ pos. get_or (encoded_matrix (tabulate 96 f)) pos 0) data_positions ≡ tabulate 96 f
unfolding encoded_matrix tabulate range_from place row_pass col_pass hamming_13_9_parity
    hamming_15_11_parity
encoded_matrix-holds f = refl

pub encoded_matrix-rows :
    (f : ℕ → ℕ)
    → map (λ r. slice (encoded_matrix (tabulate 96 f)) (r * 15 + 12) 4) (range_from 0 9)
      ≡ map
          (λ r. hamming_15_11_parity (slice (encoded_matrix (tabulate 96 f)) (r * 15 + 1) 11))
          (range_from 0 9)
unfolding encoded_matrix tabulate range_from place row_pass col_pass hamming_13_9_parity
    hamming_15_11_parity
encoded_matrix-rows f = refl

pub encoded_matrix-columns :
    (f : ℕ → ℕ)
    → map (λ c. drop 9 (column (encoded_matrix (tabulate 96 f)) c)) (range_from 0 15)
      ≡ map
          (λ c. hamming_13_9_parity (take 9 (column (encoded_matrix (tabulate 96 f)) c)))
          (range_from 0 15)
unfolding encoded_matrix tabulate range_from place row_pass col_pass hamming_13_9_parity
    hamming_15_11_parity column
encoded_matrix-columns f = refl

-- The encoding of 96 bits is, deinterleaved, a word of the product code that holds them.
pub bptc_encode-IsProductWord :
    (bits : List ℕ) → length bits ≡ 96 → IsProductWord bits (deinterleave (bptc_encode bits))
unfolding bptc_encode encoded_matrix
bptc_encode-IsProductWord bits h =
    subst (λ b. IsProductWord b (deinterleave (interleave (encoded_matrix b)))) whole
      (subst (IsProductWord (tabulate 96 (λ i. get_or bits i 0)))
        (sym (deinterleave-interleave _ (length-encoded_matrix (λ i. get_or bits i 0))))
        (record {
          holds = encoded_matrix-holds (λ i. get_or bits i 0);
          rows = encoded_matrix-rows (λ i. get_or bits i 0);
          columns = encoded_matrix-columns (λ i. get_or bits i 0);
        }))
  where
    whole : tabulate 96 (λ i. get_or bits i 0) ≡ bits
    whole = subst (λ n. tabulate n (λ i. get_or bits i 0) ≡ bits) h (tabulate-get_or bits)
