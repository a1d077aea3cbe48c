-- ===== src/Fec/Hamming.antt =====
-- dmr-wire/src/fec.rs: the Hamming codes correct every single flipped bit.
use asl_dmr_bridge.Base.{
  ℕ, ◌≡◌, ◌<◌, refl, List, ◌++◌, Bool, true, false, ◌&&◌, set, each_below, each_below_sound,
  all_bits, all_bits_sound, IsBits, arith, list_eq, list_eq→eq, if◌then◌else◌, ap,
}
use asl_dmr_bridge.Fec.{
  bit, ◌⊕◌, Corrected, fixed, fail, correct_by, syndrome_from, hamming_15_11_parity,
  hamming_13_9_parity, hamming_15_11_correct, hamming_13_9_correct,
}

-- A word with one bit flipped.
abbrev pub with_error : List ℕ → ℕ → List ℕ
with_error cw at = set cw at (bit cw at ⊕ 1)

abbrev restores : List ℕ → Bool → Corrected → Bool
restores cw flipped fail = false
restores cw true (fixed w b) = list_eq w cw && b
restores cw false (fixed w b) = list_eq w cw && (if b then false else true)

restores_sound :
    (cw : List ℕ) (flipped : Bool) (r : Corrected)
    → restores cw flipped r ≡ true
    → r ≡ fixed cw flipped
restores_sound cw flipped fail e = ground arith
restores_sound cw true (fixed w true) e = ap (λ x. fixed x true) (list_eq→eq w cw (ground arith))
restores_sound cw true (fixed w false) e = ground arith
restores_sound cw false (fixed w true) e = ground arith
restores_sound cw false (fixed w false) e = ap (λ x. fixed x false) (list_eq→eq w cw (ground arith))

-- A code with this parity and correction restores every code word from no error and from one.
abbrev pub corrects : ℕ → (List ℕ → List ℕ) → (List ℕ → Corrected) → List ℕ → Bool
corrects len parity correct info =
    let cw = info ++ parity info in
    restores cw false (correct cw)
    && each_below len (λ at. restores cw true (correct (with_error cw at)))

module _ (len : ℕ) (parity : List ℕ → List ℕ) (correct : List ℕ → Corrected) (info : List ℕ) where
  single_of :
      (at : ℕ)
      → at < len
      → corrects len parity correct info ≡ true
      → correct (with_error (info ++ parity info) at) ≡ fixed (info ++ parity info) true
  single_of at h e = restores_sound _ true _ (
      each_below_sound len
        (λ i. restores (info ++ parity info) true (correct (with_error (info ++ parity info) i))) at
        (ground arith) h)

  word_of :
      corrects len parity correct info ≡ true
      → correct (info ++ parity info) ≡ fixed (info ++ parity info) false
  word_of e = restores_sound _ false _ (ground arith)

table_13_9 : all_bits 9 (corrects 13 hamming_13_9_parity hamming_13_9_correct) ≡ true
unfolding hamming_13_9_correct each_below all_bits correct_by syndrome_from hamming_13_9_parity
table_13_9 = refl

table_15_11 : all_bits 11 (corrects 15 hamming_15_11_parity hamming_15_11_correct) ≡ true
unfolding hamming_15_11_correct each_below all_bits correct_by syndrome_from hamming_15_11_parity
table_15_11 = refl

-- Hamming(15,11,3): a code word with any one of its 15 bits flipped is corrected to the code word, and
-- the correction is reported.
pub hamming_15_11_correct-single :
    (info : List ℕ) (at : ℕ)
    → IsBits 11 info
    → at < 15
    → hamming_15_11_correct (with_error (info ++ hamming_15_11_parity info) at)
      ≡ fixed (info ++ hamming_15_11_parity info) true
hamming_15_11_correct-single info at b h =
    single_of 15 hamming_15_11_parity hamming_15_11_correct info at h (
      all_bits_sound 11 (corrects 15 hamming_15_11_parity hamming_15_11_correct) info table_15_11 b)

-- Hamming(13,9,3): a code word with any one of its 13 bits flipped is corrected to the code word, and
-- the correction is reported.
pub hamming_13_9_correct-single :
    (info : List ℕ) (at : ℕ)
    → IsBits 9 info
    → at < 13
    → hamming_13_9_correct (with_error (info ++ hamming_13_9_parity info) at)
      ≡ fixed (info ++ hamming_13_9_parity info) true
hamming_13_9_correct-single info at b h =
    single_of 13 hamming_13_9_parity hamming_13_9_correct info at h
      (all_bits_sound 9 (corrects 13 hamming_13_9_parity hamming_13_9_correct) info table_13_9 b)

pub hamming_15_11_correct-word :
    (info : List ℕ)
    → IsBits 11 info
    → hamming_15_11_correct (info ++ hamming_15_11_parity info)
      ≡ fixed (info ++ hamming_15_11_parity info) false
hamming_15_11_correct-word info b =
    word_of 15 hamming_15_11_parity hamming_15_11_correct info (
      all_bits_sound 11 (corrects 15 hamming_15_11_parity hamming_15_11_correct) info table_15_11 b)

pub hamming_13_9_correct-word :
    (info : List ℕ)
    → IsBits 9 info
    → hamming_13_9_correct (info ++ hamming_13_9_parity info)
      ≡ fixed (info ++ hamming_13_9_parity info) false
hamming_13_9_correct-word info b =
    word_of 13 hamming_13_9_parity hamming_13_9_correct info
      (all_bits_sound 9 (corrects 13 hamming_13_9_parity hamming_13_9_correct) info table_13_9 b)
