-- ===== src/Fec.antt =====
-- dmr-wire/src/fec.rs: Hamming, Golay and QR codes. A code word is a list with one number per bit.
pub mod Tables
pub mod Quadratic
pub mod Hamming
use asl_dmr_bridge.Base.{
  ℕ, ◌+◌, ◌-◌, ◌*◌, ◌^◌, ◌≡◌, refl, List, [], ◌∷◌, ◌++◌, Bool, true, false, Option, none, some,
  ◌==◌, if◌then◌else◌, bit_and, bit_or, bit_xor, get_or, set, take, slice, ◌<<<◌, range_from, foldl,
  list_eq,
}
use Tables.{golay_2087_table, qr_1676_table}

infixl 60 ◌⊕◌
abbrev pub ◌⊕◌ : ℕ → ℕ → ℕ
a ⊕ b = bit_xor a b

-- `d[i]` of an array that is long enough.
abbrev pub bit : List ℕ → ℕ → ℕ
bit d i = get_or d i 0

unfoldable pub golay_20_8_parity : ℕ → ℕ
unfolding golay_2087_table
golay_20_8_parity info = get_or golay_2087_table info 0

unfoldable pub hamming_15_11_parity : List ℕ → List ℕ
hamming_15_11_parity d =
    (bit d 0 ⊕ bit d 1 ⊕ bit d 2 ⊕ bit d 3 ⊕ bit d 5 ⊕ bit d 7 ⊕ bit d 8)
    ∷ (bit d 1 ⊕ bit d 2 ⊕ bit d 3 ⊕ bit d 4 ⊕ bit d 6 ⊕ bit d 8 ⊕ bit d 9)
    ∷ (bit d 2 ⊕ bit d 3 ⊕ bit d 4 ⊕ bit d 5 ⊕ bit d 7 ⊕ bit d 9 ⊕ bit d 10)
    ∷ (bit d 0 ⊕ bit d 1 ⊕ bit d 2 ⊕ bit d 4 ⊕ bit d 6 ⊕ bit d 7 ⊕ bit d 10)
    ∷ []

unfoldable pub hamming_13_9_parity : List ℕ → List ℕ
hamming_13_9_parity d =
    (bit d 0 ⊕ bit d 1 ⊕ bit d 3 ⊕ bit d 5 ⊕ bit d 6)
    ∷ (bit d 0 ⊕ bit d 1 ⊕ bit d 2 ⊕ bit d 4 ⊕ bit d 6 ⊕ bit d 7)
    ∷ (bit d 0 ⊕ bit d 1 ⊕ bit d 2 ⊕ bit d 3 ⊕ bit d 5 ⊕ bit d 7 ⊕ bit d 8)
    ∷ (bit d 0 ⊕ bit d 2 ⊕ bit d 4 ⊕ bit d 5 ⊕ bit d 8)
    ∷ []

unfoldable pub hamming_16_11_parity : List ℕ → List ℕ
hamming_16_11_parity d =
    (bit d 0 ⊕ bit d 1 ⊕ bit d 2 ⊕ bit d 3 ⊕ bit d 5 ⊕ bit d 7 ⊕ bit d 8)
    ∷ (bit d 1 ⊕ bit d 2 ⊕ bit d 3 ⊕ bit d 4 ⊕ bit d 6 ⊕ bit d 8 ⊕ bit d 9)
    ∷ (bit d 2 ⊕ bit d 3 ⊕ bit d 4 ⊕ bit d 5 ⊕ bit d 7 ⊕ bit d 9 ⊕ bit d 10)
    ∷ (bit d 0 ⊕ bit d 1 ⊕ bit d 2 ⊕ bit d 4 ⊕ bit d 6 ⊕ bit d 7 ⊕ bit d 10)
    ∷ (bit d 0 ⊕ bit d 2 ⊕ bit d 5 ⊕ bit d 6 ⊕ bit d 8 ⊕ bit d 9 ⊕ bit d 10)
    ∷ []

-- The source's `usize::MAX` and -1, which stand for no position, are `none`.
abbrev pub syndrome_to_pos_15_11 : List (Option ℕ)
syndrome_to_pos_15_11 =
    none
    ∷ some 11
    ∷ some 12
    ∷ some 8
    ∷ some 13
    ∷ some 5
    ∷ some 9
    ∷ some 3
    ∷ some 14
    ∷ some 0
    ∷ some 6
    ∷ some 1
    ∷ some 10
    ∷ some 7
    ∷ some 4
    ∷ some 2
    ∷ []

abbrev pub syndrome_to_pos_13_9 : List (Option ℕ)
syndrome_to_pos_13_9 =
    none
    ∷ some 9
    ∷ some 10
    ∷ some 6
    ∷ some 11
    ∷ some 3
    ∷ some 7
    ∷ some 1
    ∷ some 12
    ∷ none
    ∷ some 4
    ∷ none
    ∷ some 8
    ∷ some 5
    ∷ some 2
    ∷ some 0
    ∷ []

abbrev pub syndrome_to_pos_16_11 : List (Option ℕ)
syndrome_to_pos_16_11 =
    none
    ∷ some 11
    ∷ some 12
    ∷ none
    ∷ some 13
    ∷ none
    ∷ none
    ∷ some 3
    ∷ some 14
    ∷ none
    ∷ none
    ∷ some 1
    ∷ none
    ∷ some 7
    ∷ some 4
    ∷ none
    ∷ some 15
    ∷ none
    ∷ none
    ∷ some 8
    ∷ none
    ∷ some 5
    ∷ some 9
    ∷ none
    ∷ none
    ∷ some 0
    ∷ some 6
    ∷ none
    ∷ some 10
    ∷ none
    ∷ none
    ∷ some 2
    ∷ []

-- The loop over the recomputed parity: bit `i` of the syndrome is set where the received one differs.
unfoldable pub syndrome_from : ℕ → List ℕ → List ℕ → ℕ
syndrome_from i received [] = 0
syndrome_from i received (e ∷ expected) =
    let rest = syndrome_from (i + 1) received expected in
    bit_or (if bit_and (get_or received i 0) 1 == e then 0 else 1 <<< i) rest

-- What a correction leaves in the word, and whether it flipped a bit. `fail` is `HammingError`,
-- which leaves the word as it was.
pub data Corrected : Type 0 where
  fixed : List ℕ → Bool → Corrected
  fail : Corrected

flip : List ℕ → ℕ → List ℕ
flip cw pos = set cw pos (bit cw pos ⊕ 1)

-- `s == 0`, then the table, then the flip, as all three corrections do.
unfoldable pub correct_by : List (Option ℕ) → ℕ → List ℕ → Corrected
unfolding flip
correct_by table s cw =
    if s == 0
    then fixed cw false
    else elim (get_or table s none) [ none ↦ fail | some pos ↦ fixed (flip cw pos) true ]

unfoldable pub hamming_15_11_correct : List ℕ → Corrected
unfolding hamming_15_11_parity syndrome_from correct_by
hamming_15_11_correct cw =
    correct_by syndrome_to_pos_15_11
      (syndrome_from 0 (slice cw 11 4) (hamming_15_11_parity (take 11 cw))) cw

unfoldable pub hamming_13_9_correct : List ℕ → Corrected
unfolding hamming_13_9_parity syndrome_from correct_by
hamming_13_9_correct cw =
    correct_by syndrome_to_pos_13_9
      (syndrome_from 0 (slice cw 9 4) (hamming_13_9_parity (take 9 cw))) cw

unfoldable pub hamming_16_11_correct : List ℕ → Corrected
unfolding hamming_16_11_parity syndrome_from correct_by
hamming_16_11_correct cw =
    correct_by syndrome_to_pos_16_11
      (syndrome_from 0 (slice cw 11 5) (hamming_16_11_parity (take 11 cw))) cw

-- Decoding by comparison with the encoder's output; `none` is `LookupDecodeError`.
unfoldable pub golay_20_8_decode : List ℕ → Option ℕ
unfolding golay_20_8_parity range_from
golay_20_8_decode bits =
    let byte = λ (at : ℕ) (n : ℕ).
      foldl (λ v i. bit_or v (bit_and (bit bits (at + i)) 1 <<< (7 - i))) 0 (range_from 0 n) in
    let info = byte 0 8 in
    let received = bit_or (byte 8 8) (byte 16 4 <<< 8) in
    if golay_20_8_parity info == received then some info else none

unfoldable pub qr_16_7_encode : ℕ → ℕ
unfolding qr_1676_table
qr_16_7_encode info = get_or qr_1676_table (bit_and info 0x7f) 0

-- The linear scan `for info in 0..=0x7f`.
unfoldable pub qr_find : ℕ → List ℕ → ℕ → Option ℕ
qr_find info [] codeword = none
qr_find info (t ∷ ts) codeword =
    let rest = qr_find (info + 1) ts codeword in if t == codeword then some info else rest

unfoldable pub qr_16_7_decode : ℕ → Option ℕ
unfolding qr_find qr_1676_table
qr_16_7_decode codeword = qr_find 0 qr_1676_table codeword
