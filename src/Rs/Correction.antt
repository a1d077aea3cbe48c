-- ===== src/Rs/Correction.antt =====
-- dmr-wire/src/rs.rs: rs_12_9_correct repairs any one byte of a code word.
use asl_dmr_bridge.Base.{
  ℕ, zero, suc, ◌-◌, ◌<◌, ◌≡◌, refl, arith, List, [], ◌∷◌, Bool, true, false, ◌&&◌, ◌||◌, not, ◌==◌,
  leb, ap, ap₂, ◌∙◌, length, length-append, get_or, set, set-set, set-get_or, get_or-set, All,
  All-set, All-get_or, IsByte, each_below, each_below_sound, if◌then◌else◌,
}
use mathlib.Core.Path.{subst}
use asl_dmr_bridge.Fec.{◌⊕◌, bit}
use asl_dmr_bridge.Rs.Tables.{exp_table, log_table}
use asl_dmr_bridge.Rs.{
  Attempt, gmult, gdiv, rs_12_9_encode, syndrome, Syndromes, rs_12_9_syndromes, rs_12_9_correct,
  correct_with,
}
use asl_dmr_bridge.Rs.Bytes.{
  double, xor-IsByte, xor_assoc, xor_comm, xor_self, xor_zero, gmult_2, gmult_4, gmult_8,
}
use asl_dmr_bridge.Rs.Roots.{IsRoot, double-IsRoot, double_twice-IsRoot, double_thrice-IsRoot}
use asl_dmr_bridge.Rs.CodeWords.{horner, horner-gmult, zero_at, code_word, code_word-bytes}
use asl_dmr_bridge.Rs.Errors.{iterate, iterate-IsByte, horner-set}

-- An error `e` in the byte `p` from the end gives these syndromes.
syndromes_of : ℕ → ℕ → Syndromes
unfolding iterate
syndromes_of p e = record {
  s1 = iterate double p e;
  s2 = iterate (λ a. double (double a)) p e;
  s3 = iterate (λ a. double (double (double a))) p e;
}

-- The checks of the correction pass with a position and a value.
abbrev passed : Bool → Bool → Bool → ℕ → ℕ → ℕ → ℕ → Bool
passed no_1 no_2 agree at p value e = not no_1 && not no_2 && agree && (at == p) && (value == e)

-- They pass the checks of the correction, which finds `p` and `e` in them.
found : ℕ → ℕ → Bool
unfolding syndromes_of gmult gdiv log_table
found p e =
    let s = syndromes_of p e in
    passed (s.s1 == 0) (s.s2 == 0) (gmult s.s1 s.s3 == gmult s.s2 s.s2)
      (get_or log_table (gdiv s.s2 s.s1) 0) p (gdiv s.s1 (gdiv s.s2 s.s1)) e

found_table : each_below 12 (λ p. each_below 255 (λ e. found p (suc e))) ≡ true
unfolding each_below found syndromes_of iterate gmult gdiv log_table
found_table = refl

-- What the correction makes of its tests, the position and the value that it finds.
outcome : Bool → Bool → Bool → Bool → ℕ → ℕ → List ℕ → Attempt
outcome no_1 no_2 no_3 agree p e word =
    if no_1 && no_2 && no_3
    then record { codeword = word; valid = true }
    else if no_1 || no_2
    then record { codeword = word; valid = false }
    else if not agree
    then record { codeword = word; valid = false }
    else if leb 12 p
    then record { codeword = word; valid = false }
    else record { codeword = set word (11 - p) (bit word (11 - p) ⊕ e); valid = true }

outcome_found :
    (no_1 no_2 no_3 agree : Bool) (at p value e : ℕ) (word : List ℕ)
    → passed no_1 no_2 agree at p value e ≡ true
    → p < 12
    → outcome no_1 no_2 no_3 agree at value word
      ≡ record { codeword = set word (11 - p) (bit word (11 - p) ⊕ e); valid = true }
unfolding outcome
outcome_found true no_2 no_3 agree at p value e word f h = absurd (ground (arith, f))
outcome_found false true no_3 agree at p value e word f h = absurd (ground (arith, f))
outcome_found false false no_3 false at p value e word f h = absurd (ground (arith, f))
outcome_found false false no_3 true at p value e word f h =
    ap₂ (λ at value. outcome false false no_3 true at value word) same_at same_value
    ∙ rw (small, outcome) refl
  where
    same_at : at ≡ p
    same_at = ground (arith, f)

    same_value : value ≡ e
    same_value = ground (arith, f)

    small : leb 12 p ≡ false
    small = ground arith

module _ (p e : ℕ) (h : p < 12) (he : e < 255) where
  checks : found p (suc e) ≡ true
  checks =
      each_below_sound 255 (λ e. found p (suc e)) e
        (each_below_sound 12 (λ p. each_below 255 (λ e. found p (suc e))) p found_table h) he

  correct_with-syndromes_of :
      (word : List ℕ)
      → correct_with (syndromes_of p (suc e)) word
        ≡ record { codeword = set word (11 - p) (bit word (11 - p) ⊕ suc e); valid = true }
  unfolding correct_with outcome found
  correct_with-syndromes_of word =
      let s = syndromes_of p (suc e) in
      outcome_found (s.s1 == 0) (s.s2 == 0) (s.s3 == 0) (gmult s.s1 s.s3 == gmult s.s2 s.s2)
        (get_or log_table (gdiv s.s2 s.s1) 0) p (gdiv s.s1 (gdiv s.s2 s.s1)) (suc e) word checks h

-- A code word with one wrong byte.
module _ (bytes : List ℕ) (h : All IsByte bytes) (size : length bytes ≡ 9) (p e : ℕ) (hp : p < 12)
    (he : e < 255) where
  length-code_word : length (code_word bytes) ≡ 12
  length-code_word = omega (
    arith,
    size,
    length-append bytes
        ((rs_12_9_encode bytes).p2 ∷ (rs_12_9_encode bytes).p1 ∷ (rs_12_9_encode bytes).p0 ∷ []),
  )

  abbrev damaged : List ℕ
  damaged = set (code_word bytes) (11 - p) (bit (code_word bytes) (11 - p) ⊕ suc e)

  damaged-bytes : All IsByte damaged
  damaged-bytes = All-set IsByte (code_word bytes) (11 - p) _ (code_word-bytes bytes h) (
      xor-IsByte _ _
        (All-get_or IsByte (code_word bytes) (11 - p) 0 (code_word-bytes bytes h) (omega arith))
        (omega (arith, he)))

  syndrome_damaged : (by : ℕ → ℕ) (r : IsRoot by) → horner by r 0 damaged ≡ iterate by p (suc e)
  syndrome_damaged by r =
      horner-set by r 0 (suc e) (11 - p) p (code_word bytes) (omega arith) (omega (arith, he))
        (code_word-bytes bytes h) (omega (arith, length-code_word, hp))
      ∙ ap (λ x. x ⊕ iterate by p (suc e)) (zero_at bytes h by r)
      ∙ xor_comm 0 (iterate by p (suc e)) (omega arith)
          (iterate-IsByte by r p (suc e) (omega (arith, he)))
      ∙ xor_zero (iterate by p (suc e)) (iterate-IsByte by r p (suc e) (omega (arith, he)))

  syndrome_1 : syndrome 1 damaged ≡ (syndromes_of p (suc e)).s1
  unfolding syndrome exp_table syndromes_of
  syndrome_1 =
      horner-gmult _ double-IsRoot 2 gmult_2 0 damaged (omega arith) damaged-bytes
      ∙ syndrome_damaged _ double-IsRoot

  syndrome_2 : syndrome 2 damaged ≡ (syndromes_of p (suc e)).s2
  unfolding syndrome exp_table syndromes_of
  syndrome_2 =
      horner-gmult _ double_twice-IsRoot 4 gmult_4 0 damaged (omega arith) damaged-bytes
      ∙ syndrome_damaged _ double_twice-IsRoot

  syndrome_3 : syndrome 3 damaged ≡ (syndromes_of p (suc e)).s3
  unfolding syndrome exp_table syndromes_of
  syndrome_3 =
      horner-gmult _ double_thrice-IsRoot 8 gmult_8 0 damaged (omega arith) damaged-bytes
      ∙ syndrome_damaged _ double_thrice-IsRoot

  syndromes_damaged : rs_12_9_syndromes damaged ≡ syndromes_of p (suc e)
  unfolding rs_12_9_syndromes syndromes_of
  syndromes_damaged =
      ap (λ s. record { s1 = s; s2 = syndrome 2 damaged; s3 = syndrome 3 damaged }) syndrome_1
      ∙ ap₂ (λ s t. record { s1 = (syndromes_of p (suc e)).s1; s2 = s; s3 = t }) syndrome_2
          syndrome_3

  damaged_corrected : rs_12_9_correct damaged ≡ record { codeword = code_word bytes; valid = true }
  unfolding rs_12_9_correct
  damaged_corrected =
      ap (λ s. correct_with s damaged) syndromes_damaged
      ∙ correct_with-syndromes_of p e hp he damaged
      ∙ ap (λ w. record { codeword = w; valid = true }) back
    where
      c : ℕ
      c = bit (code_word bytes) (11 - p)

      hc : IsByte c
      hc = All-get_or IsByte (code_word bytes) (11 - p) 0 (code_word-bytes bytes h) (omega arith)

      at_error : bit damaged (11 - p) ≡ c ⊕ suc e
      at_error =
          get_or-set (code_word bytes) (11 - p) (c ⊕ suc e) 0 (omega (arith, length-code_word))

      restored : bit damaged (11 - p) ⊕ suc e ≡ c
      restored =
          ap (λ x. x ⊕ suc e) at_error
          ∙ xor_assoc c (suc e) (suc e) hc (omega (arith, he)) (omega (arith, he))
          ∙ ap (◌⊕◌ c) (xor_self (suc e) (omega (arith, he)))
          ∙ xor_zero c hc

      back : set damaged (11 - p) (bit damaged (11 - p) ⊕ suc e) ≡ code_word bytes
      back =
          ap (set damaged (11 - p)) restored
          ∙ set-set (code_word bytes) (11 - p) (c ⊕ suc e) c
          ∙ set-get_or (code_word bytes) (11 - p) 0

-- RS(12,9): a message of nine bytes with its parity, in which any one of the twelve bytes, message or
-- parity, is replaced by another byte, is corrected to what was sent.
pub rs_12_9_correct-single :
    (bytes : List ℕ) (at error : ℕ)
    → All IsByte bytes
    → length bytes ≡ 9
    → at < 12
    → 0 < error
    → IsByte error
    → rs_12_9_correct (set (code_word bytes) at (bit (code_word bytes) at ⊕ error))
      ≡ record { codeword = code_word bytes; valid = true }
rs_12_9_correct-single bytes at zero h size hat positive byte = absurd (omega (arith, positive))
rs_12_9_correct-single bytes at (suc e) h size hat positive byte =
    subst
      (λ i.
        rs_12_9_correct (set (code_word bytes) i (bit (code_word bytes) i ⊕ suc e))
        ≡ record { codeword = code_word bytes; valid = true })
      (omega (arith, hat))
      (damaged_corrected bytes h size (11 - at) e (omega arith) (omega (arith, byte)))
