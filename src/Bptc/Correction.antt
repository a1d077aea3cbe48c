-- ===== src/Bptc/Correction.antt =====
-- dmr-wire/src/bptc.rs: the two passes of bptc_decode_correct over a word of the product code, with one
-- wrong entry or with none.
use asl_dmr_bridge.Base.{
  ℕ, ◌+◌, ◌-◌, ◌*◌, ◌/◌, ◌%◌, ◌≤◌, ◌<◌, ◌≡◌, ◌≢◌, refl, arith, List, [], ◌∷◌, ◌++◌, Bool-cases, leb,
  foldl, true, false, ap, sym, ◌∙◌, length, get_or, set, range_from, some, take, slice, All,
  All-take, All-drop, All-get_or, IsBit, IsBits, IsBits-All, length-take_le, length-drop,
  write_at-slice, write_at-slice-set, slice-set, slice-set_before, slice-set_beyond, get_or-slice,
}
use mathlib.Core.Path.{subst}
use mathlib.Core.Logic.{◌⊎◌, inl, inr}
use asl_dmr_bridge.Fec.{
  ◌⊕◌, fixed, hamming_15_11_parity, hamming_13_9_parity, hamming_15_11_correct,
  hamming_13_9_correct,
}
use asl_dmr_bridge.Fec.Hamming.{
  with_error, hamming_15_11_correct-single, hamming_13_9_correct-single, hamming_15_11_correct-word,
  hamming_13_9_correct-word,
}
use asl_dmr_bridge.Bptc.{Progress, column_positions, correct_row, correct_col}
use asl_dmr_bridge.Bptc.Passes.{
  read, place-read, read-set_other, line-avoids, read-set_at, get_or-read, place-read-set,
  pass-keeps, pass-repairs,
}

-- A matrix of bits whose first nine rows and whose columns are code words.
pub record IsWord (matrix : List ℕ) : Type 0 where
  pub size : length matrix ≡ 196
  pub bits : All IsBit matrix
  pub row :
      (r : ℕ)
      → r < 9
      → slice matrix (r * 15 + 1) 15
        ≡ slice matrix (r * 15 + 1) 11 ++ hamming_15_11_parity (slice matrix (r * 15 + 1) 11)
  pub col :
      (c : ℕ)
      → c < 15
      → read matrix (column_positions c)
        ≡ take 9 (read matrix (column_positions c))
          ++ hamming_13_9_parity (take 9 (read matrix (column_positions c)))

-- A step over a row that is a code word.
row_kept :
    (matrix : List ℕ) (r count : ℕ)
    → hamming_15_11_correct (slice matrix (r * 15 + 1) 15)
      ≡ fixed (slice matrix (r * 15 + 1) 15) false
    → correct_row (some (matrix, count)) r ≡ some (matrix, count)
unfolding correct_row
row_kept matrix r count h =
    rw (h, correct_row) (ap (λ m. some (m, count)) (write_at-slice matrix (r * 15 + 1) 15))

col_kept :
    (matrix : List ℕ) (c count : ℕ)
    → hamming_13_9_correct (read matrix (column_positions c))
      ≡ fixed (read matrix (column_positions c)) false
    → correct_col (some (matrix, count)) c ≡ some (matrix, count)
unfolding correct_col
col_kept matrix c count h =
    rw (h, correct_col) (ap (λ m. some (m, count)) (place-read (column_positions c) matrix))

-- Both passes, with no bit flipped so far.
abbrev pub passes : List ℕ → Progress
passes m = foldl correct_col (foldl correct_row (some (m, 0)) (range_from 0 9)) (range_from 0 15)

pub get_or-All : (i : ℕ) (bs : List ℕ) → All IsBit bs → IsBit (get_or bs i 0)
get_or-All i bs h = All-get_or IsBit bs i 0 h (inl refl)

pub All-read : (ps matrix : List ℕ) → All IsBit matrix → All IsBit (read matrix ps)
All-read [] matrix h = tt
All-read (p ∷ ps) matrix h = (get_or-All p matrix h, All-read ps matrix h)

module _ (matrix : List ℕ) (word : IsWord matrix) where
  row_info : (r : ℕ) → r < 9 → IsBits 11 (slice matrix (r * 15 + 1) 11)
  row_info r h =
      IsBits-All 11 _ (All-take IsBit 11 _ (All-drop IsBit (r * 15 + 1) matrix word.bits))
        (length-take_le 11 _ (omega (arith, h, length-drop (r * 15 + 1) matrix, word.size)))

  col_info : (c : ℕ) → IsBits 9 (take 9 (read matrix (column_positions c)))
  unfolding range_from
  col_info c =
      IsBits-All 9 (take 9 (read matrix (column_positions c)))
        (All-take IsBit 9 (read matrix (column_positions c))
          (All-read (column_positions c) matrix word.bits))
        refl

  row_word :
      (r : ℕ)
      → r < 9
      → hamming_15_11_correct (slice matrix (r * 15 + 1) 15)
        ≡ fixed (slice matrix (r * 15 + 1) 15) false
  row_word r h =
      subst (λ w. hamming_15_11_correct w ≡ fixed w false) (sym (word.row r h))
        (hamming_15_11_correct-word _ (row_info r h))

  row_single :
      (r k : ℕ)
      → r < 9
      → k < 15
      → hamming_15_11_correct (with_error (slice matrix (r * 15 + 1) 15) k)
        ≡ fixed (slice matrix (r * 15 + 1) 15) true
  row_single r k h b =
      subst (λ w. hamming_15_11_correct (with_error w k) ≡ fixed w true) (sym (word.row r h))
        (hamming_15_11_correct-single _ k (row_info r h) b)

  col_word :
      (c : ℕ)
      → c < 15
      → hamming_13_9_correct (read matrix (column_positions c))
        ≡ fixed (read matrix (column_positions c)) false
  col_word c h =
      subst (λ w. hamming_13_9_correct w ≡ fixed w false) (sym (word.col c h))
        (hamming_13_9_correct-word _ (col_info c))

  col_single :
      (c k : ℕ)
      → c < 15
      → k < 13
      → hamming_13_9_correct (with_error (read matrix (column_positions c)) k)
        ≡ fixed (read matrix (column_positions c)) true
  col_single c k h b =
      subst (λ w. hamming_13_9_correct (with_error w k) ≡ fixed w true) (sym (word.col c h))
        (hamming_13_9_correct-single _ k (col_info c) b)

  -- The rows leave the word as it is, and the columns do.
  pub rows_keep :
      (count : ℕ) → foldl correct_row (some (matrix, count)) (range_from 0 9) ≡ some (matrix, count)
  rows_keep count =
      pass-keeps correct_row matrix count 0 9
        (λ r low high. row_kept matrix r count (row_word r (omega (arith, high))))

  pub cols_keep :
      (count : ℕ)
      → foldl correct_col (some (matrix, count)) (range_from 0 15) ≡ some (matrix, count)
  cols_keep count =
      pass-keeps correct_col matrix count 0 15
        (λ c low high. col_kept matrix c count (col_word c (omega (arith, high))))

  -- A wrong entry outside of the rows stays.
  row_spared :
      (pos r count : ℕ)
      → r < 9
      → ¬ (r * 15 + 1 ≤ pos × pos < r * 15 + 16)
      → correct_row (some (with_error matrix pos, count)) r ≡ some (with_error matrix pos, count)
  row_spared pos r count h away = row_kept (with_error matrix pos) r count (
      subst (λ w. hamming_15_11_correct w ≡ fixed w false)
        (sym (same (Bool-cases (leb (r * 15 + 1) pos)))) (row_word r h))
    where
      same :
          (leb (r * 15 + 1) pos ≡ true) ⊎ (leb (r * 15 + 1) pos ≡ false)
          → slice (with_error matrix pos) (r * 15 + 1) 15 ≡ slice matrix (r * 15 + 1) 15
      same (inl e) = slice-set_beyond matrix (r * 15 + 1) 15 pos _ (ground arith)
      same (inr e) = slice-set_before matrix (r * 15 + 1) 15 pos _ (ground arith)

  row_repaired :
      (pos r k : ℕ)
      → r < 9
      → k < 15
      → pos ≡ r * 15 + 1 + k
      → correct_row (some (with_error matrix pos, 0)) r ≡ some (matrix, 1)
  unfolding correct_row
  row_repaired pos r k h b e =
      rw (reads, correct_row)
        (ap (λ m. some (m, 1))
          (write_at-slice-set matrix (r * 15 + 1) 15 pos _ (omega (arith, e))
            (omega (arith, e, b))))
    where
      reads :
          hamming_15_11_correct (slice (with_error matrix pos) (r * 15 + 1) 15)
          ≡ fixed (slice matrix (r * 15 + 1) 15) true
      reads =
          ap hamming_15_11_correct (
            slice-set matrix (r * 15 + 1) 15 pos k _ e
            ∙ ap (λ v. set (slice matrix (r * 15 + 1) 15) k (v ⊕ 1))
                (sym (get_or-slice matrix (r * 15 + 1) 15 pos k 0 b e)))
          ∙ row_single r k h b

  col_spared :
      (pos c count : ℕ)
      → c < 15
      → ((k : ℕ) → k < 13 → pos ≢ c + 1 + k * 15)
      → correct_col (some (with_error matrix pos, count)) c ≡ some (with_error matrix pos, count)
  col_spared pos c count h away = col_kept (with_error matrix pos) c count (
      subst (λ w. hamming_13_9_correct w ≡ fixed w false)
        (sym (
          read-set_other (column_positions c) matrix pos _
            (line-avoids (c + 1) 0 13 pos (λ k low high. away k (omega (arith, high))))))
        (col_word c h))

  col_repaired :
      (pos c k : ℕ)
      → c < 15
      → k < 13
      → pos ≡ c + 1 + k * 15
      → correct_col (some (with_error matrix pos, 0)) c ≡ some (matrix, 1)
  unfolding correct_col
  col_repaired pos c k h b e =
      rw (reads, correct_col)
        (ap (λ m. some (m, 1)) (place-read-set (c + 1) 0 13 k pos matrix _ b (omega (arith, e))))
    where
      reads :
          hamming_13_9_correct (read (with_error matrix pos) (column_positions c))
          ≡ fixed (read matrix (column_positions c)) true
      reads =
          ap hamming_13_9_correct (
            read-set_at (c + 1) 0 13 k pos matrix _ b (omega (arith, e))
              (omega (arith, e, word.size))
            ∙ ap (λ v. set (read matrix (column_positions c)) k (v ⊕ 1))
                (sym (get_or-read (c + 1) 0 13 k pos matrix b (omega (arith, e)))))
          ∙ col_single c k h b

  pub passes-word : passes matrix ≡ some (matrix, 0)
  passes-word = ap (λ p. foldl correct_col p (range_from 0 15)) (rows_keep 0) ∙ cols_keep 0

  -- The one entry that is in no row and no column.
  pub passes-first : passes (with_error matrix 0) ≡ some (with_error matrix 0, 0)
  passes-first =
      ap (λ p. foldl correct_col p (range_from 0 15))
        (pass-keeps correct_row (with_error matrix 0) 0 0 9
          (λ r low high. row_spared 0 r 0 (omega (arith, high)) (λ (l, h). omega (arith, l))))
      ∙ pass-keeps correct_col (with_error matrix 0) 0 0 15
          (λ c low high. col_spared 0 c 0 (omega (arith, high)) (λ k b e. omega (arith, e)))

  pub passes-row :
      (pos : ℕ) → 0 < pos → pos < 136 → passes (with_error matrix pos) ≡ some (matrix, 1)
  passes-row pos low high =
      ap (λ p. foldl correct_col p (range_from 0 15))
        (pass-repairs correct_row (with_error matrix pos) matrix 0 ((pos - 1) / 15) 0 9
          (omega arith) (omega (arith, low, high))
          (λ r l h other.
            row_spared pos r 0 (omega (arith, h)) (λ (a, b). other (omega (arith, a, b))))
          (row_repaired pos ((pos - 1) / 15) ((pos - 1) % 15) (omega (arith, low, high))
            (omega arith) (omega (arith, low)))
          (λ r l h. row_kept matrix r 1 (row_word r (omega (arith, h)))))
      ∙ cols_keep 1

  pub passes-col :
      (pos : ℕ) → 135 < pos → pos < 196 → passes (with_error matrix pos) ≡ some (matrix, 1)
  passes-col pos low high =
      ap (λ p. foldl correct_col p (range_from 0 15))
        (pass-keeps correct_row (with_error matrix pos) 0 0 9
          (λ r l h. row_spared pos r 0 (omega (arith, h)) (λ (a, b). omega (arith, b, low, h))))
      ∙ pass-repairs correct_col (with_error matrix pos) matrix 0 ((pos - 1) % 15) 0 15
          (omega arith) (omega arith)
          (λ c l h other.
            col_spared pos c 0 (omega (arith, h)) (λ k b e. other (omega (arith, e, h))))
          (col_repaired pos ((pos - 1) % 15) ((pos - 1) / 15) (omega arith)
            (omega (arith, low, high)) (omega (arith, low)))
          (λ c l h. col_kept matrix c 1 (col_word c (omega (arith, h))))
