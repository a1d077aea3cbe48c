-- ===== src/Bptc/Entries.antt =====
-- dmr-wire/src/bptc.rs: the entries of an encoded matrix are bits.
use asl_dmr_bridge.Base.{
  ℕ, zero, suc, ◌+◌, ◌*◌, ◌%◌, refl, List, [], ◌∷◌, ◌++◌, map, foldl, set, range_from, take,
  replicate, All, All-take, All-drop, All-append, All-set, IsBit, write_at,
}
use mathlib.Core.Logic.{inl, inr}
use asl_dmr_bridge.Fec.{◌⊕◌, bit, hamming_15_11_parity, hamming_13_9_parity}
use asl_dmr_bridge.Bptc.{
  data_positions, column_positions, place, row_pass, col_pass, interleave, bptc_encode,
}
use asl_dmr_bridge.Bptc.Product.{encoded_matrix}
use asl_dmr_bridge.Bptc.Passes.{read}
use asl_dmr_bridge.Bptc.Correction.{All-read, get_or-All}

infixl 60 ◌and◌
xor_bits : (a b : ℕ) → IsBit a → IsBit b → IsBit (a ⊕ b)
xor_bits a b (inl e) (inl k) = rw (e, k) (inl refl)
xor_bits a b (inl e) (inr k) = rw (e, k) (inr refl)
xor_bits a b (inr e) (inl k) = rw (e, k) (inr refl)
xor_bits a b (inr e) (inr k) = rw (e, k) (inl refl)

◌and◌ : {a b : ℕ} → IsBit a → IsBit b → IsBit (a ⊕ b)
p and q = xor_bits _ _ p q

module _ (d : List ℕ) (h : All IsBit d) where
  at : (i : ℕ) → IsBit (bit d i)
  at i = get_or-All i d h

  parity_15-bits : All IsBit (hamming_15_11_parity d)
  unfolding hamming_15_11_parity
  parity_15-bits = (
    at 0 and at 1 and at 2 and at 3 and at 5 and at 7 and at 8,
    (
      at 1 and at 2 and at 3 and at 4 and at 6 and at 8 and at 9,
      (
        at 2 and at 3 and at 4 and at 5 and at 7 and at 9 and at 10,
        (at 0 and at 1 and at 2 and at 4 and at 6 and at 7 and at 10, tt),
      ),
    ),
  )

  parity_13-bits : All IsBit (hamming_13_9_parity d)
  unfolding hamming_13_9_parity
  parity_13-bits = (
    at 0 and at 1 and at 3 and at 5 and at 6,
    (
      at 0 and at 1 and at 2 and at 4 and at 6 and at 7,
      (
        at 0 and at 1 and at 2 and at 3 and at 5 and at 7 and at 8,
        (at 0 and at 2 and at 4 and at 5 and at 8, tt),
      ),
    ),
  )

All-place : (ps vs m : List ℕ) → All IsBit vs → All IsBit m → All IsBit (place ps vs m)
unfolding place
All-place [] vs m h k = k
All-place (p ∷ ps) [] m h k = k
All-place (p ∷ ps) (v ∷ vs) m (h, hs) k = All-place ps vs (set m p v) hs (All-set IsBit m p v k h)

All-write_at :
    (xs : List ℕ) (i : ℕ) (ys : List ℕ) → All IsBit xs → All IsBit ys → All IsBit (write_at xs i ys)
All-write_at [] zero ys h k = tt
All-write_at (x ∷ xs) zero [] h k = h
All-write_at (x ∷ xs) zero (y ∷ ys) (h, hs) (k, ks) = (k, All-write_at xs zero ys hs ks)
All-write_at [] (suc i) ys h k = tt
All-write_at (x ∷ xs) (suc i) ys (h, hs) k = (h, All-write_at xs i ys hs k)

All-row_pass : (m : List ℕ) (r : ℕ) → All IsBit m → All IsBit (row_pass m r)
unfolding row_pass
All-row_pass m r h =
    All-write_at m (r * 15 + 1 + 11) _ h
      (parity_15-bits _ (All-take IsBit 11 _ (All-drop IsBit (r * 15 + 1) m h)))

All-col_pass : (m : List ℕ) (c : ℕ) → All IsBit m → All IsBit (col_pass m c)
unfolding col_pass
All-col_pass m c h =
    All-place (column_positions c) (info ++ hamming_13_9_parity info) m
      (All-append IsBit info (hamming_13_9_parity info) bits (parity_13-bits info bits)) h
  where
    info : List ℕ
    info = take 9 (read m (column_positions c))

    bits : All IsBit info
    bits = All-take IsBit 9 (read m (column_positions c)) (All-read (column_positions c) m h)

All-foldl :
    (pass : List ℕ → ℕ → List ℕ) (js m : List ℕ)
    → ((m : List ℕ) (j : ℕ) → All IsBit m → All IsBit (pass m j))
    → All IsBit m
    → All IsBit (foldl pass m js)
All-foldl pass [] m keeps h = h
All-foldl pass (j ∷ js) m keeps h = All-foldl pass js (pass m j) keeps (keeps m j h)

zeros : (n : ℕ) → All IsBit (replicate n 0)
zeros zero = tt
zeros (suc n) = (inl refl, zeros n)

pub encoded_matrix-bits : (bits : List ℕ) → All IsBit bits → All IsBit (encoded_matrix bits)
unfolding encoded_matrix
encoded_matrix-bits bits h = All-foldl col_pass (range_from 0 15) _ All-col_pass (
    All-foldl row_pass (range_from 0 9) _ All-row_pass
      (All-place data_positions bits (replicate 196 0) h (zeros 196)))

pub bptc_encode-bits : (bits : List ℕ) → All IsBit bits → All IsBit (bptc_encode bits)
unfolding bptc_encode interleave encoded_matrix
bptc_encode-bits bits h =
    All-place (map (λ i. (i * 181) % 196) (range_from 0 196)) (encoded_matrix bits)
      (replicate 196 0) (encoded_matrix-bits bits h) (zeros 196)
