-- ===== src/Ambe/Channel/Interleaving.antt =====
-- ambe/src/voice_channel.rs: the dibits of the matrix go to their places and back.
use asl_dmr_bridge.Ambe.Channel.Codewords.{get_or-IsBit, All-map, zeros}
use asl_dmr_bridge.Base.{
  ℕ, zero, suc, ◌*◌, get_or, ◌≡◌, refl, arith, List, [], ◌∷◌, ◌++◌, map, true, ◌<<<◌, bit_or,
  list_eq, list_eq→eq, all_bits, all_bits_sound, IsBit, All, All-append, replicate, tabulate,
  range_from, length, inl, ap, ap₂, ◌∙◌,
}
use asl_dmr_bridge.Ambe.Channel.{
  split, joined_bits, dibits_of, bytes_of_dibits, dibits_of_byte, entry, read_dibits, place_dibits,
  rw_table, rx_table, ry_table, rz_table, blank, deinterleave, interleave,
}

abbrev pub IsPair : ℕ × ℕ → Type 0
IsPair (m, l) = IsBit m × IsBit l

pub entry-IsBit : (fr : List (List ℕ)) (row col : ℕ) → All (All IsBit) fr → IsBit (entry fr row col)
entry-IsBit [] row col h = inl refl
entry-IsBit (r ∷ fr) zero col (k, h) = get_or-IsBit r col k
entry-IsBit (r ∷ fr) (suc row) col (k, h) = entry-IsBit fr row col h

pub read_dibits-IsPair :
    (a b c d : List ℕ) (fr : List (List ℕ))
    → All (All IsBit) fr
    → All IsPair (read_dibits a b c d fr)
unfolding read_dibits
read_dibits-IsPair (a ∷ as1) (b ∷ bs) (c ∷ cs) (d ∷ ds) fr h =
    ((entry-IsBit fr a b h, entry-IsBit fr c d h), read_dibits-IsPair as1 bs cs ds fr h)
read_dibits-IsPair [] b c d fr h = tt
read_dibits-IsPair (a ∷ as1) [] c d fr h = tt
read_dibits-IsPair (a ∷ as1) (b ∷ bs) [] d fr h = tt
read_dibits-IsPair (a ∷ as1) (b ∷ bs) (c ∷ cs) [] fr h = tt

-- Four dibits and back.
abbrev pub byte_back : List ℕ → List ℕ
byte_back (a ∷ b ∷ c ∷ d ∷ e ∷ f ∷ g ∷ h ∷ []) =
    let byte =
      get_or (bytes_of_dibits (map joined_bits ((a, b) ∷ (c, d) ∷ (e, f) ∷ (g, h) ∷ []))) 0 0 in
    flat (map split (dibits_of_byte byte))
  where
    flat : List (ℕ × ℕ) → List ℕ
    flat [] = []
    flat ((m, l) ∷ ps) = m ∷ l ∷ flat ps
byte_back _ = []

pub byte_table : all_bits 8 (λ bits. list_eq (byte_back bits) bits) ≡ true
unfolding all_bits bytes_of_dibits
byte_table = refl

-- The dibits of packed pairs of bits, four pairs to a byte.
pub pairs_back :
    (n : ℕ) (ps : List (ℕ × ℕ))
    → length ps ≡ 4 * n
    → All IsPair ps
    → map split (dibits_of (bytes_of_dibits (map joined_bits ps))) ≡ ps
unfolding dibits_of bytes_of_dibits
pairs_back zero [] e h = refl
pairs_back zero (p ∷ ps) e h = ground arith
pairs_back (suc n) [] e h = refl
pairs_back (suc n) (p ∷ []) e h = absurd (omega (arith, e))
pairs_back (suc n) (p ∷ q ∷ []) e h = absurd (omega (arith, e))
pairs_back (suc n) (p ∷ q ∷ r ∷ []) e h = absurd (omega (arith, e))
pairs_back (suc n) (p ∷ q ∷ r ∷ s ∷ ps) e (hp, (hq, (hr, (hs, h)))) =
    ap₂ (λ front back. front ++ back) (four p q r s hp hq hr hs)
      (pairs_back n ps (omega (arith, e)) h)
  where
    four :
        (p q r s : ℕ × ℕ)
        → IsPair p
        → IsPair q
        → IsPair r
        → IsPair s
        → map split (
            dibits_of_byte (
              bit_or
                (bit_or (bit_or (joined_bits p <<< 6) (joined_bits q <<< 4)) (joined_bits r <<< 2))
                (joined_bits s)))
          ≡ p ∷ q ∷ r ∷ s ∷ []
    four (a, b) (c, d) (e, f) (g, h) (ka, kb) (kc, kd) (ke, kf) (kg, kh) =
        let sent = a ∷ b ∷ c ∷ d ∷ e ∷ f ∷ g ∷ h ∷ [] in
        let bits = list_eq→eq (byte_back sent) sent (
          all_bits_sound 8 (λ bits. list_eq (byte_back bits) bits) sent byte_table
            (ka, (kb, (kc, (kd, (ke, (kf, (kg, (kh, tt))))))))) in
        λ i.
          (get_or (bits i) 0 0, get_or (bits i) 1 0)
          ∷ (get_or (bits i) 2 0, get_or (bits i) 3 0)
          ∷ (get_or (bits i) 4 0, get_or (bits i) 5 0)
          ∷ (get_or (bits i) 6 0, get_or (bits i) 7 0)
          ∷ []

-- A matrix with what the tables reach, and nothing else.
abbrev pub matrix : List ℕ → List ℕ → List ℕ → List ℕ → List (List ℕ)
matrix x y z w =
    tabulate 24 (λ i. get_or x i 0)
    ∷ (tabulate 23 (λ i. get_or y i 0) ++ (0 ∷ []))
    ∷ (tabulate 11 (λ i. get_or z i 0) ++ replicate 13 0)
    ∷ (tabulate 14 (λ i. get_or w i 0) ++ replicate 10 0)
    ∷ []

-- The tables reach each of these places once.
pub placed :
    (x y z w : List ℕ)
    → place_dibits rw_table rx_table ry_table rz_table
        (read_dibits rw_table rx_table ry_table rz_table (matrix x y z w))
        blank
      ≡ matrix x y z w
unfolding place_dibits read_dibits tabulate
placed x y z w = refl

pub count_dibits :
    (fr : List (List ℕ)) → length (read_dibits rw_table rx_table ry_table rz_table fr) ≡ 4 * 9
unfolding read_dibits
count_dibits fr = refl

pub deinterleave-interleave :
    (x y z w : List ℕ)
    → All (All IsBit) (matrix x y z w)
    → deinterleave (interleave (matrix x y z w)) ≡ matrix x y z w
unfolding deinterleave interleave
deinterleave-interleave x y z w h =
    ap (λ ps. place_dibits rw_table rx_table ry_table rz_table ps blank)
      (pairs_back 9 (read_dibits rw_table rx_table ry_table rz_table (matrix x y z w))
        (count_dibits (matrix x y z w))
        (read_dibits-IsPair rw_table rx_table ry_table rz_table (matrix x y z w) h))
    ∙ placed x y z w

pub padded-IsBit :
    (x : List ℕ) (n m : ℕ)
    → All IsBit x
    → All IsBit (tabulate n (λ i. get_or x i 0) ++ replicate m 0)
unfolding tabulate
padded-IsBit x n m h =
    All-append IsBit _ (replicate m 0)
      (All-map (λ i. get_or x i 0) (range_from 0 n) (λ i. get_or-IsBit x i h)) (zeros m)
