-- ===== src/Rs/CodeWords.antt =====
-- dmr-wire/src/rs.rs: the parity of rs_12_9_encode makes a word with no syndrome.
use asl_dmr_bridge.Base.{
  ℕ, ◌≡◌, refl, arith, List, [], ◌∷◌, ◌++◌, foldl, true, ◌&&◌, ltb, ap, ap₂, sym, ◌∙◌, All,
  All-append, IsByte, each_below_sound,
}
use asl_dmr_bridge.Fec.{◌⊕◌}
use asl_dmr_bridge.Rs.Tables.{exp_table}
use asl_dmr_bridge.Rs.{
  Parity, rs_12_9_correct, correct_with, gmult, encode_byte, rs_12_9_encode, syndrome,
  rs_12_9_syndromes,
}
use asl_dmr_bridge.Rs.Bytes.{
  double, gmult_2, gmult_4, gmult_8, xor-IsByte, xor_assoc, xor_self, xor_interchange, xor_turn,
}
use asl_dmr_bridge.Rs.Roots.{
  products_table, vanishes, IsRoot, double-IsRoot, double_twice-IsRoot, double_thrice-IsRoot,
}

module _ (by : ℕ → ℕ) (r : IsRoot by) where
  abbrev pub horner : ℕ → List ℕ → ℕ
  horner acc word = foldl (λ acc c. by acc ⊕ c) acc word

  -- The parity so far is what the bytes so far leave modulo the generator polynomial, at this root.
  record Fits (p : Parity) (acc : ℕ) : Type 0 where
    b0 : IsByte p.p0
    b1 : IsByte p.p1
    b2 : IsByte p.p2
    b : IsByte acc
    same : (by (by p.p2) ⊕ by p.p1) ⊕ p.p0 ≡ by (by (by acc))

  twice-IsByte : (a : ℕ) → IsByte a → IsByte (by (by a))
  twice-IsByte a h = r.byte (by a) (r.byte a h)

  linear_2 : (a b : ℕ) → IsByte a → IsByte b → by (by (a ⊕ b)) ≡ by (by a) ⊕ by (by b)
  linear_2 a b ha hb =
      ap by (r.linear a b ha hb) ∙ r.linear (by a) (by b) (r.byte a ha) (r.byte b hb)

  linear_3 :
      (a b : ℕ) → IsByte a → IsByte b → by (by (by (a ⊕ b))) ≡ by (by (by a)) ⊕ by (by (by b))
  linear_3 a b ha hb =
      ap by (linear_2 a b ha hb)
      ∙ r.linear (by (by a)) (by (by b)) (twice-IsByte a ha) (twice-IsByte b hb)

  encode_byte-Fits :
      (p : Parity) (acc byte : ℕ)
      → IsByte byte
      → Fits p acc
      → Fits (encode_byte p byte) (by acc ⊕ byte)
  unfolding encode_byte
  encode_byte-Fits p acc byte h f = record {
    b0 = ground (arith, products);
    b1 = xor-IsByte _ _ f.b0 g1;
    b2 = xor-IsByte _ _ f.b1 g2;
    b = xor-IsByte _ _ (r.byte acc f.b) h;
    same =
        ap₂ (λ x y. (x ⊕ y) ⊕ gmult 64 d) (linear_2 p.p1 (gmult 14 d) f.b1 g2)
          (r.linear p.p0 (gmult 56 d) f.b0 g1)
        ∙ ap (λ x. x ⊕ gmult 64 d)
            (xor_interchange (by (by p.p1)) (by (by (gmult 14 d))) (by p.p0) (by (gmult 56 d))
              (twice-IsByte _ f.b1) (twice-IsByte _ g2) (r.byte _ f.b0) (r.byte _ g1))
        ∙ xor_assoc (by (by p.p1) ⊕ by p.p0) (by (by (gmult 14 d)) ⊕ by (gmult 56 d)) (gmult 64 d)
            (xor-IsByte _ _ (twice-IsByte _ f.b1) (r.byte _ f.b0))
            (xor-IsByte _ _ (twice-IsByte _ g2) (r.byte _ g1)) g0
        ∙ ap (λ x. (by (by p.p1) ⊕ by p.p0) ⊕ x) (at_root ∙ linear_3 byte p.p2 h f.b2)
        ∙ xor_turn (by (by p.p1)) (by p.p0) (by (by (by byte))) (by (by (by p.p2)))
            (twice-IsByte _ f.b1) (r.byte _ f.b0) (r.byte _ (twice-IsByte _ h))
            (r.byte _ (twice-IsByte _ f.b2))
        ∙ ap (λ x. x ⊕ by (by (by byte))) before
        ∙ sym (linear_3 (by acc) byte (r.byte acc f.b) h);
  }
    where
      d : ℕ
      d = byte ⊕ p.p2

      hd : IsByte d
      hd = xor-IsByte byte p.p2 h f.b2

      products : (ltb (gmult 64 d) 256 && ltb (gmult 56 d) 256 && ltb (gmult 14 d) 256) ≡ true
      products =
          each_below_sound 256
            (λ d. ltb (gmult 64 d) 256 && ltb (gmult 56 d) 256 && ltb (gmult 14 d) 256) d
            products_table hd

      g1 : IsByte (gmult 56 d)
      g1 = ground (arith, products)

      g2 : IsByte (gmult 14 d)
      g2 = ground (arith, products)

      g0 : IsByte (gmult 64 d)
      g0 = ground (arith, products)

      at_root : (by (by (gmult 14 d)) ⊕ by (gmult 56 d)) ⊕ gmult 64 d ≡ by (by (by d))
      at_root = ground (arith, each_below_sound 256 (vanishes by) d r.root hd)

      before : (by (by (by p.p2)) ⊕ by (by p.p1)) ⊕ by p.p0 ≡ by (by (by (by acc)))
      before =
          ap (λ x. x ⊕ by p.p0) (sym (r.linear _ _ (twice-IsByte _ f.b2) (r.byte _ f.b1)))
          ∙ sym (r.linear _ _ (xor-IsByte _ _ (twice-IsByte _ f.b2) (r.byte _ f.b1)) f.b0)
          ∙ ap by f.same

  foldl-Fits :
      (p : Parity) (acc : ℕ) (bytes : List ℕ)
      → All IsByte bytes
      → Fits p acc
      → Fits (foldl encode_byte p bytes) (horner acc bytes)
  foldl-Fits p acc [] h f = f
  foldl-Fits p acc (byte ∷ bytes) (h, hs) f =
      foldl-Fits (encode_byte p byte) (by acc ⊕ byte) bytes hs (encode_byte-Fits p acc byte h f)

  Fits-vanishes : (p : Parity) (acc : ℕ) → Fits p acc → horner acc (p.p2 ∷ p.p1 ∷ p.p0 ∷ []) ≡ 0
  Fits-vanishes p acc f =
      ap (λ x. by (x ⊕ p.p1) ⊕ p.p0) (r.linear (by acc) p.p2 (r.byte acc f.b) f.b2)
      ∙ ap (λ x. x ⊕ p.p0)
          (r.linear (by (by acc) ⊕ by p.p2) p.p1
              (xor-IsByte _ _ (twice-IsByte acc f.b) (r.byte _ f.b2)) f.b1
            ∙ ap (λ x. x ⊕ by p.p1)
                (r.linear (by (by acc)) (by p.p2) (twice-IsByte acc f.b) (r.byte _ f.b2)))
      ∙ ap (λ x. x ⊕ p.p0)
          (xor_assoc all (by (by p.p2)) (by p.p1) hall (twice-IsByte _ f.b2) (r.byte _ f.b1))
      ∙ xor_assoc all (by (by p.p2) ⊕ by p.p1) p.p0 hall
          (xor-IsByte _ _ (twice-IsByte _ f.b2) (r.byte _ f.b1)) f.b0
      ∙ ap (◌⊕◌ all) f.same
      ∙ xor_self all hall
    where
      all : ℕ
      all = by (by (by acc))

      hall : IsByte all
      hall = r.byte _ (twice-IsByte acc f.b)

  pub horner-append : (acc : ℕ) (xs ys : List ℕ) → horner acc (xs ++ ys) ≡ horner (horner acc xs) ys
  horner-append acc [] ys = refl
  horner-append acc (x ∷ xs) ys = horner-append (by acc ⊕ x) xs ys

  at_zero : Fits (record { p0 = 0; p1 = 0; p2 = 0 }) 0
  at_zero = record {
    b0 = omega arith;
    b1 = omega arith;
    b2 = omega arith;
    b = omega arith;
    same = simp (r.zero) refl;
  }

  -- Multiplication by a constant that is this one on bytes.
  pub horner-gmult :
      (a : ℕ)
      → ((x : ℕ) → IsByte x → gmult x a ≡ by x)
      → (acc : ℕ) (word : List ℕ) → IsByte acc
      → All IsByte word
      → foldl (λ acc c. gmult acc a ⊕ c) acc word ≡ horner acc word
  horner-gmult a same acc [] h k = refl
  horner-gmult a same acc (c ∷ word) h (k, ks) =
      ap (λ x. foldl (λ acc c. gmult acc a ⊕ c) (x ⊕ c) word) (same acc h)
      ∙ horner-gmult a same (by acc ⊕ c) word (xor-IsByte _ _ (r.byte acc h) k) ks

-- The word in the order of the code: the message, then the parity from `p2` to `p0`.
abbrev pub code_word : List ℕ → List ℕ
code_word bytes = let p = rs_12_9_encode bytes in bytes ++ (p.p2 ∷ p.p1 ∷ p.p0 ∷ [])

module _ (bytes : List ℕ) (h : All IsByte bytes) where
  rs_12_9_encode-Fits :
      (by : ℕ → ℕ) (r : IsRoot by) → Fits by r (rs_12_9_encode bytes) (horner by r 0 bytes)
  unfolding rs_12_9_encode
  rs_12_9_encode-Fits by r =
      foldl-Fits by r (record { p0 = 0; p1 = 0; p2 = 0 }) 0 bytes h (at_zero by r)

  pub parity-bytes :
      IsByte (rs_12_9_encode bytes).p2
      × (IsByte (rs_12_9_encode bytes).p1 × IsByte (rs_12_9_encode bytes).p0)
  parity-bytes = let f = rs_12_9_encode-Fits double double-IsRoot in (f.b2, (f.b1, f.b0))

  pub code_word-bytes : All IsByte (code_word bytes)
  code_word-bytes =
      let (b2, (b1, b0)) = parity-bytes in All-append IsByte bytes _ h (b2, (b1, (b0, tt)))

  pub zero_at : (by : ℕ → ℕ) (r : IsRoot by) → horner by r 0 (code_word bytes) ≡ 0
  zero_at by r =
      horner-append by r 0 bytes _
      ∙ Fits-vanishes by r (rs_12_9_encode bytes) (horner by r 0 bytes) (rs_12_9_encode-Fits by r)

  syndrome_1 : syndrome 1 (code_word bytes) ≡ 0
  unfolding syndrome exp_table
  syndrome_1 =
      horner-gmult _ double-IsRoot 2 gmult_2 0 (code_word bytes) (omega arith) code_word-bytes
      ∙ zero_at _ double-IsRoot

  syndrome_2 : syndrome 2 (code_word bytes) ≡ 0
  unfolding syndrome exp_table
  syndrome_2 =
      horner-gmult _ double_twice-IsRoot 4 gmult_4 0 (code_word bytes) (omega arith) code_word-bytes
      ∙ zero_at _ double_twice-IsRoot

  syndrome_3 : syndrome 3 (code_word bytes) ≡ 0
  unfolding syndrome exp_table
  syndrome_3 =
      horner-gmult _ double_thrice-IsRoot 8 gmult_8 0 (code_word bytes) (omega arith)
        code_word-bytes
      ∙ zero_at _ double_thrice-IsRoot

  -- A message with its parity is a word of the code: none of the three syndromes reports an error.
  pub rs_12_9_syndromes-rs_12_9_encode :
      rs_12_9_syndromes (code_word bytes) ≡ record { s1 = 0; s2 = 0; s3 = 0 }
  unfolding rs_12_9_syndromes
  rs_12_9_syndromes-rs_12_9_encode =
      ap
        (λ s. record {
          s1 = s;
          s2 = syndrome 2 (code_word bytes);
          s3 = syndrome 3 (code_word bytes);
        })
        syndrome_1
      ∙ ap₂ (λ s t. record { s1 = 0; s2 = s; s3 = t }) syndrome_2 syndrome_3

  -- So its correction leaves it as it is.
  pub rs_12_9_correct-rs_12_9_encode :
      rs_12_9_correct (code_word bytes) ≡ record { codeword = code_word bytes; valid = true }
  unfolding rs_12_9_correct correct_with
  rs_12_9_correct-rs_12_9_encode =
      ap (λ s. correct_with s (code_word bytes)) rs_12_9_syndromes-rs_12_9_encode
