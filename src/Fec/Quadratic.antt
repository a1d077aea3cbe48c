-- ===== src/Fec/Quadratic.antt =====
-- dmr-wire/src/fec.rs: the QR(16,7) code words decode to what was encoded, and to nothing else.
use asl_dmr_bridge.Base.{
  ℕ, suc, ◌+◌, ◌≡◌, ◌<◌, refl, arith, List, [], ◌∷◌, true, some, ◌==◌, ==_iff, Bool-cases, inl, inr,
  bit_and, get_or, length, each_below, each_below_sound, is_just, is_just_sound, ap, ◌∙◌,
}
use asl_dmr_bridge.Fec.{qr_16_7_encode, qr_16_7_decode, qr_find}
use asl_dmr_bridge.Fec.Tables.{qr_1676_table}

qr_table : each_below 128 (λ info. is_just info (qr_16_7_decode (qr_16_7_encode info))) ≡ true
unfolding qr_16_7_decode qr_16_7_encode each_below
qr_table = refl

-- The QR(16,7) code word of a value of seven bits decodes to that value.
pub qr_16_7_decode-encode :
    (info : ℕ) → info < 128 → qr_16_7_decode (qr_16_7_encode info) ≡ some info
qr_16_7_decode-encode info h =
    is_just_sound info _
      (each_below_sound 128 (λ i. is_just i (qr_16_7_decode (qr_16_7_encode i))) info qr_table h)

-- What the scan finds stands at the position it reports.
qr_find_sound :
    (start : ℕ) (table : List ℕ) (codeword info : ℕ)
    → qr_find start table codeword ≡ some info
    → (k : ℕ) × (info ≡ start + k) × (k < length table) × (get_or table k 0 ≡ codeword)
unfolding qr_find
qr_find_sound start [] codeword info e = ground arith
qr_find_sound start (t ∷ ts) codeword info e = elim (Bool-cases (t == codeword)) [
  | inl f ↦ (0, ground arith, omega arith, (==_iff t codeword).0 f)
  | inr f ↦
      let (k, a, b, c) = qr_find_sound (start + 1) ts codeword info (ground arith) in
      (suc k, ground arith, ground arith, c)
]

masked_table : each_below 128 (λ i. bit_and i 0x7f == i) ≡ true
unfolding each_below
masked_table = refl

-- Whatever QR(16,7) decodes to has seven bits, and its code word is the word that was decoded.
pub qr_16_7_decode_sound :
    (codeword info : ℕ)
    → qr_16_7_decode codeword ≡ some info
    → (info < 128) × (qr_16_7_encode info ≡ codeword)
unfolding qr_16_7_decode qr_16_7_encode
qr_16_7_decode_sound codeword info e =
    let (k, a, b, c) = qr_find_sound 0 qr_1676_table codeword info e in
    (
      below k a b,
      ap (λ i. get_or qr_1676_table i 0) (masked info (below k a b))
          ∙ ap (λ i. get_or qr_1676_table i 0) (shifted k a)
          ∙ c,
    )
  where
    below : (k : ℕ) → info ≡ 0 + k → k < length qr_1676_table → info < 128
    below k a b = omega (arith, a, b)

    shifted : (k : ℕ) → info ≡ 0 + k → info ≡ k
    shifted k a = omega (arith, a)

    masked : (i : ℕ) → i < 128 → bit_and i 0x7f ≡ i
    masked i h =
        (==_iff (bit_and i 0x7f) i).0
          (each_below_sound 128 (λ i. bit_and i 0x7f == i) i masked_table h)
