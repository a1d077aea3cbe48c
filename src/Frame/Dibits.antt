-- ===== src/Frame/Dibits.antt =====
-- dmr-wire/src/frame.rs: dibits and bytes convert into each other.
use asl_dmr_bridge.Base.{
  ℕ, zero, suc, ◌*◌, ◌≡◌, ◌<◌, refl, ap₂, arith, List, [], ◌∷◌, ◌++◌, true, ◌&&◌, length, All,
  list_eq, list_eq→eq, each_below, each_below_sound, IsByte, ltb, ◌>>>◌, bit_and,
}
use asl_dmr_bridge.Frame.{byte_to_dibits, burst_to_dibits, dibits_to_bytes, pack_dibits}

abbrev pub IsDibit : ℕ → Type 0
IsDibit d = d < 4

-- Dibits, four to a byte.
abbrev pub IsQuads : ℕ → List ℕ → Type 0
IsQuads zero [] = Unit
IsQuads (suc n) (a ∷ b ∷ c ∷ d ∷ ds) = (a < 4) × (b < 4) × (c < 4) × (d < 4) × IsQuads n ds
IsQuads _ _ = ⊥

quad_table :
    each_below 4 (λ a. each_below 4 (λ b. each_below 4 (λ c. each_below 4 (λ d.
      list_eq (burst_to_dibits (dibits_to_bytes (a ∷ b ∷ c ∷ d ∷ []))) (a ∷ b ∷ c ∷ d ∷ [])))))
    ≡ true
unfolding each_below burst_to_dibits dibits_to_bytes byte_to_dibits
quad_table = refl

byte_table :
    each_below 256 (λ b.
      list_eq (pack_dibits (byte_to_dibits b)) (b ∷ [])
      && list_eq (dibits_to_bytes (byte_to_dibits b)) (b ∷ []))
    ≡ true
unfolding each_below pack_dibits byte_to_dibits dibits_to_bytes
byte_table = refl

quad :
    (a b c d : ℕ)
    → a < 4
    → b < 4
    → c < 4
    → d < 4
    → burst_to_dibits (dibits_to_bytes (a ∷ b ∷ c ∷ d ∷ [])) ≡ a ∷ b ∷ c ∷ d ∷ []
quad a b c d ha hb hc hd = list_eq→eq _ _ (
    each_below_sound 4
      (λ w. list_eq (burst_to_dibits (dibits_to_bytes (a ∷ b ∷ c ∷ w ∷ []))) (a ∷ b ∷ c ∷ w ∷ [])) d
      (each_below_sound 4
        (λ z. each_below 4 (λ w.
          list_eq (burst_to_dibits (dibits_to_bytes (a ∷ b ∷ z ∷ w ∷ []))) (a ∷ b ∷ z ∷ w ∷ [])))
        c
        (each_below_sound 4
          (λ y. each_below 4 (λ z. each_below 4 (λ w.
            list_eq (burst_to_dibits (dibits_to_bytes (a ∷ y ∷ z ∷ w ∷ []))) (a ∷ y ∷ z ∷ w ∷ []))))
          b
          (each_below_sound 4
            (λ x. each_below 4 (λ y. each_below 4 (λ z. each_below 4 (λ w.
              list_eq (burst_to_dibits (dibits_to_bytes (x ∷ y ∷ z ∷ w ∷ [])))
                (x ∷ y ∷ z ∷ w ∷ [])))))
            a quad_table ha)
          hb)
        hc)
      hd)

pub quads : (n : ℕ) (ds : List ℕ) → length ds ≡ 4 * n → All IsDibit ds → IsQuads n ds
quads zero [] e h = tt
quads zero (a ∷ ds) e h = absurd (omega (arith, e))
quads (suc n) [] e h = absurd (omega (arith, e))
quads (suc n) (a ∷ []) e h = absurd (omega (arith, e))
quads (suc n) (a ∷ b ∷ []) e h = absurd (omega (arith, e))
quads (suc n) (a ∷ b ∷ c ∷ []) e h = absurd (omega (arith, e))
quads (suc n) (a ∷ b ∷ c ∷ d ∷ ds) e (ha, (hb, (hc, (hd, h)))) =
    (ha, hb, hc, hd, quads n ds (omega (arith, e)) h)

pub dibits_bytes : (n : ℕ) (ds : List ℕ) → IsQuads n ds → burst_to_dibits (dibits_to_bytes ds) ≡ ds
unfolding burst_to_dibits dibits_to_bytes
dibits_bytes zero [] h = refl
dibits_bytes zero (a ∷ ds) h = elim h [ ]
dibits_bytes (suc n) [] h = elim h [ ]
dibits_bytes (suc n) (a ∷ []) h = elim h [ ]
dibits_bytes (suc n) (a ∷ b ∷ []) h = elim h [ ]
dibits_bytes (suc n) (a ∷ b ∷ c ∷ []) h = elim h [ ]
dibits_bytes (suc n) (a ∷ b ∷ c ∷ d ∷ ds) (ha, hb, hc, hd, h) =
    ap₂ (λ xs ys. xs ++ ys) (quad a b c d ha hb hc hd) (dibits_bytes n ds h)

byte_back :
    (b : ℕ)
    → b < 256
    → (pack_dibits (byte_to_dibits b) ≡ b ∷ []) × (dibits_to_bytes (byte_to_dibits b) ≡ b ∷ [])
byte_back b h = both (
    each_below_sound 256
      (λ x.
        list_eq (pack_dibits (byte_to_dibits x)) (x ∷ [])
        && list_eq (dibits_to_bytes (byte_to_dibits x)) (x ∷ []))
      b byte_table h)
  where
    both :
        (list_eq (pack_dibits (byte_to_dibits b)) (b ∷ [])
            && list_eq (dibits_to_bytes (byte_to_dibits b)) (b ∷ []))
          ≡ true
        → (pack_dibits (byte_to_dibits b) ≡ b ∷ []) × (dibits_to_bytes (byte_to_dibits b) ≡ b ∷ [])
    both e = (list_eq→eq _ _ (ground arith), list_eq→eq _ _ (ground arith))

pub pack-unpack : (bs : List ℕ) → All IsByte bs → pack_dibits (burst_to_dibits bs) ≡ bs
unfolding pack_dibits burst_to_dibits byte_to_dibits
pack-unpack [] h = refl
pack-unpack (b ∷ bs) (k, h) = ap₂ (λ xs ys. xs ++ ys) (byte_back b k).0 (pack-unpack bs h)

pub bytes_dibits : (bs : List ℕ) → All IsByte bs → dibits_to_bytes (burst_to_dibits bs) ≡ bs
unfolding dibits_to_bytes burst_to_dibits byte_to_dibits
bytes_dibits [] h = refl
bytes_dibits (b ∷ bs) (k, h) = ap₂ (λ xs ys. xs ++ ys) (byte_back b k).1 (bytes_dibits bs h)

dibit_table :
    each_below 256 (λ b.
      ltb (bit_and (b >>> 6) 0x03) 4
      && ltb (bit_and (b >>> 4) 0x03) 4
      && ltb (bit_and (b >>> 2) 0x03) 4
      && ltb (bit_and b 0x03) 4)
    ≡ true
unfolding each_below
dibit_table = refl

pub burst_to_dibits-IsDibit : (bs : List ℕ) → All IsByte bs → All IsDibit (burst_to_dibits bs)
unfolding burst_to_dibits byte_to_dibits
burst_to_dibits-IsDibit [] h = tt
burst_to_dibits-IsDibit (b ∷ bs) (k, h) =
    let (p, q, r, s) = four (
      each_below_sound 256
        (λ x.
          ltb (bit_and (x >>> 6) 0x03) 4
          && ltb (bit_and (x >>> 4) 0x03) 4
          && ltb (bit_and (x >>> 2) 0x03) 4
          && ltb (bit_and x 0x03) 4)
        b dibit_table k) in
    (p, (q, (r, (s, burst_to_dibits-IsDibit bs h))))
  where
    four :
        (ltb (bit_and (b >>> 6) 0x03) 4
            && ltb (bit_and (b >>> 4) 0x03) 4
            && ltb (bit_and (b >>> 2) 0x03) 4
            && ltb (bit_and b 0x03) 4)
          ≡ true
        → (bit_and (b >>> 6) 0x03 < 4)
          × (bit_and (b >>> 4) 0x03 < 4)
          × (bit_and (b >>> 2) 0x03 < 4)
          × (bit_and b 0x03 < 4)
    four e = (ground arith, ground arith, ground arith, ground arith)

pub length-burst_to_dibits : (bs : List ℕ) → length (burst_to_dibits bs) ≡ 4 * length bs
unfolding burst_to_dibits byte_to_dibits
length-burst_to_dibits [] = refl
length-burst_to_dibits (b ∷ bs) = omega (arith, length-burst_to_dibits bs)
