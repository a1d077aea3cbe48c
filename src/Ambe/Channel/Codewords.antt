-- ===== src/Ambe/Channel/Codewords.antt =====
-- ambe/src/voice_channel.rs: the codes and the whitening, bit by bit.
use Prim.Native.Nat.{min, digits, bit_and-bitwise}
use asl_dmr_bridge.Base.{
  ℕ, zero, suc, ◌+◌, ◌-◌, ◌*◌, ◌/◌, ◌%◌, get_or, ◌≡◌, ◌<◌, refl, arith, List, [], ◌∷◌, ◌++◌, map,
  Bool, true, false, ◌&&◌, ◌>>>◌, ◌<<<◌, bit_and, bit_or, bit_xor, list_eq, list_eq→eq, all_bits,
  all_bits_sound, IsBit, IsBits, each_below, each_below_sound, IsByte, All, All-append, All-take,
  bits_of_byte, bits_of_bytes, byte_of_bits, bytes_of_bits, replicate, tabulate, range_from, take,
  drop, length, inl, inr, ◌⊎◌, ap, ap₂, sym, ◌∙◌,
}
use asl_dmr_bridge.Ambe.Channel.{
  golay_23_12_encode, golay_24_12_encode, golay_rounds, count_ones, msb_first, codeword_bits,
  columns_down, whitened, bit_of, reversed_onto,
}

pub none_in_common : (n a : ℕ) → digits (λ b. 0) min n a 0 ≡ 0
none_in_common zero a = refl
none_in_common (suc n) zero = refl
none_in_common (suc n) (suc a) = rw (none_in_common n (suc a / 2)) (omega arith)

pub parity : (n : ℕ) → (n % 2 ≡ 0) ⊎ (n % 2 ≡ 1)
parity n = ground arith

-- `v & 1` is a bit.
pub bit_and-IsBit : (v : ℕ) → IsBit (bit_and v 1)
bit_and-IsBit zero = inl refl
bit_and-IsBit (suc v) =
    simp bit_and-bitwise
      (by_rest (digits (λ b. 0) min v (suc v / 2) 0) (none_in_common v (suc v / 2)))
  where
    by_rest : (d : ℕ) → d ≡ 0 → IsBit (d * 2 + min (suc v % 2) 1)
    by_rest d e = elim (parity (suc v)) [
      | inl m ↦ inl (ap₂ (λ x y. x * 2 + min y 1) e m)
      | inr m ↦ inr (ap₂ (λ x y. x * 2 + min y 1) e m)
    ]

pub xor-IsBit : (a : ℕ) (p : Bool) → IsBit a → IsBit (bit_xor a (bit_of p))
xor-IsBit a true (inl e) = inr (ap (λ x. bit_xor x 1) e)
xor-IsBit a true (inr e) = inl (ap (λ x. bit_xor x 1) e)
xor-IsBit a false (inl e) = inl (ap (λ x. bit_xor x 0) e)
xor-IsBit a false (inr e) = inr (ap (λ x. bit_xor x 0) e)

pub xor_twice : (a : ℕ) (p : Bool) → IsBit a → bit_xor (bit_xor a (bit_of p)) (bit_of p) ≡ a
xor_twice a true (inl e) = ap (λ x. bit_xor (bit_xor x 1) 1) e ∙ sym e
xor_twice a true (inr e) = ap (λ x. bit_xor (bit_xor x 1) 1) e ∙ sym e
xor_twice a false (inl e) = ap (λ x. bit_xor (bit_xor x 0) 0) e ∙ sym e
xor_twice a false (inr e) = ap (λ x. bit_xor (bit_xor x 0) 0) e ∙ sym e

pub whitened_twice :
    (bits : List ℕ) (pr : List Bool)
    → length bits ≡ length pr
    → All IsBit bits
    → whitened (whitened bits pr) pr ≡ bits
whitened_twice [] [] e h = refl
whitened_twice [] (p ∷ pr) e h = refl
whitened_twice (b ∷ bits) [] e h = ground arith
whitened_twice (b ∷ bits) (p ∷ pr) e (k, h) =
    ap₂ (λ x xs. x ∷ xs) (xor_twice b p k) (whitened_twice bits pr (omega (arith, e)) h)

pub whitened-IsBit :
    (bits : List ℕ) (pr : List Bool) → All IsBit bits → All IsBit (whitened bits pr)
whitened-IsBit [] pr h = tt
whitened-IsBit (b ∷ bits) [] h = tt
whitened-IsBit (b ∷ bits) (p ∷ pr) (k, h) = (xor-IsBit b p k, whitened-IsBit bits pr h)

pub get_or-IsBit : (bits : List ℕ) (i : ℕ) → All IsBit bits → IsBit (get_or bits i 0)
get_or-IsBit [] i h = inl refl
get_or-IsBit (b ∷ bits) zero (k, h) = k
get_or-IsBit (b ∷ bits) (suc i) (k, h) = get_or-IsBit bits i h

pub All-map :
    {X : Type 0} (f : X → ℕ) (xs : List X) → ((x : X) → IsBit (f x)) → All IsBit (map f xs)
All-map f [] h = tt
All-map f (x ∷ xs) h = (h x, All-map f xs h)

pub range-IsBits :
    (f : ℕ → ℕ) (i n : ℕ) → ((k : ℕ) → IsBit (f k)) → IsBits n (map f (range_from i n))
unfolding range_from
range-IsBits f i zero h = tt
range-IsBits f i (suc n) h = (h i, range-IsBits f (i + 1) n h)

pub reversed_onto-IsBit :
    (bits row : List ℕ) → All IsBit bits → All IsBit row → All IsBit (reversed_onto bits row)
reversed_onto-IsBit [] row h k = k
reversed_onto-IsBit (b ∷ bits) row (hb, h) k = reversed_onto-IsBit bits (b ∷ row) h (hb, k)

pub zeros : (n : ℕ) → All IsBit (replicate n 0)
zeros zero = tt
zeros (suc n) = (inl refl, zeros n)

pub codeword-IsBit : (cw n : ℕ) → All IsBit (codeword_bits cw n)
unfolding tabulate
codeword-IsBit cw n =
    All-map (λ col. bit_and (cw >>> col) 1) (range_from 0 n) (λ col. bit_and-IsBit (cw >>> col))

pub bits_of_bytes-IsBit : (bytes : List ℕ) → All IsBit (bits_of_bytes bytes)
unfolding bits_of_bytes
bits_of_bytes-IsBit [] = tt
bits_of_bytes-IsBit (b ∷ bytes) = (
  bit_and-IsBit (b >>> 7),
  (
    bit_and-IsBit (b >>> 6),
    (
      bit_and-IsBit (b >>> 5),
      (
        bit_and-IsBit (b >>> 4),
        (
          bit_and-IsBit (b >>> 3),
          (
            bit_and-IsBit (b >>> 2),
            (bit_and-IsBit (b >>> 1), (bit_and-IsBit b, bits_of_bytes-IsBit bytes)),
          ),
        ),
      ),
    ),
  ),
)

-- Both codes are systematic: the information can be read in the highest columns.
pub golay_24_table :
    all_bits 12 (λ bits.
      list_eq (columns_down (codeword_bits (golay_24_12_encode (msb_first 0 bits)) 24) 12 12) bits)
    ≡ true
unfolding all_bits golay_24_12_encode msb_first asl_dmr_bridge.Base.tabulate
    asl_dmr_bridge.Base.range_from count_ones golay_23_12_encode golay_rounds
golay_24_table = refl

pub golay_23_table :
    all_bits 12 (λ bits.
      list_eq (columns_down (codeword_bits (golay_23_12_encode (msb_first 0 bits)) 23) 11 12) bits)
    ≡ true
unfolding all_bits msb_first asl_dmr_bridge.Base.tabulate asl_dmr_bridge.Base.range_from
    golay_23_12_encode golay_rounds
golay_23_table = refl
