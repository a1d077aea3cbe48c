-- ===== src/Base/Arrays.antt =====
-- Fixed arrays as lists: slices, `copy_from_slice`, loops over an index range, and the bits of bytes.
use Prim.Native.Nat.{ℕ, zero, suc, ◌+◌, ◌-◌, ◌*◌, bit_and, bit_or}
use mathlib.Core.Path.{◌≡◌, refl, ap, ap₂, ◌∙◌}
use native.Mathlib.Omega.{arith}
use mathlib.Core.List.{List, [], ◌∷◌, ◌++◌, map, foldl}
use asl_dmr_bridge.Base.Lists.{length, get_or, take, drop}
use asl_dmr_bridge.Base.Words.{◌<<<◌, ◌>>>◌}

-- `i, i + 1, …, i + n - 1`.
unfoldable pub range_from : ℕ → ℕ → List ℕ
range_from i zero = []
range_from i (suc n) = i ∷ range_from (i + 1) n

-- An array of `n` entries, the `i`-th of them `f i`.
unfoldable pub tabulate {ℓ} : {A : Type ℓ} → ℕ → (ℕ → A) → List A
unfolding range_from
tabulate n f = map f (range_from 0 n)

module _ {ℓ} {A : Type ℓ} where
  abbrev pub slice : List A → ℕ → ℕ → List A
  slice xs from len = take len (drop from xs)

  -- `xs[at..at + ys.len()].copy_from_slice(ys)`; what does not fit is dropped.
  abbrev pub overwrite : List A → List A → List A
  overwrite [] ys = []
  overwrite (x ∷ xs) [] = x ∷ xs
  overwrite (x ∷ xs) (y ∷ ys) = y ∷ overwrite xs ys

  abbrev pub write_at : List A → ℕ → List A → List A
  write_at xs zero ys = overwrite xs ys
  write_at [] (suc k) ys = []
  write_at (x ∷ xs) (suc k) ys = x ∷ write_at xs k ys

  pub length-overwrite : (xs ys : List A) → length (overwrite xs ys) ≡ length xs
  length-overwrite [] ys = refl
  length-overwrite (x ∷ xs) [] = refl
  length-overwrite (x ∷ xs) (y ∷ ys) = ap suc (length-overwrite xs ys)

  pub length-write_at : (xs : List A) (k : ℕ) (ys : List A) → length (write_at xs k ys) ≡ length xs
  length-write_at xs zero ys = length-overwrite xs ys
  length-write_at [] (suc k) ys = refl
  length-write_at (x ∷ xs) (suc k) ys = ap suc (length-write_at xs k ys)

-- The eight bits of a byte, the highest first: `(byte >> (7 - bit)) & 1` for each `bit`.
abbrev pub bits_of_byte : ℕ → List ℕ
bits_of_byte byte =
    bit_and (byte >>> 7) 1
    ∷ bit_and (byte >>> 6) 1
    ∷ bit_and (byte >>> 5) 1
    ∷ bit_and (byte >>> 4) 1
    ∷ bit_and (byte >>> 3) 1
    ∷ bit_and (byte >>> 2) 1
    ∷ bit_and (byte >>> 1) 1
    ∷ bit_and byte 1
    ∷ []

unfoldable pub bits_of_bytes : List ℕ → List ℕ
bits_of_bytes [] = []
bits_of_bytes (b ∷ bs) = bits_of_byte b ++ bits_of_bytes bs

-- `v |= (bits[at + bit] & 1) << (7 - bit)` for each of the eight `bit`s.
unfoldable pub byte_of_bits : List ℕ → ℕ → ℕ
unfolding range_from
byte_of_bits bits at =
    foldl (λ v bit. bit_or v (bit_and (get_or bits (at + bit) 0) 1 <<< (7 - bit))) 0
      (range_from 0 8)

-- The first `n` bytes of a bit string.
unfoldable pub bytes_of_bits : ℕ → List ℕ → List ℕ
unfolding tabulate byte_of_bits
bytes_of_bits n bits = tabulate n (λ i. byte_of_bits bits (i * 8))

entries :
    (xs : List ℕ) (f : ℕ → ℕ) (i : ℕ)
    → ((k : ℕ) → f (i + k) ≡ get_or xs k 0)
    → map f (range_from i (length xs)) ≡ xs
unfolding range_from
entries [] f i h = refl
entries (x ∷ xs) f i h =
    ap₂ ◌∷◌ (ap f (omega arith) ∙ h 0) (entries xs f (i + 1) (λ k. ap f (omega arith) ∙ h (suc k)))

pub tabulate-get_or : (xs : List ℕ) → tabulate (length xs) (λ i. get_or xs i 0) ≡ xs
unfolding tabulate
tabulate-get_or xs = entries xs (λ i. get_or xs i 0) 0 (λ k. ap (λ i. get_or xs i 0) (omega arith))
