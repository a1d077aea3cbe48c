-- ===== src/Base/Updates.antt =====
-- One entry of an array replaced: what reads and writes of slices and of scattered positions see of it.
use Prim.Native.Nat.{ℕ, zero, suc, ◌+◌, ◌<◌, ◌≤◌}
use mathlib.Core.Path.{subst, ◌≡◌, refl, ap, ap₂, sym, ◌∙◌}
use mathlib.Core.Logic.{◌≢◌, inl, inr}
use native.Mathlib.Omega.{arith}
use mathlib.Core.List.{List, [], ◌∷◌, ◌++◌, map}
use asl_dmr_bridge.Base.Tests.{◌==◌, Bool-cases}
use asl_dmr_bridge.Base.Lists.{length, get_or, set, take, drop, All, length-take_le, length-drop}
use asl_dmr_bridge.Base.Arrays.{range_from, slice, write_at, overwrite, tabulate, tabulate-get_or}

module _ {ℓ} {A : Type ℓ} where
  pub length-set : (xs : List A) (i : ℕ) (v : A) → length (set xs i v) ≡ length xs
  length-set [] i v = refl
  length-set (x ∷ xs) zero v = refl
  length-set (x ∷ xs) (suc i) v = ap suc (length-set xs i v)

  pub get_or-set :
      (xs : List A) (i : ℕ) (v default : A) → i < length xs → get_or (set xs i v) i default ≡ v
  get_or-set [] i v default h = absurd (omega (arith, h))
  get_or-set (x ∷ xs) zero v default h = refl
  get_or-set (x ∷ xs) (suc i) v default h = get_or-set xs i v default (omega (arith, h))

  pub get_or-set_other :
      (xs : List A) (i j : ℕ) (v default : A)
      → i ≢ j
      → get_or (set xs i v) j default ≡ get_or xs j default
  get_or-set_other [] i j v default h = refl
  get_or-set_other (x ∷ xs) zero zero v default h = absurd (h refl)
  get_or-set_other (x ∷ xs) zero (suc j) v default h = refl
  get_or-set_other (x ∷ xs) (suc i) zero v default h = refl
  get_or-set_other (x ∷ xs) (suc i) (suc j) v default h =
      get_or-set_other xs i j v default (λ e. h (ap suc e))

  pub set-get_or : (xs : List A) (i : ℕ) (default : A) → set xs i (get_or xs i default) ≡ xs
  set-get_or [] i default = refl
  set-get_or (x ∷ xs) zero default = refl
  set-get_or (x ∷ xs) (suc i) default = ap (◌∷◌ x) (set-get_or xs i default)

  pub set-set : (xs : List A) (i : ℕ) (v w : A) → set (set xs i v) i w ≡ set xs i w
  set-set [] i v w = refl
  set-set (x ∷ xs) zero v w = refl
  set-set (x ∷ xs) (suc i) v w = ap (◌∷◌ x) (set-set xs i v w)

  pub set-set_other :
      (xs : List A) (i j : ℕ) (v w : A) → i ≢ j → set (set xs i v) j w ≡ set (set xs j w) i v
  set-set_other [] i j v w h = refl
  set-set_other (x ∷ xs) zero zero v w h = absurd (h refl)
  set-set_other (x ∷ xs) zero (suc j) v w h = refl
  set-set_other (x ∷ xs) (suc i) zero v w h = refl
  set-set_other (x ∷ xs) (suc i) (suc j) v w h =
      ap (◌∷◌ x) (set-set_other xs i j v w (λ e. h (ap suc e)))

  overwrite-take : (xs : List A) (n : ℕ) → overwrite xs (take n xs) ≡ xs
  overwrite-take [] n = refl
  overwrite-take (x ∷ xs) zero = refl
  overwrite-take (x ∷ xs) (suc n) = ap (◌∷◌ x) (overwrite-take xs n)

  pub write_at-slice : (xs : List A) (b n : ℕ) → write_at xs b (slice xs b n) ≡ xs
  write_at-slice xs zero n = overwrite-take xs n
  write_at-slice [] (suc b) n = refl
  write_at-slice (x ∷ xs) (suc b) n = ap (◌∷◌ x) (write_at-slice xs b n)

  overwrite-take-set :
      (xs : List A) (n k : ℕ) (v : A) → k < n → overwrite (set xs k v) (take n xs) ≡ xs
  overwrite-take-set [] n k v h = refl
  overwrite-take-set (x ∷ xs) zero k v h = absurd (omega (arith, h))
  overwrite-take-set (x ∷ xs) (suc n) zero v h = ap (◌∷◌ x) (overwrite-take xs n)
  overwrite-take-set (x ∷ xs) (suc n) (suc k) v h =
      ap (◌∷◌ x) (overwrite-take-set xs n k v (omega (arith, h)))

  pub write_at-slice-set :
      (xs : List A) (b n i : ℕ) (v : A)
      → b ≤ i
      → i < b + n
      → write_at (set xs i v) b (slice xs b n) ≡ xs
  write_at-slice-set xs zero n i v h k = overwrite-take-set xs n i v (omega (arith, k))
  write_at-slice-set [] (suc b) n i v h k = refl
  write_at-slice-set (x ∷ xs) (suc b) n zero v h k = absurd (omega (arith, h))
  write_at-slice-set (x ∷ xs) (suc b) n (suc i) v h k =
      ap (◌∷◌ x) (write_at-slice-set xs b n i v (omega (arith, h)) (omega (arith, k)))

  take-set : (xs : List A) (n k : ℕ) (v : A) → take n (set xs k v) ≡ set (take n xs) k v
  take-set [] zero k v = refl
  take-set [] (suc n) k v = refl
  take-set (x ∷ xs) zero k v = refl
  take-set (x ∷ xs) (suc n) zero v = refl
  take-set (x ∷ xs) (suc n) (suc k) v = ap (◌∷◌ x) (take-set xs n k v)

  pub slice-set :
      (xs : List A) (b n i k : ℕ) (v : A)
      → i ≡ b + k
      → slice (set xs i v) b n ≡ set (slice xs b n) k v
  slice-set xs zero n i k v h = ap (λ j. take n (set xs j v)) (omega (arith, h)) ∙ take-set xs n k v
  slice-set [] (suc b) zero i k v h = refl
  slice-set [] (suc b) (suc n) i k v h = refl
  slice-set (x ∷ xs) (suc b) n zero k v h = absurd (omega (arith, h))
  slice-set (x ∷ xs) (suc b) n (suc i) k v h = slice-set xs b n i k v (omega (arith, h))

  take-set_beyond : (xs : List A) (n i : ℕ) (v : A) → n ≤ i → take n (set xs i v) ≡ take n xs
  take-set_beyond [] n i v h = refl
  take-set_beyond (x ∷ xs) zero i v h = refl
  take-set_beyond (x ∷ xs) (suc n) zero v h = absurd (omega (arith, h))
  take-set_beyond (x ∷ xs) (suc n) (suc i) v h =
      ap (◌∷◌ x) (take-set_beyond xs n i v (omega (arith, h)))

  pub slice-set_before :
      (xs : List A) (b n i : ℕ) (v : A) → i < b → slice (set xs i v) b n ≡ slice xs b n
  slice-set_before xs zero n i v h = absurd (omega (arith, h))
  slice-set_before [] (suc b) n i v h = refl
  slice-set_before (x ∷ xs) (suc b) n zero v h = refl
  slice-set_before (x ∷ xs) (suc b) n (suc i) v h = slice-set_before xs b n i v (omega (arith, h))

  pub slice-set_beyond :
      (xs : List A) (b n i : ℕ) (v : A) → b + n ≤ i → slice (set xs i v) b n ≡ slice xs b n
  slice-set_beyond xs zero n i v h = take-set_beyond xs n i v (omega (arith, h))
  slice-set_beyond [] (suc b) n i v h = refl
  slice-set_beyond (x ∷ xs) (suc b) n zero v h = absurd (omega (arith, h))
  slice-set_beyond (x ∷ xs) (suc b) n (suc i) v h = slice-set_beyond xs b n i v (omega (arith, h))

  get_or-take :
      (xs : List A) (n k : ℕ) (default : A)
      → k < n
      → get_or (take n xs) k default ≡ get_or xs k default
  get_or-take xs zero k default h = absurd (omega (arith, h))
  get_or-take [] (suc n) k default h = refl
  get_or-take (x ∷ xs) (suc n) zero default h = refl
  get_or-take (x ∷ xs) (suc n) (suc k) default h = get_or-take xs n k default (omega (arith, h))

  pub get_or-slice :
      (xs : List A) (b n i k : ℕ) (default : A)
      → k < n
      → i ≡ b + k
      → get_or (slice xs b n) k default ≡ get_or xs i default
  get_or-slice xs zero n i k default h e =
      get_or-take xs n k default h ∙ ap (λ j. get_or xs j default) (omega (arith, e))
  get_or-slice [] (suc b) zero i k default h e = refl
  get_or-slice [] (suc b) (suc n) i k default h e = refl
  get_or-slice (x ∷ xs) (suc b) n zero k default h e = absurd (omega (arith, e))
  get_or-slice (x ∷ xs) (suc b) n (suc i) k default h e =
      get_or-slice xs b n i k default h (omega (arith, e))

  pub take-split :
      (xs : List A) (m n k : ℕ) → m ≡ n + k → take m xs ≡ take n xs ++ take k (drop n xs)
  take-split xs m zero k e = ap (λ i. take i xs) (omega (arith, e))
  take-split xs zero (suc n) k e = absurd (omega (arith, e))
  take-split [] (suc m) (suc n) zero e = refl
  take-split [] (suc m) (suc n) (suc k) e = refl
  take-split (x ∷ xs) (suc m) (suc n) k e = ap (◌∷◌ x) (take-split xs m n k (omega (arith, e)))

  pub drop-drop : (xs : List A) (n b c : ℕ) → c ≡ b + n → drop n (drop b xs) ≡ drop c xs
  drop-drop xs n zero c e = ap (λ i. drop i xs) (omega (arith, e))
  drop-drop [] zero (suc b) zero e = refl
  drop-drop [] (suc n) (suc b) zero e = refl
  drop-drop [] zero (suc b) (suc c) e = refl
  drop-drop [] (suc n) (suc b) (suc c) e = refl
  drop-drop (x ∷ xs) n (suc b) zero e = absurd (omega (arith, e))
  drop-drop (x ∷ xs) n (suc b) (suc c) e = drop-drop xs n b c (omega (arith, e))

module _ {ℓ κ} {A : Type ℓ} (P : A → Type κ) where
  pub All-set : (xs : List A) (i : ℕ) (v : A) → All P xs → P v → All P (set xs i v)
  All-set [] i v h b = tt
  All-set (x ∷ xs) zero v (h, hs) b = (b, hs)
  All-set (x ∷ xs) (suc i) v (h, hs) b = (h, All-set xs i v hs b)

  pub All-get_or :
      (xs : List A) (i : ℕ) (default : A) → All P xs → P default → P (get_or xs i default)
  All-get_or [] i default h d = d
  All-get_or (x ∷ xs) zero default (h, hs) d = h
  All-get_or (x ∷ xs) (suc i) default (h, hs) d = All-get_or xs i default hs d

-- Lists that a loop over a range of indices fills in the same way agree at every index.
pub map-range_from {ℓ} :
    {A : Type ℓ} (f g : ℕ → A) (i n j : ℕ)
    → map f (range_from i n) ≡ map g (range_from i n)
    → i ≤ j
    → j < i + n
    → f j ≡ g j
unfolding range_from
map-range_from f g i zero j e low high = absurd (omega (arith, low, high))
map-range_from f g i (suc n) j e low high = elim (Bool-cases (i == j)) [
  | inl here ↦ subst (λ k. f k ≡ g k) (ground arith) (ap (λ l. get_or l 0 (f i)) e)
  | inr there ↦ map-range_from f g (i + 1) n j (ap (drop 1) e) (ground arith) (omega (arith, high))
]

-- A loop over a range of indices sees what it computes at them only.
pub map-range_from_cong {ℓ} :
    {A : Type ℓ} (f g : ℕ → A) (i n : ℕ)
    → ((j : ℕ) → i ≤ j → j < i + n → f j ≡ g j)
    → map f (range_from i n) ≡ map g (range_from i n)
unfolding range_from
map-range_from_cong f g i zero h = refl
map-range_from_cong f g i (suc n) h = ap₂ ◌∷◌ (h i (omega arith) (omega arith)) (
    map-range_from_cong f g (i + 1) n
      (λ j low high. h j (omega (arith, low)) (omega (arith, high))))

-- The entries of a slice, read one by one.
pub read-slice :
    (xs : List ℕ) (b n : ℕ)
    → b + n ≤ length xs
    → map (λ k. get_or xs (b + k) 0) (range_from 0 n) ≡ slice xs b n
unfolding tabulate
read-slice xs b n h =
    map-range_from_cong (λ k. get_or xs (b + k) 0) (λ k. get_or (slice xs b n) k 0) 0 n
      (λ k low high. sym (get_or-slice xs b n (b + k) k 0 (omega (arith, high)) refl))
    ∙ subst (λ m. map (λ k. get_or (slice xs b n) k 0) (range_from 0 m) ≡ slice xs b n)
        (length-take_le n (drop b xs) (omega (arith, h, length-drop b xs)))
        (tabulate-get_or (slice xs b n))
