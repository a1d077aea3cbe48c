-- ===== src/Bptc/Passes.antt =====
-- dmr-wire/src/bptc.rs: bptc_decode_correct goes over the matrix line by line; a line is a row or a column.
use asl_dmr_bridge.Base.{
  ℕ, zero, suc, ◌+◌, ◌*◌, ◌≤◌, ◌<◌, ◌≡◌, ◌≢◌, refl, arith, List, [], ◌∷◌, map, foldl, Bool, true,
  ◌&&◌, not, ◌==◌, ap, ap₂, ◌∙◌, length, get_or, set, range_from, set-get_or, set-set,
  set-set_other, get_or-set, get_or-set_other, some, Bool-cases,
}
use mathlib.Core.Logic.{◌⊎◌, inl, inr}
use asl_dmr_bridge.Bptc.{place, Progress}

-- What the positions hold.
abbrev pub read : List ℕ → List ℕ → List ℕ
read matrix positions = map (λ pos. get_or matrix pos 0) positions

-- No position is `pos`.
abbrev pub avoids : List ℕ → ℕ → Bool
avoids [] pos = true
avoids (p ∷ ps) pos = not (p == pos) && avoids ps pos

pub place-read : (ps matrix : List ℕ) → place ps (read matrix ps) matrix ≡ matrix
unfolding place
place-read [] matrix = refl
place-read (p ∷ ps) matrix = rw (set-get_or matrix p 0) (place-read ps matrix)

pub read-set_other :
    (ps matrix : List ℕ) (pos v : ℕ)
    → avoids ps pos ≡ true
    → read (set matrix pos v) ps ≡ read matrix ps
read-set_other [] matrix pos v h = refl
read-set_other (p ∷ ps) matrix pos v h =
    ap₂ ◌∷◌ (get_or-set_other matrix pos p v 0 (λ e. ground arith))
      (read-set_other ps matrix pos v (ground arith))

-- The positions of a column, fifteen apart.
abbrev pub line : ℕ → ℕ → ℕ → List ℕ
line a i n = map (λ k. a + k * 15) (range_from i n)

pub line-avoids :
    (a i n pos : ℕ)
    → ((k : ℕ) → i ≤ k → k < i + n → pos ≢ a + k * 15)
    → avoids (line a i n) pos ≡ true
unfolding range_from
line-avoids a i zero pos h = refl
line-avoids a i (suc n) pos h =
    let head = h i (omega arith) (omega arith) in
    let rest =
      line-avoids a (i + 1) n pos (λ k low high. h k (omega (arith, low)) (omega (arith, high))) in
    ground arith

pub read-set_at :
    (a i n k pos : ℕ) (matrix : List ℕ) (v : ℕ)
    → k < n
    → pos ≡ a + (i + k) * 15
    → pos < length matrix
    → read (set matrix pos v) (line a i n) ≡ set (read matrix (line a i n)) k v
unfolding range_from
read-set_at a i zero k pos matrix v h e b = absurd (omega (arith, h))
read-set_at a i (suc n) zero pos matrix v h e b =
    ap₂ ◌∷◌
      (ap (λ p. get_or (set matrix pos v) p 0) (omega (arith, e)) ∙ get_or-set matrix pos v 0 b)
      (read-set_other (line a (i + 1) n) matrix pos v
        (line-avoids a (i + 1) n pos (λ k low high. omega arith)))
read-set_at a i (suc n) (suc k) pos matrix v h e b =
    ap₂ ◌∷◌ (get_or-set_other matrix pos (a + i * 15) v 0 (omega arith))
      (read-set_at a (i + 1) n k pos matrix v (omega (arith, h)) (omega (arith, e)) b)

pub get_or-read :
    (a i n k pos : ℕ) (matrix : List ℕ)
    → k < n
    → pos ≡ a + (i + k) * 15
    → get_or (read matrix (line a i n)) k 0 ≡ get_or matrix pos 0
unfolding range_from
get_or-read a i zero k pos matrix h e = absurd (omega (arith, h))
get_or-read a i (suc n) zero pos matrix h e = ap (λ p. get_or matrix p 0) (omega (arith, e))
get_or-read a i (suc n) (suc k) pos matrix h e =
    get_or-read a (i + 1) n k pos matrix (omega (arith, h)) (omega (arith, e))

pub place-read-set :
    (a i n k pos : ℕ) (matrix : List ℕ) (v : ℕ)
    → k < n
    → pos ≡ a + (i + k) * 15
    → place (line a i n) (read matrix (line a i n)) (set matrix pos v) ≡ matrix
unfolding place range_from
place-read-set a i zero k pos matrix v h e = absurd (omega (arith, h))
place-read-set a i (suc n) zero pos matrix v h e =
    ap (place rest (read matrix rest)) (
      ap (λ q. set (set matrix q v) (a + i * 15) (get_or matrix (a + i * 15) 0)) (omega (arith, e))
      ∙ set-set matrix (a + i * 15) v (get_or matrix (a + i * 15) 0)
      ∙ set-get_or matrix (a + i * 15) 0)
    ∙ place-read rest matrix
  where
    rest : List ℕ
    rest = line a (i + 1) n
place-read-set a i (suc n) (suc k) pos matrix v h e =
    ap (place (line a (i + 1) n) (read matrix (line a (i + 1) n))) (
      set-set_other matrix pos (a + i * 15) v (get_or matrix (a + i * 15) 0) (omega arith)
      ∙ ap (λ m. set m pos v) (set-get_or matrix (a + i * 15) 0))
    ∙ place-read-set a (i + 1) n k pos matrix v (omega (arith, h)) (omega (arith, e))

==_cases : (a b : ℕ) → (a ≡ b) ⊎ (a ≢ b)
==_cases a b = elim (Bool-cases (a == b)) [
  | inl e ↦ inl (ground arith)
  | inr e ↦ inr (λ same. ground arith)
]

-- A pass takes the steps of a range of lines, in order.
module _ (step : Progress → ℕ → Progress) where
  -- A matrix that no step of a pass changes.
  pub pass-keeps :
      (matrix : List ℕ) (count i n : ℕ)
      → ((j : ℕ) → i ≤ j → j < i + n → step (some (matrix, count)) j ≡ some (matrix, count))
      → foldl step (some (matrix, count)) (range_from i n) ≡ some (matrix, count)
  unfolding range_from
  pass-keeps matrix count i zero kept = refl
  pass-keeps matrix count i (suc n) kept =
      ap (λ p. foldl step p (range_from (i + 1) n)) (kept i (omega arith) (omega arith))
      ∙ pass-keeps matrix count (i + 1) n
          (λ j low high. kept j (omega (arith, low)) (omega (arith, high)))

  -- A matrix that one step of a pass repairs, and the other steps keep.
  pub pass-repairs :
      (damaged matrix : List ℕ) (count at i n : ℕ)
      → i ≤ at
      → at < i + n
      → ((j : ℕ)
          → i ≤ j
          → j < i + n
          → j ≢ at
          → step (some (damaged, count)) j ≡ some (damaged, count))
      → step (some (damaged, count)) at ≡ some (matrix, count + 1)
      → ((j : ℕ) → i ≤ j → j < i + n → step (some (matrix, count + 1)) j ≡ some (matrix, count + 1))
      → foldl step (some (damaged, count)) (range_from i n) ≡ some (matrix, count + 1)
  unfolding range_from
  pass-repairs damaged matrix count at i zero low high others hit kept =
      absurd (omega (arith, low, high))
  pass-repairs damaged matrix count at i (suc n) low high others hit kept = elim (==_cases i at) [
    | inl here ↦
        ap (λ p. foldl step p (range_from (i + 1) n)) (ap (step (some (damaged, count))) here ∙ hit)
        ∙ pass-keeps matrix (count + 1) (i + 1) n
            (λ j l h. kept j (omega (arith, l)) (omega (arith, h)))
    | inr later ↦
        ap (λ p. foldl step p (range_from (i + 1) n)) (others i (omega arith) (omega arith) later)
        ∙ pass-repairs damaged matrix count at (i + 1) n (omega (arith, low, later))
            (omega (arith, high)) (λ j l h. others j (omega (arith, l)) (omega (arith, h))) hit
            (λ j l h. kept j (omega (arith, l)) (omega (arith, h)))
  ]
