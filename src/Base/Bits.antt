-- ===== src/Base/Bits.antt =====
-- Bit strings with one number per bit, and claims about all of one length by evaluation.
use Prim.Native.Nat.{ℕ, zero, suc}
use mathlib.Core.Path.{◌≡◌}
use mathlib.Core.List.{List, [], ◌∷◌}
use native.Mathlib.Omega.{arith}
use mathlib.Core.Path.{subst, sym}
use mathlib.Core.Logic.{◌⊎◌, inl, inr}
use mathlib.Core.Bool.{Bool, true, ◌&&◌}
use asl_dmr_bridge.Base.Lists.{length, All}

abbrev pub IsBit : ℕ → Type 0
IsBit b = (b ≡ 0) ⊎ (b ≡ 1)

-- The bit strings of a length.
abbrev pub IsBits : ℕ → List ℕ → Type 0
IsBits zero [] = Unit
IsBits zero (b ∷ bs) = ⊥
IsBits (suc n) [] = ⊥
IsBits (suc n) (b ∷ bs) = IsBit b × IsBits n bs

unfoldable pub all_bits : ℕ → (List ℕ → Bool) → Bool
all_bits zero p = p []
all_bits (suc n) p = all_bits n (λ bs. p (0 ∷ bs)) && all_bits n (λ bs. p (1 ∷ bs))

pub all_bits_sound :
    (n : ℕ) (p : List ℕ → Bool) (bs : List ℕ) → all_bits n p ≡ true → IsBits n bs → p bs ≡ true
unfolding all_bits
all_bits_sound zero p [] h k = h
all_bits_sound zero p (b ∷ bs) h k = elim k [ ]
all_bits_sound (suc n) p [] h k = elim k [ ]
all_bits_sound (suc n) p (b ∷ bs) h (inl e, k) =
    subst (λ c. p (c ∷ bs) ≡ true) (sym e) (all_bits_sound n (λ cs. p (0 ∷ cs)) bs (ground arith) k)
all_bits_sound (suc n) p (b ∷ bs) h (inr e, k) =
    subst (λ c. p (c ∷ bs) ≡ true) (sym e) (all_bits_sound n (λ cs. p (1 ∷ cs)) bs (ground arith) k)

pub IsBits-All : (n : ℕ) (bs : List ℕ) → All IsBit bs → length bs ≡ n → IsBits n bs
IsBits-All zero [] h e = tt
IsBits-All zero (b ∷ bs) h e = absurd (omega (arith, e))
IsBits-All (suc n) [] h e = absurd (omega (arith, e))
IsBits-All (suc n) (b ∷ bs) (h, hs) e = (h, IsBits-All n bs hs (omega (arith, e)))
