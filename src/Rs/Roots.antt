-- ===== src/Rs/Roots.antt =====
-- dmr-wire/src/rs.rs: the roots of the generator polynomial.
use asl_dmr_bridge.Base.{ℕ, ◌≡◌, refl, Bool, true, ◌&&◌, ◌==◌, ltb, ap, ◌∙◌, IsByte, each_below}
use asl_dmr_bridge.Fec.{◌⊕◌}
use asl_dmr_bridge.Rs.{gmult}
use asl_dmr_bridge.Rs.Bytes.{double, double-IsByte, double_xor}

pub products_table :
    each_below 256 (λ d. ltb (gmult 64 d) 256 && ltb (gmult 56 d) 256 && ltb (gmult 14 d) 256)
    ≡ true
unfolding each_below gmult
products_table = refl

-- Whether the generator polynomial vanishes at the root that `by` multiplies with.
abbrev pub vanishes : (ℕ → ℕ) → ℕ → Bool
vanishes by d = (by (by (gmult 14 d)) ⊕ by (gmult 56 d)) ⊕ gmult 64 d == by (by (by d))

pub record IsRoot (by : ℕ → ℕ) : Type 0 where
  pub zero : by 0 ≡ 0
  pub byte : (a : ℕ) → IsByte a → IsByte (by a)
  pub linear : (a b : ℕ) → IsByte a → IsByte b → by (a ⊕ b) ≡ by a ⊕ by b
  pub root : each_below 256 (vanishes by) ≡ true

pub double-IsRoot : IsRoot double
unfolding each_below gmult
double-IsRoot = record { zero = refl; byte = double-IsByte; linear = double_xor; root = refl }

pub double_twice-IsRoot : IsRoot (λ a. double (double a))
unfolding each_below gmult
double_twice-IsRoot = record {
  zero = refl;
  byte = λ a h. double-IsByte _ (double-IsByte a h);
  linear = λ a b ha hb.
      ap double (double_xor a b ha hb) ∙ double_xor _ _ (double-IsByte a ha) (double-IsByte b hb);
  root = refl;
}

pub double_thrice-IsRoot : IsRoot (λ a. double (double (double a)))
unfolding each_below gmult
double_thrice-IsRoot = record {
  zero = refl;
  byte = λ a h. double-IsByte _ (double_twice-IsRoot.byte a h);
  linear = λ a b ha hb.
      ap double (double_twice-IsRoot.linear a b ha hb)
      ∙ double_xor _ _ (double_twice-IsRoot.byte a ha) (double_twice-IsRoot.byte b hb);
  root = refl;
}
