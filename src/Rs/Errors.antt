-- ===== src/Rs/Errors.antt =====
-- dmr-wire/src/rs.rs: what one wrong byte does to the value of a word at a root.
use asl_dmr_bridge.Base.{
  ℕ, zero, suc, ◌+◌, ◌≡◌, refl, arith, List, [], ◌∷◌, ap, sym, ◌∙◌, length, set, All, IsByte,
}
use asl_dmr_bridge.Fec.{◌⊕◌, bit}
use asl_dmr_bridge.Rs.Bytes.{xor-IsByte, xor_assoc, xor_comm}
use asl_dmr_bridge.Rs.Roots.{IsRoot}
use asl_dmr_bridge.Rs.CodeWords.{horner}

-- The same multiplication `n` times.
unfoldable pub iterate : (ℕ → ℕ) → ℕ → ℕ → ℕ
iterate by zero x = x
iterate by (suc n) x = iterate by n (by x)

module _ (by : ℕ → ℕ) (r : IsRoot by) where
  pub iterate-IsByte : (n e : ℕ) → IsByte e → IsByte (iterate by n e)
  unfolding iterate
  iterate-IsByte zero e h = h
  iterate-IsByte (suc n) e h = iterate-IsByte n (by e) (r.byte e h)

  pub horner-error :
      (acc e : ℕ) (word : List ℕ)
      → IsByte acc
      → IsByte e
      → All IsByte word
      → horner by r (acc ⊕ e) word ≡ horner by r acc word ⊕ iterate by (length word) e
  unfolding iterate
  horner-error acc e [] ha he h = refl
  horner-error acc e (c ∷ word) ha he (hc, h) =
      ap (λ x. horner by r x word)
        (ap (λ x. x ⊕ c) (r.linear acc e ha he)
          ∙ xor_assoc (by acc) (by e) c (r.byte acc ha) (r.byte e he) hc
          ∙ ap (◌⊕◌ (by acc)) (xor_comm (by e) c (r.byte e he) hc)
          ∙ sym (xor_assoc (by acc) c (by e) (r.byte acc ha) hc (r.byte e he)))
      ∙ horner-error (by acc ⊕ c) (by e) word (xor-IsByte _ _ (r.byte acc ha) hc) (r.byte e he) h

  pub horner-set :
      (acc e k p : ℕ) (word : List ℕ)
      → IsByte acc
      → IsByte e
      → All IsByte word
      → length word ≡ k + suc p
      → horner by r acc (set word k (bit word k ⊕ e)) ≡ horner by r acc word ⊕ iterate by p e
  horner-set acc e k p [] ha he h size = absurd (omega (arith, size))
  horner-set acc e zero p (c ∷ word) ha he (hc, h) size =
      ap (λ x. horner by r x word) (sym (xor_assoc (by acc) c e (r.byte acc ha) hc he))
      ∙ horner-error (by acc ⊕ c) e word (xor-IsByte _ _ (r.byte acc ha) hc) he h
      ∙ ap (λ n. horner by r (by acc ⊕ c) word ⊕ iterate by n e) (omega (arith, size))
  horner-set acc e (suc k) p (c ∷ word) ha he (hc, h) size =
      horner-set (by acc ⊕ c) e k p word (xor-IsByte _ _ (r.byte acc ha) hc) he h
        (omega (arith, size))
