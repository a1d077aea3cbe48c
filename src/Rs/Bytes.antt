-- ===== src/Rs/Bytes.antt =====
-- dmr-wire/src/rs.rs: exclusive or on bytes, and multiplication by the roots of the code.
use asl_dmr_bridge.Base.{
  ℕ, ◌+◌, ◌-◌, ◌*◌, ◌/◌, ◌%◌, ◌<◌, ◌≡◌, refl, arith, Bool, true, ◌&&◌, ◌==◌, ltb, ap, ap₂, sym, ◌∙◌,
  if◌then◌else◌, each_below, each_below_sound, IsByte,
}
use asl_dmr_bridge.Fec.{◌⊕◌}
use asl_dmr_bridge.Rs.{gmult}

-- Tables of two and of three arguments.
each_two :
    (m n : ℕ) (test : ℕ → ℕ → Bool) (a b : ℕ)
    → each_below m (λ a. each_below n (test a)) ≡ true
    → a < m
    → b < n
    → test a b ≡ true
each_two m n test a b h k l =
    each_below_sound n (test a) b (each_below_sound m (λ a. each_below n (test a)) a h k) l

split_table :
    each_below 256
      (λ a. each_below 256 (λ b. a ⊕ b == ((a / 16) ⊕ (b / 16)) * 16 + ((a % 16) ⊕ (b % 16))))
    ≡ true
unfolding each_below
split_table = refl

nibble_table :
    each_below 16 (λ a.
      each_below 16 (λ b.
        ltb (a ⊕ b) 16 && (a ⊕ b == b ⊕ a) && each_below 16 (λ c. (a ⊕ b) ⊕ c == a ⊕ (b ⊕ c))))
    ≡ true
unfolding each_below
nibble_table = refl

-- Multiplication by 2 in the field.
abbrev pub double : ℕ → ℕ
double x = if ltb x 128 then 2 * x else (2 * x - 256) ⊕ 29

double_table :
    each_below 256
      (λ a. ltb (double a) 256 && each_below 256 (λ b. double (a ⊕ b) == double a ⊕ double b))
    ≡ true
unfolding each_below
double_table = refl

gmult_table :
    each_below 256 (λ x.
      (gmult x 2 == double x)
      && (gmult x 4 == double (double x))
      && (gmult x 8 == double (double (double x))))
    ≡ true
unfolding each_below gmult
gmult_table = refl

module _ (a b : ℕ) (ha : IsByte a) (hb : IsByte b) where
  xor_split : a ⊕ b ≡ ((a / 16) ⊕ (b / 16)) * 16 + ((a % 16) ⊕ (b % 16))
  xor_split = ground (
    arith,
    each_two 256 256 (λ a b. a ⊕ b == ((a / 16) ⊕ (b / 16)) * 16 + ((a % 16) ⊕ (b % 16))) a b
        split_table ha hb,
  )

module _ (a b : ℕ) (ha : a < 16) (hb : b < 16) where
  nibble :
      (ltb (a ⊕ b) 16 && (a ⊕ b == b ⊕ a) && each_below 16 (λ c. (a ⊕ b) ⊕ c == a ⊕ (b ⊕ c))) ≡ true
  nibble =
      each_two 16 16
        (λ a b.
          ltb (a ⊕ b) 16 && (a ⊕ b == b ⊕ a) && each_below 16 (λ c. (a ⊕ b) ⊕ c == a ⊕ (b ⊕ c)))
        a b nibble_table ha hb

  nibble_bound : a ⊕ b < 16
  nibble_bound = ground (arith, nibble)

  nibble_comm : a ⊕ b ≡ b ⊕ a
  nibble_comm = ground (arith, nibble)

  nibble_assoc : (c : ℕ) → c < 16 → (a ⊕ b) ⊕ c ≡ a ⊕ (b ⊕ c)
  nibble_assoc c hc =
      ground
        (arith, each_below_sound 16 (λ c. (a ⊕ b) ⊕ c == a ⊕ (b ⊕ c)) c (ground (arith, nibble)) hc)

high : (a : ℕ) → IsByte a → a / 16 < 16
high a h = omega (arith, h)

low : (a : ℕ) → a % 16 < 16
low a = omega arith

pub xor-IsByte : (a b : ℕ) → IsByte a → IsByte b → IsByte (a ⊕ b)
xor-IsByte a b ha hb = omega (
  arith,
  xor_split a b ha hb,
  nibble_bound (a / 16) (b / 16) (high a ha) (high b hb),
  nibble_bound (a % 16) (b % 16) (low a) (low b),
)

pub xor_comm : (a b : ℕ) → IsByte a → IsByte b → a ⊕ b ≡ b ⊕ a
xor_comm a b ha hb =
    xor_split a b ha hb
    ∙ ap₂ (λ h l. h * 16 + l) (nibble_comm (a / 16) (b / 16) (high a ha) (high b hb))
        (nibble_comm (a % 16) (b % 16) (low a) (low b))
    ∙ sym (xor_split b a hb ha)

-- The halves of an exclusive or.
high_xor : (a b : ℕ) → IsByte a → IsByte b → (a ⊕ b) / 16 ≡ (a / 16) ⊕ (b / 16)
high_xor a b ha hb =
    omega (arith, xor_split a b ha hb, nibble_bound (a % 16) (b % 16) (low a) (low b))

low_xor : (a b : ℕ) → IsByte a → IsByte b → (a ⊕ b) % 16 ≡ (a % 16) ⊕ (b % 16)
low_xor a b ha hb =
    omega (arith, xor_split a b ha hb, nibble_bound (a % 16) (b % 16) (low a) (low b))

pub xor_assoc : (a b c : ℕ) → IsByte a → IsByte b → IsByte c → (a ⊕ b) ⊕ c ≡ a ⊕ (b ⊕ c)
xor_assoc a b c ha hb hc =
    xor_split (a ⊕ b) c (xor-IsByte a b ha hb) hc
    ∙ ap₂ (λ h l. h * 16 + l)
        (ap (λ h. h ⊕ (c / 16)) (high_xor a b ha hb)
          ∙ nibble_assoc (a / 16) (b / 16) (high a ha) (high b hb) (c / 16) (high c hc)
          ∙ ap (◌⊕◌ (a / 16)) (sym (high_xor b c hb hc)))
        (ap (λ l. l ⊕ (c % 16)) (low_xor a b ha hb)
          ∙ nibble_assoc (a % 16) (b % 16) (low a) (low b) (c % 16) (low c)
          ∙ ap (◌⊕◌ (a % 16)) (sym (low_xor b c hb hc)))
    ∙ sym (xor_split a (b ⊕ c) ha (xor-IsByte b c hb hc))

self_table : each_below 256 (λ a. (a ⊕ a == 0) && (a ⊕ 0 == a) && (0 ⊕ a == a)) ≡ true
unfolding each_below
self_table = refl

pub xor_self : (a : ℕ) → IsByte a → a ⊕ a ≡ 0
xor_self a h =
    ground (
      arith,
      each_below_sound 256 (λ a. (a ⊕ a == 0) && (a ⊕ 0 == a) && (0 ⊕ a == a)) a self_table h,
    )

pub xor_zero : (a : ℕ) → IsByte a → a ⊕ 0 ≡ a
xor_zero a h =
    ground (
      arith,
      each_below_sound 256 (λ a. (a ⊕ a == 0) && (a ⊕ 0 == a) && (0 ⊕ a == a)) a self_table h,
    )

-- The middle two of four change places.
pub xor_interchange :
    (a b c d : ℕ)
    → IsByte a
    → IsByte b
    → IsByte c
    → IsByte d
    → (a ⊕ b) ⊕ (c ⊕ d) ≡ (a ⊕ c) ⊕ (b ⊕ d)
xor_interchange a b c d ha hb hc hd =
    xor_assoc a b (c ⊕ d) ha hb (xor-IsByte c d hc hd)
    ∙ ap (◌⊕◌ a) (
        sym (xor_assoc b c d hb hc hd)
        ∙ ap (λ x. x ⊕ d) (xor_comm b c hb hc)
        ∙ xor_assoc c b d hc hb hd)
    ∙ sym (xor_assoc a c (b ⊕ d) ha hc (xor-IsByte b d hb hd))

-- The first of four changes place with the other three.
pub xor_turn :
    (a b c d : ℕ)
    → IsByte a
    → IsByte b
    → IsByte c
    → IsByte d
    → (a ⊕ b) ⊕ (c ⊕ d) ≡ ((d ⊕ a) ⊕ b) ⊕ c
xor_turn a b c d ha hb hc hd =
    ap (◌⊕◌ (a ⊕ b)) (xor_comm c d hc hd)
    ∙ sym (xor_assoc (a ⊕ b) d c hab hd hc)
    ∙ ap (λ x. x ⊕ c) (xor_comm (a ⊕ b) d hab hd ∙ sym (xor_assoc d a b hd ha hb))
  where
    hab : IsByte (a ⊕ b)
    hab = xor-IsByte a b ha hb

double_row :
    (a : ℕ)
    → IsByte a
    → (ltb (double a) 256 && each_below 256 (λ b. double (a ⊕ b) == double a ⊕ double b)) ≡ true
double_row a h =
    each_below_sound 256
      (λ a. ltb (double a) 256 && each_below 256 (λ b. double (a ⊕ b) == double a ⊕ double b)) a
      double_table h

pub double-IsByte : (a : ℕ) → IsByte a → IsByte (double a)
double-IsByte a h = ground (arith, double_row a h)

pub double_xor : (a b : ℕ) → IsByte a → IsByte b → double (a ⊕ b) ≡ double a ⊕ double b
double_xor a b ha hb = ground (
  arith,
  each_below_sound 256 (λ b. double (a ⊕ b) == double a ⊕ double b) b
      (ground (arith, double_row a ha)) hb,
)

gmult_row :
    (x : ℕ)
    → IsByte x
    → ((gmult x 2 == double x)
        && (gmult x 4 == double (double x))
        && (gmult x 8 == double (double (double x))))
      ≡ true
gmult_row x h =
    each_below_sound 256
      (λ x.
        (gmult x 2 == double x)
        && (gmult x 4 == double (double x))
        && (gmult x 8 == double (double (double x))))
      x gmult_table h

pub gmult_2 : (x : ℕ) → IsByte x → gmult x 2 ≡ double x
gmult_2 x h = ground (arith, gmult_row x h)

pub gmult_4 : (x : ℕ) → IsByte x → gmult x 4 ≡ double (double x)
gmult_4 x h = ground (arith, gmult_row x h)

pub gmult_8 : (x : ℕ) → IsByte x → gmult x 8 ≡ double (double (double x))
gmult_8 x h = ground (arith, gmult_row x h)
