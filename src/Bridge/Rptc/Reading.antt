-- ===== src/Bridge/Rptc/Reading.antt =====
-- bridge/src/network/brandmeister.rs: texts and numbers in columns of a fixed width.
use asl_dmr_bridge.Base.{
  ℕ, zero, suc, ◌+◌, ◌-◌, ◌*◌, ◌/◌, ◌%◌, ◌^◌, ◌≡◌, ◌<◌, ◌≤◌, refl, arith, List, [], ◌∷◌, ◌++◌, map,
  Bool, true, false, ◌&&◌, not, Option, none, some, ltb, ◌==◌, ==_iff, if◌then◌else◌, length,
  length-append, length-replicate, length-take_le, take, take_all, take-append, drop, replicate, ap,
  ap₂, sym, ◌∙◌, Bool-cases, inl, inr,
}
use mathlib.Core.Path.{subst}
use asl_dmr_bridge.Bridge.Rptc.{
  Frequency, Callsign, frequency, callsign, zero_padded, all_alphanumeric, is_ascii_alphanumeric,
  cut_at, is_char_boundary, shorter, fmt_str, concat,
}

-- A reader of columns of given widths.
abbrev pub columns : List ℕ → List ℕ → List (List ℕ)
columns [] bytes = []
columns (w ∷ ws) bytes = take w bytes ∷ columns ws (drop w bytes)

abbrev pub widths : List ℕ
widths = 8 ∷ 9 ∷ 9 ∷ 2 ∷ 2 ∷ 8 ∷ 9 ∷ 3 ∷ 20 ∷ 19 ∷ 1 ∷ 124 ∷ 40 ∷ 40 ∷ []

abbrev pub decimal_from : ℕ → List ℕ → ℕ
decimal_from acc [] = acc
decimal_from acc (d ∷ ds) = decimal_from (acc * 10 + (d - 48)) ds

abbrev pub until_space : List ℕ → List ℕ
until_space [] = []
until_space (b ∷ bytes) = let rest = until_space bytes in if b == 32 then [] else b ∷ rest

pub drop_first : (xs ys : List ℕ) → drop (length xs) (xs ++ ys) ≡ ys
drop_first [] ys = refl
drop_first (x ∷ xs) ys = drop_first xs ys

pub columns-concat : (xss : List (List ℕ)) → columns (map length xss) (concat xss) ≡ xss
columns-concat [] = refl
columns-concat (xs ∷ xss) =
    ap₂ (λ x rest. x ∷ rest) (take-append (length xs) xs (concat xss) refl)
      (ap (columns (map length xss)) (drop_first xs (concat xss)) ∙ columns-concat xss)

abbrev pub sum : List ℕ → ℕ
sum [] = 0
sum (n ∷ ns) = n + sum ns

pub length-concat : (xss : List (List ℕ)) → length (concat xss) ≡ sum (map length xss)
length-concat [] = refl
length-concat (xs ∷ xss) =
    length-append xs (concat xss) ∙ ap (λ n. length xs + n) (length-concat xss)

pub cut_at_le : (value : List ℕ) (i : ℕ) → cut_at value i ≤ i
unfolding cut_at
cut_at_le value zero = omega arith
cut_at_le value (suc i) = elim (Bool-cases (is_char_boundary value (suc i))) [
  | inl e ↦ simp e (omega arith)
  | inr e ↦ simp e (omega (arith, cut_at_le value i))
]

pub shorter_le : (a b : ℕ) → (shorter a b ≤ a) × (shorter a b ≤ b)
shorter_le a b = ground arith

-- Whatever is written into a column fills it.
pub length-fmt_str : (value : List ℕ) (width : ℕ) → length (fmt_str value width) ≡ width
unfolding fmt_str
length-fmt_str value width =
    let cut = cut_at value (shorter (length value) width) in
    let below = cut_at_le value (shorter (length value) width) in
    let within = shorter_le (length value) width in
    let taken = length-take_le cut value (omega (arith, below, within)) in
    length-append (take cut value) (replicate (width - length (take cut value)) 32)
    ∙ ap (λ n. length (take cut value) + n) (length-replicate (width - length (take cut value)) 32)
    ∙ omega (arith, taken, below, within)

pub cut_at_whole : (value : List ℕ) (n : ℕ) → n ≡ length value → cut_at value n ≡ n
unfolding cut_at
cut_at_whole value zero e = refl
cut_at_whole value (suc i) e = simp ((==_iff (suc i) (length value)).1 e) refl

-- What is short enough is written whole.
pub fmt_str-whole :
    (value : List ℕ) (width : ℕ)
    → length value ≤ width
    → fmt_str value width ≡ value ++ replicate (width - length value) 32
unfolding fmt_str
fmt_str-whole value width h =
    ap (λ s. s ++ replicate (width - length s) 32)
      (take_all (cut_at value (shorter (length value) width)) value
        (sym (cut_at_whole value _ whole ∙ whole)))
  where
    whole : shorter (length value) width ≡ length value
    whole = ground (arith, h)

pub length-zero_padded : (width n : ℕ) → length (zero_padded width n) ≡ width
unfolding zero_padded
length-zero_padded zero n = refl
length-zero_padded (suc width) n =
    length-append (zero_padded width (n / 10)) _ ∙ omega (arith, length-zero_padded width (n / 10))

pub decimal-snoc :
    (acc : ℕ) (ds : List ℕ) (d : ℕ)
    → decimal_from acc (ds ++ (d ∷ [])) ≡ decimal_from acc ds * 10 + (d - 48)
decimal-snoc acc [] d = refl
decimal-snoc acc (c ∷ ds) d = decimal-snoc (acc * 10 + (c - 48)) ds d

pub ten_times : (width : ℕ) → 10 ^ suc width ≡ 10 ^ width * 10
ten_times width = omega arith

pub tenth : (p n : ℕ) → n < p * 10 → n / 10 < p
tenth p n h = omega (arith, h)

pub decimal-zero_padded : (width n : ℕ) → n < 10 ^ width → decimal_from 0 (zero_padded width n) ≡ n
unfolding zero_padded
decimal-zero_padded zero n h = omega (arith, h)
decimal-zero_padded (suc width) n h =
    decimal-snoc 0 (zero_padded width (n / 10)) (48 + n % 10)
    ∙ ap (λ m. m * 10 + (48 + n % 10 - 48))
        (decimal-zero_padded width (n / 10)
          (tenth (10 ^ width) n (subst (λ p. n < p) (ten_times width) h)))
    ∙ omega arith

pub until_space-padded :
    (bytes : List ℕ) (n : ℕ)
    → all_alphanumeric bytes ≡ true
    → until_space (bytes ++ replicate n 32) ≡ bytes
until_space-padded [] zero h = refl
until_space-padded [] (suc n) h = refl
until_space-padded (b ∷ bytes) n h =
    let (is_alnum, rest) = both (is_ascii_alphanumeric b) (all_alphanumeric bytes) h in
    ap (λ s. if s then [] else b ∷ until_space (bytes ++ replicate n 32)) (no_space b is_alnum)
    ∙ ap (λ bs. b ∷ bs) (until_space-padded bytes n rest)
  where
    both : (p q : Bool) → p && q ≡ true → (p ≡ true) × (q ≡ true)
    both true q e = (refl, e)
    both false q e = ground arith

    no_space : (c : ℕ) → is_ascii_alphanumeric c ≡ true → (c == 32) ≡ false
    no_space c e = ground (arith, e)

pub frequency_lem : (v : ℕ) (f : Frequency) → frequency v ≡ some f → f.hz < 10 ^ 9
unfolding frequency
frequency_lem v f e = ground (arith, e)

pub callsign_lem :
    (s : List ℕ) (c : Callsign)
    → callsign s ≡ some c
    → (length c.as_str ≤ 8) × (all_alphanumeric c.as_str ≡ true)
unfolding callsign
callsign_lem s c e =
    by_tests (length s == 0) (ltb 8 (length s)) (all_alphanumeric s) e refl refl refl
  where
    text_of : Option Callsign → List ℕ
    text_of none = []
    text_of (some x) = x.as_str

    short : (n : ℕ) → false ≡ ltb 8 n → n ≤ 8
    short n h = ground (arith, h)

    by_tests :
        (empty long alnum : Bool)
        → (if empty
            then none
            else if long
            then none
            else if not alnum
            then none
            else some (record { as_str = s }))
          ≡ some c
        → (empty ≡ (length s == 0))
        → (long ≡ ltb 8 (length s))
        → (alnum ≡ all_alphanumeric s)
        → (length c.as_str ≤ 8) × (all_alphanumeric c.as_str ≡ true)
    by_tests false false true f g h k =
        subst (λ x. (length x ≤ 8) × (all_alphanumeric x ≡ true)) (ap text_of f)
          (short (length s) h, sym k)
    by_tests true long alnum f g h k = ground (arith, f)
    by_tests false true alnum f g h k = ground (arith, f)
    by_tests false false false f g h k = ground (arith, f)
