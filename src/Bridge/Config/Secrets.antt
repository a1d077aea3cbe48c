-- ===== src/Bridge/Config/Secrets.antt =====
-- bridge/src/config.rs: what a secret file supplies.
use asl_dmr_bridge.Base.{
  ℕ, ◌≡◌, refl, arith, List, [], ◌∷◌, ◌++◌, Bool, true, false, some, if◌then◌else◌, All, ap, sym,
  ◌∙◌,
}
use mathlib.Core.Path.{subst}
use asl_dmr_bridge.Bridge.Config.{
  is_whitespace, trim_start, trim_end, before, is_empty, has_newline, SecretFile, supplied,
  not_supplied, io_failed, multiline, secret_of, read_secret_file,
}

abbrev pub IsBlank : ℕ → Type 0
IsBlank c = is_whitespace c ≡ true

abbrev pub starts_blank : List ℕ → Bool
starts_blank [] = false
starts_blank (c ∷ text) = is_whitespace c

abbrev pub ends_blank : List ℕ → Bool
ends_blank [] = false
ends_blank (c ∷ []) = is_whitespace c
ends_blank (c ∷ d ∷ text) = ends_blank (d ∷ text)

trim_start-splits :
    (text : List ℕ)
    → (front : List ℕ) × (text ≡ front ++ trim_start text)
      × All IsBlank front
      × (starts_blank (trim_start text) ≡ false)
unfolding trim_start
trim_start-splits [] = ([], refl, tt, refl)
trim_start-splits (c ∷ text) = by_first (is_whitespace c) refl (trim_start-splits text)
  where
    by_first :
        (b : Bool)
        → is_whitespace c ≡ b
        → ((front : List ℕ) × (text ≡ front ++ trim_start text)
            × All IsBlank front
            × (starts_blank (trim_start text) ≡ false))
        → (front : List ℕ) × (c ∷ text ≡ front ++ (if b then trim_start text else c ∷ text))
          × All IsBlank front
          × (starts_blank (if b then trim_start text else c ∷ text) ≡ false)
    by_first true e (front, split, blank, stop) =
        (c ∷ front, ap (λ t. c ∷ t) split, (e, blank), stop)
    by_first false e ih = ([], refl, tt, e)

trim_end-splits :
    (text : List ℕ)
    → (back : List ℕ) × (text ≡ trim_end text ++ back)
      × All IsBlank back
      × (ends_blank (trim_end text) ≡ false)
unfolding trim_end
trim_end-splits [] = ([], refl, tt, refl)
trim_end-splits (c ∷ text) =
    let (back, split, blank, stop) = trim_end-splits text in
    by_rest (trim_end text) (is_whitespace c) refl back split blank stop
  where
    by_rest :
        (rest : List ℕ) (b : Bool)
        → is_whitespace c ≡ b
        → (back : List ℕ) → text ≡ rest ++ back
        → All IsBlank back
        → ends_blank rest ≡ false
        → (back' : List ℕ) × (c ∷ text ≡ before c rest ++ back')
          × All IsBlank back'
          × (ends_blank (before c rest) ≡ false)
    by_rest (d ∷ rest) b e back split blank stop = (back, ap (λ t. c ∷ t) split, blank, stop)
    by_rest [] b e back split blank stop = by_blank b e
      where
        by_blank :
            (b : Bool)
            → is_whitespace c ≡ b
            → (back' : List ℕ) × (c ∷ text ≡ before c [] ++ back')
              × All IsBlank back'
              × (ends_blank (before c []) ≡ false)
        by_blank true e = (
          c ∷ back,
          ap (λ t. c ∷ t) split ∙ ap (λ b. (if b then [] else c ∷ []) ++ (c ∷ back)) (sym e),
          (e, blank),
          ap (λ b. ends_blank (if b then [] else c ∷ [])) e,
        )
        by_blank false e = (
          back,
          ap (λ t. c ∷ t) split ∙ ap (λ b. (if b then [] else c ∷ []) ++ back) (sym e),
          blank,
          ap (λ b. ends_blank (if b then [] else c ∷ [])) e ∙ e,
        )

-- The first character stays the first.
trim_end-starts : (text : List ℕ) → starts_blank text ≡ false → starts_blank (trim_end text) ≡ false
unfolding trim_end
trim_end-starts [] h = refl
trim_end-starts (c ∷ text) h = by_rest (trim_end text)
  where
    by_rest : (rest : List ℕ) → starts_blank (before c rest) ≡ false
    by_rest (d ∷ rest) = h
    by_rest [] = ap (λ b. starts_blank (if b then [] else c ∷ [])) h ∙ h

-- The text that a file supplies.
abbrev pub IsSecret : List ℕ → Type 0
IsSecret secret =
    (is_empty secret ≡ false)
    × (has_newline secret ≡ false)
    × (starts_blank secret ≡ false)
    × (ends_blank secret ≡ false)

secret_of-supplied :
    (trimmed secret : List ℕ)
    → secret_of trimmed ≡ supplied secret
    → (trimmed ≡ secret) × (is_empty trimmed ≡ false) × (has_newline trimmed ≡ false)
secret_of-supplied trimmed secret e = by_tests (is_empty trimmed) (has_newline trimmed) e refl refl
  where
    text_of : SecretFile → List ℕ
    text_of (supplied s) = s
    text_of not_supplied = []
    text_of io_failed = []
    text_of multiline = []

    by_tests :
        (empty many : Bool)
        → (if empty then not_supplied else if many then multiline else supplied trimmed)
          ≡ supplied secret
        → is_empty trimmed ≡ empty
        → has_newline trimmed ≡ many
        → (trimmed ≡ secret) × (is_empty trimmed ≡ false) × (has_newline trimmed ≡ false)
    by_tests true many f g h = ground (arith, f)
    by_tests false true f g h = ground (arith, f)
    by_tests false false f g h = (ap text_of f, g, h)

-- What a secret file supplies is a line of it without the white space at its edges: it is not empty, has no
-- newline, neither starts nor ends with white space, and the rest of the file is white space.
pub read_secret_file-IsSecret :
    (raw secret : List ℕ)
    → read_secret_file (some raw) ≡ supplied secret
    → (front : List ℕ) × (back : List ℕ) × (raw ≡ front ++ (secret ++ back))
      × All IsBlank front
      × All IsBlank back
      × IsSecret secret
unfolding read_secret_file
read_secret_file-IsSecret raw secret e =
    let (front, split, front_blank, starts) = trim_start-splits raw in
    let (back, split', back_blank, ends) = trim_end-splits (trim_start raw) in
    let (same, filled, single) = secret_of-supplied (trim_end (trim_start raw)) secret e in
    (
      front,
      back,
      split ∙ ap (λ t. front ++ t) split' ∙ ap (λ t. front ++ (t ++ back)) same,
      front_blank,
      back_blank,
      subst IsSecret same (filled, single, trim_end-starts (trim_start raw) starts, ends),
    )
