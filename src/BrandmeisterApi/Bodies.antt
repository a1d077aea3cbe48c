-- ===== src/BrandmeisterApi/Bodies.antt =====
-- brandmeister-api/src/client.rs: what is read of a body, and what of an error's body gets into messages.
use asl_dmr_bridge.Base.{
  ℕ, zero, suc, ◌+◌, ◌-◌, ◌/◌, ◌%◌, ◌≤◌, ◌<◌, ◌≡◌, ◌↔◌, refl, arith, List, [], ◌∷◌, ◌++◌, Bool,
  true, false, Option, none, some, ltb, leb, if◌then◌else◌, Bool-cases, Option-cases, inl, inr, ap,
  sym, ◌∙◌, length, length-append, take, All, All-append, All-take, IsByte,
}
use mathlib.Core.Path.{subst}
use asl_dmr_bridge.BrandmeisterApi.{
  is_printable, hex, escaped, needs, truncate_from, truncate_body, read_chunks, read_capped,
  Response, Result, ok, err, announces_more,
}

abbrev pub IsPrintable : ℕ → Type 0
IsPrintable c = (32 ≤ c) × (c ≤ 126)

-- The whole of a text, escaped.
abbrev pub escaped_all : List ℕ → List ℕ
escaped_all [] = []
escaped_all (b ∷ bytes) = escaped b ++ escaped_all bytes

escaped-IsPrintable : (b : ℕ) → IsByte b → All IsPrintable (escaped b)
escaped-IsPrintable b h = chosen (is_printable b) refl
  where
    hex-IsPrintable : (d : ℕ) → d < 16 → IsPrintable (hex d)
    hex-IsPrintable d h = (ground arith, ground arith)

    chosen :
        (p : Bool)
        → is_printable b ≡ p
        → All IsPrintable (if p then b ∷ [] else 92 ∷ 120 ∷ hex (b / 16) ∷ hex (b % 16) ∷ [])
    chosen true e = ((ground arith, ground arith), tt)
    chosen false e = (
      (omega arith, omega arith),
      (
        (omega arith, omega arith),
        (hex-IsPrintable (b / 16) (omega (arith, h)), (hex-IsPrintable (b % 16) (omega arith), tt)),
      ),
    )

length-escaped : (b : ℕ) → length (escaped b) ≡ needs b
length-escaped b = chosen (is_printable b)
  where
    chosen :
        (p : Bool)
        → length (if p then b ∷ [] else 92 ∷ 120 ∷ hex (b / 16) ∷ hex (b % 16) ∷ [])
          ≡ (if p then 1 else 4)
    chosen true = refl
    chosen false = refl

-- What the loop leaves: printable text within the cap, and all of it where it fits.
abbrev Bounded : ℕ → List ℕ → List ℕ → Type 0
Bounded max whole text =
    All IsPrintable text × ((length text ≤ max) × (length whole ≤ max → text ≡ whole))

append_assoc : (xs ys zs : List ℕ) → (xs ++ ys) ++ zs ≡ xs ++ (ys ++ zs)
append_assoc [] ys zs = refl
append_assoc (x ∷ xs) ys zs = ap (◌∷◌ x) (append_assoc xs ys zs)

append_nil : (xs : List ℕ) → xs ++ [] ≡ xs
append_nil [] = refl
append_nil (x ∷ xs) = ap (◌∷◌ x) (append_nil xs)

length-take_front : (n : ℕ) (xs : List ℕ) → length (take n xs) ≤ n
length-take_front zero xs = omega arith
length-take_front (suc n) [] = omega arith
length-take_front (suc n) (x ∷ xs) = omega (arith, length-take_front n xs)

above : (a b : ℕ) → ltb a b ≡ true → a < b
above a b h = ground arith

at_most : (a b : ℕ) → ltb a b ≡ false → b ≤ a
at_most a b h = ground arith

module _ (max : ℕ) where
  cut-Bounded :
      (out whole : List ℕ)
      → All IsPrintable out
      → length out ≤ max
      → max < length whole
      → Bounded max whole (if leb 3 max then take (max - 3) out ++ (46 ∷ 46 ∷ 46 ∷ []) else out)
  cut-Bounded out whole h k more = chosen (leb 3 max) refl
    where
      chosen :
          (b : Bool)
          → leb 3 max ≡ b
          → Bounded max whole (if b then take (max - 3) out ++ (46 ∷ 46 ∷ 46 ∷ []) else out)
      chosen true e = (
        All-append IsPrintable (take (max - 3) out) (46 ∷ 46 ∷ 46 ∷ [])
            (All-take IsPrintable (max - 3) out h)
            (
              (omega arith, omega arith),
              ((omega arith, omega arith), ((omega arith, omega arith), tt)),
            ),
        (
          within (length-take_front (max - 3) out)
              (length-append (take (max - 3) out) (46 ∷ 46 ∷ 46 ∷ [])) (ground arith),
          λ fits. absurd (omega (arith, fits, more)),
        ),
      )
        where
          within :
              length (take (max - 3) out) ≤ max - 3
              → length (take (max - 3) out ++ (46 ∷ 46 ∷ 46 ∷ [])) ≡ length (take (max - 3) out) + 3
              → 3 ≤ max
              → length (take (max - 3) out ++ (46 ∷ 46 ∷ 46 ∷ [])) ≤ max
          within a b c = omega (arith, a, b, c)
      chosen false e = (h, (k, λ fits. absurd (omega (arith, fits, more))))

  truncate_from-Bounded :
      (bytes out : List ℕ)
      → All IsByte bytes
      → All IsPrintable out
      → length out ≤ max
      → Bounded max (out ++ escaped_all bytes) (truncate_from max out bytes)
  unfolding truncate_from
  truncate_from-Bounded [] out h k l = (k, (l, λ fits. sym (append_nil out)))
  truncate_from-Bounded (b ∷ bytes) out (h, hs) k l =
      elim (Bool-cases (ltb max (length out + needs b))) [
        | inl over ↦
            subst (λ c. Bounded max (out ++ escaped_all (b ∷ bytes)) (if c then cut else rest))
              (sym over)
              (cut-Bounded out (out ++ escaped_all (b ∷ bytes)) k l (
                omega (
                  arith,
                  above max _ over,
                  length-append out (escaped b ++ escaped_all bytes),
                  length-append (escaped b) (escaped_all bytes),
                  length-escaped b,
                )))
        | inr room ↦
            subst (λ c. Bounded max (out ++ escaped_all (b ∷ bytes)) (if c then cut else rest))
              (sym room)
              (subst (λ whole. Bounded max whole rest)
                (append_assoc out (escaped b) (escaped_all bytes))
                (truncate_from-Bounded bytes (out ++ escaped b) hs
                  (All-append IsPrintable out (escaped b) k (escaped-IsPrintable b h))
                  (omega
                    (arith, at_most max _ room, length-append out (escaped b), length-escaped b))))
      ]
    where
      cut : List ℕ
      cut = if leb 3 max then take (max - 3) out ++ (46 ∷ 46 ∷ 46 ∷ []) else out

      rest : List ℕ
      rest = truncate_from max (out ++ escaped b) bytes

-- Of an error's body, whatever its bytes, a message gets printable ASCII only, and at most `max` bytes of
-- it; a body that fits when its other bytes are escaped is there as a whole.
pub truncate_body-Bounded :
    (body : List ℕ) (max : ℕ)
    → All IsByte body
    → All IsPrintable (truncate_body body max)
      × ((length (truncate_body body max) ≤ max)
          × (length (escaped_all body) ≤ max → truncate_body body max ≡ escaped_all body))
unfolding truncate_body
truncate_body-Bounded body max h = truncate_from-Bounded max body [] h tt (omega arith)

-- What has arrived once every chunk has.
abbrev pub arrived : List (Option (List ℕ)) → Option (List ℕ)
arrived [] = some []
arrived (none ∷ chunks) = none
arrived (some chunk ∷ chunks) = elim (arrived chunks) [
  | none ↦ none
  | some body ↦ some (chunk ++ body)
]

some_same : {a b : List ℕ} → some a ≡ some b → a ≡ b
some_same e = cc

body_of : Result (List ℕ) → List ℕ
body_of (ok body) = body
body_of (err e) = []

same_body : {a b : List ℕ} → ok a ≡ ok b → a ≡ b
unfolding body_of
same_body e = ap body_of e

module _ (context : List ℕ) (max : ℕ) where
  chunks_read :
      (chunks : List (Option (List ℕ))) (buf body : List ℕ)
      → length buf ≤ max
      → read_chunks context max buf chunks ≡ ok body
      → (rest : List ℕ) × ((arrived chunks ≡ some rest)
          × ((body ≡ buf ++ rest) × (length body ≤ max)))
  unfolding read_chunks
  chunks_read [] buf body h e = (
    [],
    (refl, (sym (same_body e) ∙ sym (append_nil buf), subst (λ b. length b ≤ max) (same_body e) h)),
  )
  chunks_read (none ∷ chunks) buf body h e = absurd (ground (arith, e))
  chunks_read (some chunk ∷ chunks) buf body h e =
      let (rest, (all, (same, within))) =
        chunks_read chunks (buf ++ chunk) body
          (omega (arith, length-append buf chunk, at_most max _ room)) (ground (arith, e)) in
      (chunk ++ rest, (rw all refl, (same ∙ append_assoc buf chunk rest, within)))
    where
      room : ltb max (length buf + length chunk) ≡ false
      room = ground (arith, e)

  chunks_kept :
      (chunks : List (Option (List ℕ))) (buf rest : List ℕ)
      → arrived chunks ≡ some rest
      → length (buf ++ rest) ≤ max
      → read_chunks context max buf chunks ≡ ok (buf ++ rest)
  unfolding read_chunks
  chunks_kept [] buf rest e h = ap ok (sym (append_nil buf) ∙ ap (◌++◌ buf) (some_same e))
  chunks_kept (none ∷ chunks) buf rest e h = absurd (ground (arith, e))
  chunks_kept (some chunk ∷ chunks) buf rest e h = elim (Option-cases (arrived chunks)) [
    | inl missing ↦ absurd (ground (arith, e, missing))
    | inr (later, all) ↦
        go later all
          (some_same
            (ap (λ o. elim o [ none ↦ none | some body ↦ some (chunk ++ body) ]) (sym all) ∙ e))
          (chunks_kept chunks (buf ++ chunk) later all)
  ]
    where
      go :
          (later : List ℕ)
          → arrived chunks ≡ some later
          → chunk ++ later ≡ rest
          → (length ((buf ++ chunk) ++ later) ≤ max
              → read_chunks context max (buf ++ chunk) chunks ≡ ok ((buf ++ chunk) ++ later))
          → read_chunks context max buf (some chunk ∷ chunks) ≡ ok (buf ++ rest)
      go later all same read = rw room (read (omega (arith, whole, h)) ∙ ap ok joined)
        where
          joined : (buf ++ chunk) ++ later ≡ buf ++ rest
          joined = append_assoc buf chunk later ∙ ap (◌++◌ buf) same

          whole : length ((buf ++ chunk) ++ later) ≡ length (buf ++ rest)
          whole = ap length joined

          room : ltb max (length buf + length chunk) ≡ false
          room = ground (arith, fits)
            where
              fits : length buf + length chunk ≤ max
              fits =
                  omega
                    (arith, whole, h, length-append (buf ++ chunk) later, length-append buf chunk)

  -- A response is read just where its announced length, if any, is within the cap, every chunk arrives, and
  -- what arrives is within the cap; the body is what arrived.
  pub read_capped_lem :
      (resp : Response) (body : List ℕ)
      → (read_capped context resp max ≡ ok body) ↔ (
          (announces_more resp.content_length max ≡ false)
          × ((arrived resp.chunks ≡ some body) × (length body ≤ max)))
  unfolding read_capped
  read_capped_lem resp body = (there, back)
    where
      there :
          read_capped context resp max ≡ ok body
          → (announces_more resp.content_length max ≡ false)
            × ((arrived resp.chunks ≡ some body) × (length body ≤ max))
      there e =
          let (rest, (all, (same, within))) =
            chunks_read resp.chunks [] body (omega arith) (ground (arith, e)) in
          (ground (arith, e), (all ∙ ap some (sym same), within))

      back :
          (announces_more resp.content_length max ≡ false)
            × ((arrived resp.chunks ≡ some body) × (length body ≤ max))
          → read_capped context resp max ≡ ok body
      back (small, (all, within)) =
          rw (small, read_capped) (chunks_kept resp.chunks [] body all within)
