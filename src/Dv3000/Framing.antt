-- ===== src/Dv3000/Framing.antt =====
-- dv3000-wire/src/lib.rs and ambe/src/thumbdv.rs: packets in a stream of bytes.
use asl_dmr_bridge.Base.{
  ℕ, zero, suc, ◌+◌, ◌*◌, ◌≡◌, ◌<◌, ◌≤◌, refl, arith, List, [], ◌∷◌, ◌++◌, true, false, ltb, ◌==◌,
  length, length-append, get_or, take, drop, take-append, length-take_le, ap, ◌∙◌, sym, Bool-cases,
  inl, inr, ap₂,
}
use mathlib.Core.Path.{subst}
use mathlib.Core.List.{append-nil}
use asl_dmr_bridge.Dv3000.{Packet, Result, ok, err, parse, parse_payload, total_len, consumed}
use asl_dmr_bridge.Dv3000.RoundTrip.{parse_whole}

-- What a parsed buffer must have been like.
pub record Parsed (buf : List ℕ) (packet : Packet) (n : ℕ) : Type 0 where
  pub header : ltb (length buf) 4 ≡ false
  pub starts : (get_or buf 0 0 == 0x61) ≡ true
  pub size : total_len buf ≡ n
  pub complete : ltb (length buf) n ≡ false
  pub payload : parse_payload (get_or buf 3 0) (drop 4 (take n buf)) ≡ ok packet

consumed-ok :
    (k : ℕ) (r : Result Packet) {packet : Packet} {n : ℕ}
    → consumed k r ≡ ok (packet, n)
    → (k ≡ n) × (r ≡ ok packet)
consumed-ok k (ok p) e = (ground arith, ground arith)
consumed-ok k (err x) e = ground arith

pub parse-Parsed :
    (buf : List ℕ) {packet : Packet} {n : ℕ} → parse buf ≡ ok (packet, n) → Parsed buf packet n
unfolding parse
parse-Parsed buf {packet} e = elim (Bool-cases (ltb (length buf) 4)) [
  | inl a ↦ ground arith
  | inr a ↦ elim (Bool-cases (get_or buf 0 0 == 0x61)) [
    | inr b ↦ ground arith
    | inl b ↦ elim (Bool-cases (ltb (length buf) (total_len buf))) [
      | inl c ↦ ground arith
      | inr c ↦
          let (size, payload) =
            consumed-ok (total_len buf)
              (parse_payload (get_or buf 3 0) (drop 4 (take (total_len buf) buf)))
              (simp (a, b, c) at e) in
          record {
            header = a;
            starts = b;
            size = size;
            complete = subst (λ n. ltb (length buf) n ≡ false) size c;
            payload =
                subst (λ n. parse_payload (get_or buf 3 0) (drop 4 (take n buf)) ≡ ok packet) size
                  payload;
          }
    ]
  ]
]

get_or-take_append :
    (n i : ℕ) (xs ys : List ℕ)
    → i < n
    → n ≤ length xs
    → get_or (take n xs ++ ys) i 0 ≡ get_or xs i 0
get_or-take_append zero i xs ys h k = absurd (omega (arith, h))
get_or-take_append (suc n) i [] ys h k = absurd (omega (arith, k))
get_or-take_append (suc n) zero (x ∷ xs) ys h k = refl
get_or-take_append (suc n) (suc i) (x ∷ xs) ys h k =
    get_or-take_append n i xs ys (omega (arith, h)) (omega (arith, k))

total_len-take_append :
    (n : ℕ) (xs ys : List ℕ) → 4 ≤ n → n ≤ length xs → total_len (take n xs ++ ys) ≡ total_len xs
total_len-take_append n xs ys h k =
    ap₂ (λ a b. 4 + (a * 256 + b)) (get_or-take_append n 1 xs ys (omega (arith, h)) k)
      (get_or-take_append n 2 xs ys (omega (arith, h)) k)

pub get_or-take :
    (n i : ℕ) (xs : List ℕ) → i < n → n ≤ length xs → get_or (take n xs) i 0 ≡ get_or xs i 0
get_or-take n i xs h k =
    ap (λ l. get_or l i 0) (sym (append-nil (take n xs))) ∙ get_or-take_append n i xs [] h k

pub total_len-take :
    (n : ℕ) (xs : List ℕ) → 4 ≤ n → n ≤ length xs → total_len (take n xs) ≡ total_len xs
total_len-take n xs h k =
    ap total_len (sym (append-nil (take n xs))) ∙ total_len-take_append n xs [] h k

-- A buffer that parses gives a packet of at least four bytes that lies within it, and the packet
-- depends on those bytes alone: with anything else behind them they parse the same.
pub parse_prefix :
    (buf : List ℕ) (packet : Packet) (n : ℕ)
    → parse buf ≡ ok (packet, n)
    → (4 ≤ n) × (n ≤ length buf) × ((rest : List ℕ) → parse (take n buf ++ rest) ≡ ok (packet, n))
parse_prefix buf packet n e = (least, within, again)
  where
    parts : Parsed buf packet n
    parts = parse-Parsed buf e

    from_total : total_len buf ≡ n → 4 ≤ n
    from_total e = omega (arith, e)

    from_test : ltb (length buf) n ≡ false → n ≤ length buf
    from_test e = ground arith

    least : 4 ≤ n
    least = from_total parts.size

    within : n ≤ length buf
    within = from_test parts.complete

    at : (i : ℕ) → i < 4 → (rest : List ℕ) → get_or (take n buf ++ rest) i 0 ≡ get_or buf i 0
    at i h rest =
        get_or-take_append n i buf rest (omega (arith, h, from_total parts.size))
          (from_test parts.complete)

    holds : (rest : List ℕ) → n ≤ length (take n buf ++ rest)
    holds rest =
        omega
          (arith, length-append (take n buf) rest, length-take_le n buf (from_test parts.complete))

    not_short : (k m : ℕ) → m ≤ n → n ≤ k → ltb k m ≡ false
    not_short k m g h = ground arith

    again : (rest : List ℕ) → parse (take n buf ++ rest) ≡ ok (packet, n)
    again rest =
        parse_whole (take n buf ++ rest) n (not_short _ 4 (from_total parts.size) (holds rest))
          (ap (λ b. b == 0x61) (at 0 (omega arith) rest) ∙ parts.starts)
          (total_len-take_append n buf rest (from_total parts.size) (from_test parts.complete)
            ∙ parts.size)
          (not_short _ n (omega arith) (holds rest))
        ∙ ap₂ (λ t bs. consumed n (parse_payload t (drop 4 bs))) (at 3 (omega arith) rest)
            (take-append n (take n buf) rest (length-take_le n buf (from_test parts.complete)))
        ∙ ap (consumed n) parts.payload
