-- ===== src/Ambe/Serial.antt =====
-- ambe/src/thumbdv.rs: reading a packet from the serial line agrees with parsing the bytes.
use asl_dmr_bridge.Base.{
  ℕ, ◌≡◌, ◌≤◌, refl, arith, List, true, false, ltb, ◌==◌, length, length-take_le, get_or, take,
  drop, take_all, Bool-cases, inl, inr, ap, ap₂, sym, ◌∙◌, ◌↔◌,
}
use mathlib.Core.Path.{subst}
use asl_dmr_bridge.Dv3000.{Packet, Result, ok, err, parse, parse_payload, total_len, consumed}
use asl_dmr_bridge.Dv3000.RoundTrip.{parse_whole}
use asl_dmr_bridge.Dv3000.Framing.{parse-Parsed, get_or-take, total_len-take}
use asl_dmr_bridge.Ambe.{done, serial_recv, with_rest}

-- The read bytes parse as the whole stream does.
parse-take :
    (stream : List ℕ) (n : ℕ)
    → ltb (length stream) 4 ≡ false
    → (get_or stream 0 0 == 0x61) ≡ true
    → total_len stream ≡ n
    → ltb (length stream) n ≡ false
    → parse (take n stream) ≡ parse stream
parse-take stream n long starts e enough =
    parse_whole (take n stream) n
      (not_short _ 4 (least e) (length-take_le n stream (within enough)))
      (ap (λ b. b == 0x61) (get_or-take n 0 stream (omega (arith, least e)) (within enough))
        ∙ starts)
      (total_len-take n stream (least e) (within enough) ∙ e)
      (not_short _ n (omega arith) (length-take_le n stream (within enough)))
    ∙ ap₂ (λ t bs. consumed n (parse_payload t (drop 4 bs)))
        (get_or-take n 3 stream (omega (arith, least e)) (within enough))
        (take_all n (take n stream) (length-take_le n stream (within enough)))
    ∙ sym (parse_whole stream n long starts e enough)
  where
    within : ltb (length stream) n ≡ false → n ≤ length stream
    within h = ground arith

    least : total_len stream ≡ n → 4 ≤ n
    least h = omega (arith, h)

    not_short : (k m : ℕ) → m ≤ n → k ≡ n → ltb k m ≡ false
    not_short k m g h = ground arith

with_rest-done :
    (left : List ℕ) (r : Result (Packet × ℕ)) {packet : Packet} {rest : List ℕ}
    → with_rest left r ≡ done (packet, rest)
    → (n : ℕ) × (r ≡ ok (packet, n)) × (left ≡ rest)
with_rest-done left (ok (p, n)) e = (n, ground arith, ground arith)
with_rest-done left (err x) e = ground arith

-- The serial line yields a packet exactly where the bytes that arrive start with one of at most 512
-- bytes, and it takes just these off the stream.
pub serial_recv-parse :
    (stream rest : List ℕ) (packet : Packet)
    → (serial_recv stream ≡ done (packet, rest))
      ↔ ((n : ℕ) × (parse stream ≡ ok (packet, n)) × (n ≤ 512) × (drop n stream ≡ rest))
unfolding serial_recv
serial_recv-parse stream rest packet = (there, back)
  where
    small : ltb 512 (total_len stream) ≡ false → total_len stream ≤ 512
    small h = ground arith

    found :
        (n : ℕ) × (parse stream ≡ ok (packet, n)) × (drop (total_len stream) stream ≡ rest)
        → total_len stream ≤ 512
        → (n : ℕ) × (parse stream ≡ ok (packet, n)) × (n ≤ 512) × (drop n stream ≡ rest)
    found (n, e, left) bound = (
      n,
      e,
      subst (λ k. k ≤ 512) (parse-Parsed stream e).size bound,
      ap (λ k. drop k stream) (sym (parse-Parsed stream e).size) ∙ left,
    )

    large : (n : ℕ) → total_len stream ≡ n → n ≤ 512 → ltb 512 (total_len stream) ≡ false
    large n e h = ground arith

    complete :
        (n : ℕ)
        → total_len stream ≡ n
        → ltb (length stream) n ≡ false
        → ltb (length stream) (total_len stream) ≡ false
    complete n e h = ap (ltb (length stream)) e ∙ h

    there :
        serial_recv stream ≡ done (packet, rest)
        → (n : ℕ) × (parse stream ≡ ok (packet, n)) × (n ≤ 512) × (drop n stream ≡ rest)
    there e = elim (Bool-cases (ltb (length stream) 4)) [
      | inl a ↦ ground arith
      | inr a ↦ elim (Bool-cases (get_or stream 0 0 == 0x61)) [
        | inr b ↦ ground arith
        | inl b ↦ elim (Bool-cases (ltb 512 (total_len stream))) [
          | inl c ↦ ground arith
          | inr c ↦ elim (Bool-cases (ltb (length stream) (total_len stream))) [
            | inl d ↦ ground arith
            | inr d ↦
                found
                  (with_rest-done (drop (total_len stream) stream) (parse stream) (
                    ap (with_rest (drop (total_len stream) stream))
                      (sym (parse-take stream (total_len stream) a b refl d))
                    ∙ (simp (a, b, c, d) at e)))
                  (small c)
          ]
        ]
      ]
    ]

    back :
        ((n : ℕ) × (parse stream ≡ ok (packet, n)) × (n ≤ 512) × (drop n stream ≡ rest))
        → serial_recv stream ≡ done (packet, rest)
    back (n, e, small, left) =
        let p = parse-Parsed stream e in
        simp (p.header, p.starts, large n p.size small, complete n p.size p.complete)
          (ap (with_rest (drop (total_len stream) stream)) (
              parse-take stream (total_len stream) p.header p.starts refl
                (complete n p.size p.complete)
              ∙ e)
            ∙ ap (λ bs. done (packet, bs)) (ap (λ k. drop k stream) p.size ∙ left))
