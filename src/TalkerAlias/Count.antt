-- ===== src/TalkerAlias/Count.antt =====
-- dmr-wire/src/talker_alias.rs: how many LC bodies an alias takes, and their size.
use asl_dmr_bridge.Base.{
  ℕ, suc, ◌+◌, ◌-◌, ◌*◌, ◌/◌, ◌≡◌, ◌≤◌, refl, arith, List, [], ◌∷◌, Bool, false, ◌||◌, not, ltb,
  ◌==◌, if◌then◌else◌, length, length-append, take, drop, length-drop, tabulate, range_from,
  bits_of_byte, bits_of_bytes, All, Bool-cases, inl, inr, ap, sym, ◌∙◌,
}
use mathlib.Core.Path.{subst}
use asl_dmr_bridge.TalkerAlias.{
  encode_talker_alias_lcs, blocks, encode_block_bytes, encode_header_bytes, is_ascii,
  max_alias_chars,
}

length-bits_of_bytes : (bs : List ℕ) → length (bits_of_bytes bs) ≡ 8 * length bs
unfolding bits_of_bytes
length-bits_of_bytes [] = refl
length-bits_of_bytes (b ∷ bs) =
    length-append (bits_of_byte b) (bits_of_bytes bs)
    ∙ ap (λ n. 8 + n) (length-bits_of_bytes bs)
    ∙ omega arith

length-encode_block_bytes : (flco : ℕ) (chunk : List ℕ) → length (encode_block_bytes flco chunk) ≡ 9
unfolding encode_block_bytes tabulate range_from
length-encode_block_bytes flco chunk = refl

length-encode_header_bytes :
    (total : ℕ) (head : List ℕ) → length (encode_header_bytes total head) ≡ 9
unfolding encode_header_bytes tabulate range_from
length-encode_header_bytes total head = refl

abbrev pub Is72Bits : List ℕ → Type 0
Is72Bits lc = length lc ≡ 72

blocks-Is72Bits : (flcos text : List ℕ) → All Is72Bits (blocks flcos text)
unfolding blocks
blocks-Is72Bits [] text = tt
blocks-Is72Bits (flco ∷ flcos) [] = tt
blocks-Is72Bits (flco ∷ flcos) (c ∷ cs) = (
  length-bits_of_bytes (encode_block_bytes flco (take 8 (c ∷ cs)))
      ∙ ap (λ n. 8 * n) (length-encode_block_bytes flco (take 8 (c ∷ cs))),
  blocks-Is72Bits flcos (drop 8 (c ∷ cs)),
)

length-blocks :
    (flcos text : List ℕ)
    → length text ≤ 8 * length flcos
    → length (blocks flcos text) ≡ (length text + 7) / 8
unfolding blocks
length-blocks [] text h = omega (arith, h)
length-blocks (flco ∷ flcos) [] h = refl
length-blocks (flco ∷ flcos) (c ∷ cs) h =
    ap suc (length-blocks flcos (drop 8 (c ∷ cs)) (fits (length-drop 8 (c ∷ cs))))
    ∙ next (length-drop 8 (c ∷ cs))
  where
    fits :
        length (drop 8 (c ∷ cs)) ≡ length (c ∷ cs) - 8 → length (drop 8 (c ∷ cs)) ≤ 8 * length flcos
    fits e = omega (arith, e, h)

    next :
        length (drop 8 (c ∷ cs)) ≡ length (c ∷ cs) - 8
        → suc ((length (drop 8 (c ∷ cs)) + 7) / 8) ≡ (length (c ∷ cs) + 7) / 8
    next e = omega (arith, e)

-- An alias that is empty, too long or not ASCII.
abbrev pub unusable : List ℕ → Bool
unusable text = length text == 0 || ltb max_alias_chars (length text) || not (is_ascii text)

-- An alias that is empty, longer than 31 characters or not ASCII takes no LC; any other takes one for
-- the first seven characters and one for each eight or fewer that follow, of 72 bits each.
pub encode_talker_alias_lcs_lem :
    (text : List ℕ)
    → (length (encode_talker_alias_lcs text)
        ≡ (if unusable text then 0 else 1 + ((length text - 7) + 7) / 8))
      × All Is72Bits (encode_talker_alias_lcs text)
unfolding encode_talker_alias_lcs
encode_talker_alias_lcs_lem text = elim (Bool-cases (unusable text)) [
  | inl e ↦ subst Counts (sym e) (refl, tt)
  | inr e ↦ subst Counts (sym e) (
    ap suc (
          length-blocks later (drop 7 text) (short (length-drop 7 text) e)
          ∙ ap (λ n. (n + 7) / 8) (length-drop 7 text))
        ∙ omega arith,
    (
      length-bits_of_bytes (encode_header_bytes (length text) (take 7 text))
          ∙ ap (λ n. 8 * n) (length-encode_header_bytes (length text) (take 7 text)),
      blocks-Is72Bits later (drop 7 text),
    ),
  )
]
  where
    later : List ℕ
    later = 0x05 ∷ 0x06 ∷ 0x07 ∷ []

    Counts : Bool → Type 0
    Counts b =
        let lcs =
          if b
          then []
          else bits_of_bytes (encode_header_bytes (length text) (take 7 text))
            ∷ blocks (0x05 ∷ 0x06 ∷ 0x07 ∷ []) (drop 7 text) in
        (length lcs ≡ (if b then 0 else 1 + ((length text - 7) + 7) / 8)) × All Is72Bits lcs

    short :
        length (drop 7 text) ≡ length text - 7 → unusable text ≡ false → length (drop 7 text) ≤ 24
    short e f = ground arith
