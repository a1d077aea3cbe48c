-- ===== src/TalkerAlias.antt =====
-- dmr-wire/src/talker_alias.rs: a callsign as Talker Alias LC bodies. Text is a list of byte values.
pub mod Count
use asl_dmr_bridge.Base.{
  ℕ, ◌-◌, ◌*◌, ◌%◌, ◌^◌, List, [], ◌∷◌, foldl, Bool, true, ◌&&◌, ◌||◌, not, ltb, ◌==◌,
  if◌then◌else◌, bit_and, bit_or, length, take, drop, tabulate, bits_of_bytes, ◌<<<◌, ◌>>>◌,
}

abbrev pub max_alias_chars : ℕ
max_alias_chars = 31

-- `data << 7 | (ch & 0x7f)` over the characters. At most 56 bits are set, so the `u64` never wraps.
pack_chars : List ℕ → ℕ
pack_chars chars = foldl (λ acc ch. bit_or (acc <<< 7) (bit_and ch 0x7f)) 0 chars

-- Left-justified in a field of `field_bits` bits.
unfoldable pub pack_chars_msb_first : List ℕ → ℕ → ℕ
unfolding pack_chars
pack_chars_msb_first chars field_bits = pack_chars chars <<< (field_bits - length chars * 7)

-- `(v >> (top - i * 8)) & 0xff` for each of `n` bytes.
abbrev pub be_bytes : ℕ → ℕ → List ℕ
be_bytes n v = tabulate n (λ i. bit_and (v >>> ((n - 1 - i) * 8)) 0xff)

unfoldable pub encode_header_bytes : ℕ → List ℕ → List ℕ
unfolding pack_chars_msb_first tabulate
encode_header_bytes total head =
    let text = pack_chars_msb_first head 49 in
    0x04
    ∷ 0
    ∷ bit_or ((total <<< 1) % 256) (bit_and (text >>> 48) 1 % 256)
    ∷ be_bytes 6 (bit_and text (2 ^ 48 - 1))

unfoldable pub encode_block_bytes : ℕ → List ℕ → List ℕ
unfolding pack_chars_msb_first tabulate
encode_block_bytes flco chunk = flco ∷ 0 ∷ be_bytes 7 (pack_chars_msb_first chunk 56)

-- `tail.as_bytes().chunks(8)`, with the FLCO of each chunk; at most three chunks are left.
unfoldable pub blocks : List ℕ → List ℕ → List (List ℕ)
unfolding encode_block_bytes bits_of_bytes
blocks [] text = []
blocks (flco ∷ flcos) [] = []
blocks (flco ∷ flcos) (c ∷ cs) =
    bits_of_bytes (encode_block_bytes flco (take 8 (c ∷ cs))) ∷ blocks flcos (drop 8 (c ∷ cs))

abbrev pub is_ascii : List ℕ → Bool
is_ascii [] = true
is_ascii (c ∷ cs) = ltb c 128 && is_ascii cs

unfoldable pub encode_talker_alias_lcs : List ℕ → List (List ℕ)
unfolding blocks encode_header_bytes bits_of_bytes
encode_talker_alias_lcs text =
    if length text == 0 || ltb max_alias_chars (length text) || not (is_ascii text)
    then []
    else bits_of_bytes (encode_header_bytes (length text) (take 7 text))
      ∷ blocks (0x05 ∷ 0x06 ∷ 0x07 ∷ []) (drop 7 text)
