-- ===== src/Tests/Vectors.antt =====
-- Vectors of the repository's own tests, evaluated: dmr-wire/src/{rs,bptc,embedded_lc,sync,talker_alias}.rs.
use asl_dmr_bridge.Base.{◌++◌, replicate, tabulate}
use asl_dmr_bridge.Ambe.Channel.{to_source_bits, encode_from_ambe_d, pn_sequence}
use asl_dmr_bridge.Base.{
  ◌≡◌, refl, List, [], ◌∷◌, ℕ, some, bits_of_bytes, range_from, map, ◌*◌, ◌+◌, ◌%◌,
}
use asl_dmr_bridge.Rs.{rs_12_9_encode, rs_12_9_fec, lc_header_mask}
use asl_dmr_bridge.Bptc.{bptc_encode, bptc_decode_correct}
use asl_dmr_bridge.Sync.{build_emb_section}
use asl_dmr_bridge.EmbeddedLc.{build_fragments}
use asl_dmr_bridge.TalkerAlias.{encode_header_bytes}

abbrev known_lc : List ℕ
known_lc = 0 ∷ 0 ∷ 0 ∷ 0 ∷ 0 ∷ 0x5b ∷ 0x30 ∷ 0x15 ∷ 0x86 ∷ []

rs_known : rs_12_9_encode known_lc ≡ record { p0 = 0xe3; p1 = 0x9c; p2 = 0xbe }
unfolding rs_12_9_encode
rs_known = refl

rs_known_masked : rs_12_9_fec known_lc lc_header_mask ≡ 0x28 ∷ 0x0a ∷ 0x75 ∷ []
unfolding rs_12_9_fec
rs_known_masked = refl

emb_known : build_emb_section 1 1 (0 ∷ 0 ∷ 0 ∷ 0 ∷ []) ≡ 0x13 ∷ 0 ∷ 0 ∷ 0 ∷ 0 ∷ 0x91 ∷ []
unfolding build_emb_section
emb_known = refl

fragments_known :
    build_fragments (bits_of_bytes (0 ∷ 0x10 ∷ 0x20 ∷ 0 ∷ 0x0c ∷ 0x30 ∷ 0x2f ∷ 0x9b ∷ 0xe5 ∷ []))
    ≡ (0x4e ∷ 0x0f ∷ 0x06 ∷ 0x06 ∷ [])
      ∷ (0x17 ∷ 0x11 ∷ 0x00 ∷ 0x47 ∷ [])
      ∷ (0x0c ∷ 0x03 ∷ 0x18 ∷ 0x1b ∷ [])
      ∷ (0x17 ∷ 0x5a ∷ 0x0f ∷ 0x4e ∷ [])
      ∷ []
unfolding build_fragments bits_of_bytes
fragments_known = refl

alias_header_known :
    encode_header_bytes 5 (b'A' ∷ b'B' ∷ b'C' ∷ b'D' ∷ b'E' ∷ [])
    ≡ 0x04 ∷ 0x00 ∷ 0x0b ∷ 0x06 ∷ 0x14 ∷ 0x38 ∷ 0x91 ∷ 0x40 ∷ 0x00 ∷ []
unfolding encode_header_bytes
alias_header_known = refl

striped : List ℕ
striped = map (λ i. (i * 5 + 1) % 2) (range_from 0 96)

bptc_clean : bptc_decode_correct (bptc_encode striped) ≡ some (striped, 0)
unfolding striped range_from bptc_decode_correct bptc_encode
bptc_clean = refl

-- The bits 0 to 3 and 37 of a silent frame.
silent : List ℕ
silent = (1 ∷ 1 ∷ 1 ∷ 1 ∷ []) ++ (replicate 33 0 ++ (1 ∷ replicate 11 0))

silence_frame_known : to_source_bits (encode_from_ambe_d silent) ≡ 0xf0 ∷ 0 ∷ 0 ∷ 0 ∷ 4 ∷ 0 ∷ 0 ∷ []
unfolding silent to_source_bits encode_from_ambe_d pn_sequence tabulate
silence_frame_known = refl
