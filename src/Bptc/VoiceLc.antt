-- ===== src/Bptc/VoiceLc.antt =====
-- dmr-wire/src/bptc.rs: decode_voice_lc_burst on the headers and terminators that build_voice_lc and
-- build_data_burst make.
use asl_dmr_bridge.Base.{
  ℕ, ◌≤◌, ◌<◌, ◌≡◌, refl, arith, List, ◌∷◌, ◌++◌, Bool, true, none, some, ◌==◌, if◌then◌else◌, ap,
  ap₂, sym, ◌∙◌, length, u32_from_be, All-append, All, IsBit, IsByte, bits_of_bytes, bytes_of_bits,
}
use mathlib.Core.Path.{subst}
use asl_dmr_bridge.Ids.{to_be_bytes_3, max_24bit}
use asl_dmr_bridge.Fec.{bit}
use asl_dmr_bridge.Fec.Hamming.{with_error}
use asl_dmr_bridge.Rs.{rs_12_9_fec, rs_12_9_syndromes, rs_12_9_correct, Attempt, Syndromes}
use asl_dmr_bridge.Rs.Bytes.{xor-IsByte}
use asl_dmr_bridge.Rs.CodeWords.{
  code_word, parity-bytes, rs_12_9_syndromes-rs_12_9_encode, rs_12_9_correct-rs_12_9_encode,
}
use asl_dmr_bridge.Bptc.{
  build_voice_lc, mask_of, unmasked, DecodedVoiceLc, decode_voice_lc_burst, build_data_burst,
  extract_burst_interleaved, bptc_encode, bptc_decode_correct,
}
use asl_dmr_bridge.Bptc.Entries.{bptc_encode-bits}
use asl_dmr_bridge.Bptc.Interleaving.{length-bptc_encode}
use asl_dmr_bridge.Bptc.Recovery.{bptc_decode_correct-bptc_encode, bptc_decode_correct-single}
use asl_dmr_bridge.Bptc.Bursts.{
  bits_of_bytes-bits, length-bits_of_bytes, extract_burst_interleaved-build_data_burst,
}
use asl_dmr_bridge.Bptc.LcBytes.{
  unpacked_same, twelve, xor_twice, mask_bytes, body, body-bytes, build_voice_lc-body,
}

-- What the decoder reports of a word and its correction.
abbrev read_out : Attempt → Syndromes → ℕ → DecodedVoiceLc
read_out attempt syndromes n = record {
  src_id = u32_from_be 0 (bit attempt.codeword 6) (bit attempt.codeword 7) (bit attempt.codeword 8);
  dst_id = u32_from_be 0 (bit attempt.codeword 3) (bit attempt.codeword 4) (bit attempt.codeword 5);
  rs_syndromes = syndromes;
  rs_corrected = attempt.valid;
  bptc_corrected_bits = n;
}

-- The report on a call that arrived right, after `n` flipped bits.
abbrev pub sound : ℕ → ℕ → ℕ → DecodedVoiceLc
sound dst src n = record {
  src_id = src;
  dst_id = dst;
  rs_syndromes = record { s1 = 0; s2 = 0; s3 = 0 };
  rs_corrected = true;
  bptc_corrected_bits = n;
}

module _ (group_call : Bool) (dst src data_type : ℕ) where
  abbrev message : List ℕ
  message = body group_call dst src

  abbrev full_lc : List ℕ
  full_lc = message ++ rs_12_9_fec message (mask_of data_type)

  full_lc-bytes : All IsByte full_lc
  unfolding rs_12_9_fec
  full_lc-bytes =
      let (b2, (b1, b0)) = parity-bytes message (body-bytes group_call dst src) in
      let (m0, (m1, m2)) = mask_bytes data_type in
      All-append IsByte message _ (body-bytes group_call dst src)
        (xor-IsByte _ _ b2 m0, (xor-IsByte _ _ b1 m1, (xor-IsByte _ _ b0 m2, tt)))

  full_lc-unmasked : unmasked full_lc data_type ≡ code_word message
  unfolding unmasked rs_12_9_fec body
  full_lc-unmasked =
      let (b2, (b1, b0)) = parity-bytes message (body-bytes group_call dst src) in
      let (m0, (m1, m2)) = mask_bytes data_type in
      ap (◌++◌ message) (
        ap₂ ◌∷◌ (xor_twice _ _ b2 m0)
          (ap₂ ◌∷◌ (xor_twice _ _ b1 m1) (ap₂ ◌∷◌ (xor_twice _ _ b0 m2) refl)))

  received_lc : bytes_of_bits 12 (bits_of_bytes full_lc) ≡ full_lc
  unfolding rs_12_9_fec body
  received_lc = twelve _ _ _ _ _ _ _ _ _ _ _ _ ∙ unpacked_same full_lc full_lc-bytes

  src_read :
      src ≤ max_24bit
      → u32_from_be 0
          (bit (code_word message) 6)
          (bit (code_word message) 7)
          (bit (code_word message) 8)
        ≡ src
  unfolding body to_be_bytes_3
  src_read h = omega (arith, h)

  dst_read :
      dst ≤ max_24bit
      → u32_from_be 0
          (bit (code_word message) 3)
          (bit (code_word message) 4)
          (bit (code_word message) 5)
        ≡ dst
  unfolding body to_be_bytes_3
  dst_read h = omega (arith, h)

  decoded :
      (burst : List ℕ) (n : ℕ)
      → dst ≤ max_24bit
      → src ≤ max_24bit
      → bptc_decode_correct (extract_burst_interleaved burst) ≡ some (bits_of_bytes full_lc, n)
      → decode_voice_lc_burst burst data_type ≡ some (sound dst src n)
  unfolding decode_voice_lc_burst
  decoded burst n hd hs e =
      ap
        (λ o. elim o [
          | none ↦ none
          | some (bits, n) ↦
              let received = unmasked (bytes_of_bits 12 bits) data_type in
              some (read_out (rs_12_9_correct received) (rs_12_9_syndromes received) n)
        ])
        e
      ∙ ap (λ w. some (read_out (rs_12_9_correct w) (rs_12_9_syndromes w) n))
          (ap (λ w. unmasked w data_type) received_lc ∙ full_lc-unmasked)
      ∙ ap₂ (λ a s. some (read_out a s n))
          (rs_12_9_correct-rs_12_9_encode message (body-bytes group_call dst src))
          (rs_12_9_syndromes-rs_12_9_encode message (body-bytes group_call dst src))
      ∙ ap₂ (λ d s. some (sound d s n)) (dst_read hd) (src_read hs)

  lc-bits : All IsBit (bits_of_bytes full_lc)
  lc-bits = bits_of_bytes-bits full_lc full_lc-bytes

  length-lc : length (bits_of_bytes full_lc) ≡ 96
  unfolding rs_12_9_fec body to_be_bytes_3
  length-lc = length-bits_of_bytes full_lc

module _ (group_call : Bool) (dst src data_type : ℕ) (lc : List ℕ)
    (built : build_voice_lc group_call dst src data_type ≡ some lc) where
  of_full : (P : List ℕ → Type 0) → P (bits_of_bytes (full_lc group_call dst src data_type)) → P lc
  of_full P h =
      let (hd, (hs, same)) = build_voice_lc-body group_call dst src data_type lc built in
      subst P (sym same) h

  -- The burst of a header or terminator is read back: both ids, no syndrome, and no flipped bit.
  pub decode_voice_lc_burst-build_data_burst :
      (color_code : ℕ) (sync : List ℕ)
      → data_type < 16
      → color_code < 16
      → All IsByte sync
      → length sync ≡ 6
      → decode_voice_lc_burst (build_data_burst lc data_type color_code sync) data_type
        ≡ some (sound dst src 0)
  decode_voice_lc_burst-build_data_burst color_code sync dt cc bytes size =
      let (hd, (hs, same)) = build_voice_lc-body group_call dst src data_type lc built in
      decoded group_call dst src data_type (build_data_burst lc data_type color_code sync) 0 hd hs (
        ap bptc_decode_correct (
          extract_burst_interleaved-build_data_burst lc data_type color_code sync dt cc bytes size
            (bptc_encode-bits lc (of_full (All IsBit) (lc-bits group_call dst src data_type)))
            (length-bptc_encode lc))
        ∙ bptc_decode_correct-bptc_encode lc
            (of_full (λ b. length b ≡ 96) (length-lc group_call dst src data_type))
            (of_full (All IsBit) (lc-bits group_call dst src data_type))
        ∙ ap (λ b. some (b, 0)) same)

  -- A burst whose 196 information bits are those of a header or terminator but for one is read right all
  -- the same: both ids and no syndrome, and the flipped bit is counted unless it is the first, which
  -- no code covers.
  pub decode_voice_lc_burst-single :
      (burst : List ℕ) (at : ℕ)
      → at < 196
      → extract_burst_interleaved burst ≡ with_error (bptc_encode lc) at
      → decode_voice_lc_burst burst data_type ≡ some (sound dst src (if at == 0 then 0 else 1))
  decode_voice_lc_burst-single burst at h received =
      let (hd, (hs, same)) = build_voice_lc-body group_call dst src data_type lc built in
      decoded group_call dst src data_type burst (if at == 0 then 0 else 1) hd hs (
        ap bptc_decode_correct received
        ∙ bptc_decode_correct-single lc
            (of_full (λ b. length b ≡ 96) (length-lc group_call dst src data_type))
            (of_full (All IsBit) (lc-bits group_call dst src data_type)) at h
        ∙ ap (λ b. some (b, if at == 0 then 0 else 1)) same)
