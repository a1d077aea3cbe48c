-- ===== src/Tests/LcRuns.antt =====
-- The theorems on the codes of voice headers and terminators at concrete inputs.
use asl_dmr_bridge.Base.{ℕ, ◌≡◌, refl, arith, List, [], ◌∷◌, true, some, set, bits_of_bytes}
use asl_dmr_bridge.Fec.{◌⊕◌, bit}
use asl_dmr_bridge.Fec.Hamming.{with_error}
use asl_dmr_bridge.Sync.{bs_data_sync}
use asl_dmr_bridge.Rs.{rs_12_9_correct}
use asl_dmr_bridge.Rs.CodeWords.{code_word}
use asl_dmr_bridge.Rs.Correction.{rs_12_9_correct-single}
use asl_dmr_bridge.Bptc.{
  build_voice_lc, build_data_burst, decode_voice_lc_burst, bptc_encode, extract_burst_interleaved,
}
use asl_dmr_bridge.Bptc.VoiceLc.{
  sound, decode_voice_lc_burst-build_data_burst, decode_voice_lc_burst-single,
}

abbrev nine_bytes : List ℕ
nine_bytes = 3 ∷ 0 ∷ 0 ∷ 0 ∷ 0 ∷ 91 ∷ 0x2f ∷ 0x9b ∷ 0x81 ∷ []

rs_12_9_correct-single_example :
    rs_12_9_correct (set (code_word nine_bytes) 5 (bit (code_word nine_bytes) 5 ⊕ 0x40))
    ≡ record { codeword = code_word nine_bytes; valid = true }
rs_12_9_correct-single_example =
    rs_12_9_correct-single nine_bytes 5 0x40
      (
        omega arith,
        (
          omega arith,
          (
            omega arith,
            (
              omega arith,
              (omega arith, (omega arith, (omega arith, (omega arith, (omega arith, tt))))),
            ),
          ),
        ),
      )
      refl (omega arith) (omega arith) (omega arith)

-- The bits of the header of a call to talkgroup 91.
abbrev header_lc : List ℕ
header_lc = bits_of_bytes (0 ∷ 0 ∷ 0 ∷ 0 ∷ 0 ∷ 91 ∷ 0x2f ∷ 0x9b ∷ 0x81 ∷ 187 ∷ 219 ∷ 75 ∷ [])

header_lc-built : build_voice_lc true 91 3120001 1 ≡ some header_lc
unfolding build_voice_lc bits_of_bytes
header_lc-built = refl

abbrev header_burst : List ℕ
header_burst = build_data_burst header_lc 1 7 bs_data_sync

decode_voice_lc_burst-build_data_burst_example :
    decode_voice_lc_burst header_burst 1 ≡ some (sound 91 3120001 0)
decode_voice_lc_burst-build_data_burst_example =
    decode_voice_lc_burst-build_data_burst true 91 3120001 1 header_lc header_lc-built 7
      bs_data_sync (omega arith) (omega arith)
      (omega arith, (omega arith, (omega arith, (omega arith, (omega arith, (omega arith, tt))))))
      refl

-- The same burst with bit 53 wrong.
abbrev noisy_burst : List ℕ
noisy_burst = set header_burst 6 (bit header_burst 6 ⊕ 4)

noisy_burst-received : extract_burst_interleaved noisy_burst ≡ with_error (bptc_encode header_lc) 53
unfolding extract_burst_interleaved bptc_encode build_data_burst bits_of_bytes
noisy_burst-received = refl

decode_voice_lc_burst-single_example :
    decode_voice_lc_burst noisy_burst 1 ≡ some (sound 91 3120001 1)
decode_voice_lc_burst-single_example =
    decode_voice_lc_burst-single true 91 3120001 1 header_lc header_lc-built noisy_burst 53
      (omega arith) noisy_burst-received

abbrev twelve_bytes : List ℕ
twelve_bytes = 0xff ∷ 0 ∷ 0xaa ∷ 1 ∷ 2 ∷ 3 ∷ 4 ∷ 5 ∷ 6 ∷ 7 ∷ 8 ∷ 255 ∷ []
