-- ===== src/Sync/Emb.antt =====
-- dmr-wire/src/sync.rs: the EMB section of a voice burst reads back.
use asl_dmr_bridge.Base.{
  ℕ, ◌+◌, ◌*◌, ◌≡◌, ◌<◌, refl, List, [], ◌∷◌, true, some, get_or, slice, each_below,
  each_below_sound, is_just, is_just_sound,
}
use asl_dmr_bridge.Fec.{qr_16_7_encode, qr_16_7_decode}
use asl_dmr_bridge.Sync.{build_emb_section}

-- The code word of a section: its first byte and its last.
abbrev pub emb_codeword : List ℕ → ℕ
emb_codeword section = 256 * get_or section 0 0 + get_or section 5 0

emb_table :
    each_below 16 (λ cc. each_below 4 (λ lcss.
      is_just (8 * cc + lcss) (qr_16_7_decode (emb_codeword (build_emb_section cc lcss [])))))
    ≡ true
unfolding qr_16_7_decode qr_16_7_encode build_emb_section each_below
emb_table = refl

-- The outer bytes of an EMB section decode to its color code and LCSS, below 16 and 4, and the inner
-- four bytes are the LC fragment.
pub build_emb_section-reads_back :
    (color_code lcss a b c d : ℕ)
    → color_code < 16
    → lcss < 4
    → (qr_16_7_decode (emb_codeword (build_emb_section color_code lcss (a ∷ b ∷ c ∷ d ∷ [])))
        ≡ some (8 * color_code + lcss))
      × (slice (build_emb_section color_code lcss (a ∷ b ∷ c ∷ d ∷ [])) 1 4 ≡ a ∷ b ∷ c ∷ d ∷ [])
unfolding build_emb_section
build_emb_section-reads_back cc lcss a b c d h k = (
  is_just_sound _ _ (
      each_below_sound 4
        (λ l. is_just (8 * cc + l) (qr_16_7_decode (emb_codeword (build_emb_section cc l [])))) lcss
        (each_below_sound 16
          (λ x.
            each_below 4
              (λ l. is_just (8 * x + l) (qr_16_7_decode (emb_codeword (build_emb_section x l [])))))
          cc emb_table h)
        k),
  refl,
)
