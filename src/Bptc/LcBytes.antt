-- ===== src/Bptc/LcBytes.antt =====
-- dmr-wire/src/bptc.rs: the bytes of an LC, with the mask on its parity.
use asl_dmr_bridge.Base.{
  ℕ, ◌≤◌, ◌≡◌, refl, arith, List, [], ◌∷◌, ◌++◌, map, Bool, true, false, some, ◌==◌, if◌then◌else◌,
  ap, ap₂, ◌∙◌, range_from, All, IsByte, bits_of_byte, bits_of_bytes, byte_of_bits, bytes_of_bits,
  tabulate, each_below, each_below_sound,
}
use asl_dmr_bridge.Ids.{to_be_bytes_3, max_24bit}
use asl_dmr_bridge.Dmrd.{id_to_24_be}
use asl_dmr_bridge.Fec.{◌⊕◌, bit}
use asl_dmr_bridge.Rs.{rs_12_9_fec, lc_header_mask, lc_terminator_mask}
use asl_dmr_bridge.Rs.Bytes.{xor_assoc, xor_self, xor_zero}
use asl_dmr_bridge.Bptc.{lc_body_bytes, build_voice_lc, mask_of}

-- The twelve bytes of an LC out of its bits.
pub byte_table : each_below 256 (λ b. byte_of_bits (bits_of_byte b) 0 == b) ≡ true
unfolding each_below byte_of_bits range_from
byte_table = refl

pub unpacked : (bytes : List ℕ) → List ℕ
unpacked bytes = map (λ b. byte_of_bits (bits_of_byte b) 0) bytes

pub unpacked_same : (bytes : List ℕ) → All IsByte bytes → unpacked bytes ≡ bytes
unfolding unpacked
unpacked_same [] h = refl
unpacked_same (b ∷ bytes) (h, hs) =
    ap₂ ◌∷◌
      (ground
        (arith, each_below_sound 256 (λ b. byte_of_bits (bits_of_byte b) 0 == b) b byte_table h))
      (unpacked_same bytes hs)

pub twelve :
    (a b c d e f g h i j k l : ℕ)
    → bytes_of_bits 12 (bits_of_bytes (a ∷ b ∷ c ∷ d ∷ e ∷ f ∷ g ∷ h ∷ i ∷ j ∷ k ∷ l ∷ []))
      ≡ unpacked (a ∷ b ∷ c ∷ d ∷ e ∷ f ∷ g ∷ h ∷ i ∷ j ∷ k ∷ l ∷ [])
unfolding bytes_of_bits bits_of_bytes unpacked tabulate range_from byte_of_bits
twelve a b c d e f g h i j k l = refl

-- A mask taken off again.
pub xor_twice : (a m : ℕ) → IsByte a → IsByte m → (a ⊕ m) ⊕ m ≡ a
xor_twice a m ha hm = xor_assoc a m m ha hm hm ∙ ap (◌⊕◌ a) (xor_self m hm) ∙ xor_zero a ha

pub mask_bytes :
    (data_type : ℕ)
    → IsByte (bit (mask_of data_type) 0)
      × (IsByte (bit (mask_of data_type) 1) × IsByte (bit (mask_of data_type) 2))
mask_bytes data_type = of_choice (data_type == 2)
  where
    of_choice :
        (b : Bool)
        → IsByte (bit (if b then lc_terminator_mask else lc_header_mask) 0)
          × (IsByte (bit (if b then lc_terminator_mask else lc_header_mask) 1)
              × IsByte (bit (if b then lc_terminator_mask else lc_header_mask) 2))
    of_choice true = (omega arith, (omega arith, omega arith))
    of_choice false = (omega arith, (omega arith, omega arith))

-- The LC body of a call, and the LC with its masked parity.
unfoldable pub body : Bool → ℕ → ℕ → List ℕ
unfolding to_be_bytes_3
body group_call dst src =
    ((if group_call then 0 else 3) ∷ 0 ∷ 0 ∷ []) ++ to_be_bytes_3 dst ++ to_be_bytes_3 src

pub body-bytes : (group_call : Bool) (dst src : ℕ) → All IsByte (body group_call dst src)
unfolding body to_be_bytes_3
body-bytes group_call dst src = (
  ground arith,
  (
    omega arith,
    (
      omega arith,
      (omega arith, (omega arith, (omega arith, (omega arith, (omega arith, (omega arith, tt)))))),
    ),
  ),
)

pub build_voice_lc-body :
    (group_call : Bool) (dst src data_type : ℕ) (lc : List ℕ)
    → build_voice_lc group_call dst src data_type ≡ some lc
    → (dst ≤ max_24bit)
      × ((src ≤ max_24bit)
          × (lc
              ≡ bits_of_bytes (
                  body group_call dst src
                  ++ rs_12_9_fec (body group_call dst src) (mask_of data_type))))
unfolding build_voice_lc lc_body_bytes id_to_24_be body
build_voice_lc-body group_call dst src data_type lc e =
    (ground (arith, e), (ground (arith, e), ground (arith, e)))
