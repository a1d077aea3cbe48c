-- ===== src/Rs.antt =====
-- dmr-wire/src/rs.rs: the Reed-Solomon code RS(12,9) over GF(256). Words are lists of bytes.
mod Tables
pub mod Bytes
pub mod Roots
pub mod CodeWords
pub mod Errors
pub mod Correction
use asl_dmr_bridge.Base.{
  ℕ, ◌+◌, ◌-◌, ◌≡◌, refl, List, [], ◌∷◌, ◌++◌, Bool, true, false, ◌&&◌, ◌||◌, not, ◌==◌, leb, ltb,
  if◌then◌else◌, bit_xor, get_or, set, foldl,
}
use Tables.{exp_table, log_table}

-- The first three coefficients of `POLY`; the loops read no other.
abbrev pub poly : List ℕ
poly = 64 ∷ 56 ∷ 14 ∷ 1 ∷ 0 ∷ 0 ∷ 0 ∷ 0 ∷ 0 ∷ 0 ∷ 0 ∷ 0 ∷ []

unfoldable pub gmult : ℕ → ℕ → ℕ
unfolding exp_table log_table
gmult a b =
    if a == 0 || b == 0 then 0 else get_or exp_table (get_or log_table a 0 + get_or log_table b 0) 0

-- `b` is not zero where the source calls it.
unfoldable pub gdiv : ℕ → ℕ → ℕ
unfolding exp_table log_table
gdiv a b =
    if a == 0 then 0 else get_or exp_table (get_or log_table a 0 + 255 - get_or log_table b 0) 0

-- `parity[0]`, `parity[1]`, `parity[2]`.
pub record Parity : Type 0 where
  pub p0 : ℕ
  pub p1 : ℕ
  pub p2 : ℕ

unfoldable pub encode_byte : Parity → ℕ → Parity
encode_byte p byte =
    let dbyte = bit_xor byte p.p2 in
    record {
      p0 = gmult (get_or poly 0 0) dbyte;
      p1 = bit_xor p.p0 (gmult (get_or poly 1 0) dbyte);
      p2 = bit_xor p.p1 (gmult (get_or poly 2 0) dbyte);
    }

unfoldable pub rs_12_9_encode : List ℕ → Parity
unfolding encode_byte gmult
rs_12_9_encode bytes = foldl encode_byte (record { p0 = 0; p1 = 0; p2 = 0 }) bytes

abbrev pub lc_header_mask : List ℕ
lc_header_mask = 0x96 ∷ 0x96 ∷ 0x96 ∷ []

abbrev pub lc_terminator_mask : List ℕ
lc_terminator_mask = 0x99 ∷ 0x99 ∷ 0x99 ∷ []

unfoldable pub rs_12_9_fec : List ℕ → List ℕ → List ℕ
unfolding rs_12_9_encode
rs_12_9_fec bytes mask =
    let parity = rs_12_9_encode bytes in
    bit_xor parity.p2 (get_or mask 0 0)
    ∷ bit_xor parity.p1 (get_or mask 1 0)
    ∷ bit_xor parity.p0 (get_or mask 2 0)
    ∷ []

-- The Horner evaluation of the word at the root `exp_table[i]`.
unfoldable pub syndrome : ℕ → List ℕ → ℕ
unfolding gmult exp_table
syndrome i codeword = foldl (λ acc c. bit_xor (gmult acc (get_or exp_table i 0)) c) 0 codeword

pub record Syndromes : Type 0 where
  pub s1 : ℕ
  pub s2 : ℕ
  pub s3 : ℕ

unfoldable pub rs_12_9_syndromes : List ℕ → Syndromes
unfolding syndrome
rs_12_9_syndromes codeword = record {
  s1 = syndrome 1 codeword;
  s2 = syndrome 2 codeword;
  s3 = syndrome 3 codeword;
}

-- The word after the attempt, and whether it is now taken for valid.
pub record Attempt : Type 0 where
  pub codeword : List ℕ
  pub valid : Bool

unfoldable pub correct_with : Syndromes → List ℕ → Attempt
unfolding gmult gdiv log_table
correct_with s codeword =
    if s.s1 == 0 && s.s2 == 0 && s.s3 == 0
    then record { codeword = codeword; valid = true }
    else if s.s1 == 0 || s.s2 == 0
    then record { codeword = codeword; valid = false }
    else if not (gmult s.s1 s.s3 == gmult s.s2 s.s2)
    then record { codeword = codeword; valid = false }
    else (let alpha_p = gdiv s.s2 s.s1 in
        let p = get_or log_table alpha_p 0 in
        if leb 12 p then record { codeword = codeword; valid = false } else record {
          codeword =
              set codeword (11 - p) (bit_xor (get_or codeword (11 - p) 0) (gdiv s.s1 alpha_p));
          valid = true;
        })

unfoldable pub rs_12_9_correct : List ℕ → Attempt
unfolding rs_12_9_syndromes correct_with
rs_12_9_correct codeword = correct_with (rs_12_9_syndromes codeword) codeword
