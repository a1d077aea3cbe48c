-- ===== src/Frame/RoundTrip.antt =====
-- dmr-wire/src/frame.rs: the code words and the section of an assembled burst read back.
use asl_dmr_bridge.Base.{
  ℕ, ◌+◌, ◌*◌, ◌≡◌, ap, ap₂, ◌∙◌, arith, List, ◌++◌, length, length-append, take, drop, slice, All,
  IsByte, All-append, All-take, All-drop, take-append, drop-append, take-drop, take_all,
  length-drop, length-take_le, ◌-◌,
}
use asl_dmr_bridge.Frame.{
  Codewords, burst_to_dibits, dibits_to_bytes, pack_dibits, unpack_dibits, extract_ambe,
  extract_sync_section, assemble_burst,
}
use asl_dmr_bridge.Frame.Dibits.{
  IsDibit, quads, dibits_bytes, pack-unpack, bytes_dibits, burst_to_dibits-IsDibit,
  length-burst_to_dibits,
}

-- Three code words of nine bytes and a section of six.
pub record Fits (c : Codewords) (sync : List ℕ) : Type 0 where
  pub bytes1 : All IsByte c.cw1
  pub bytes2 : All IsByte c.cw2
  pub bytes3 : All IsByte c.cw3
  pub bytes_sync : All IsByte sync
  pub length1 : length c.cw1 ≡ 9
  pub length2 : length c.cw2 ≡ 9
  pub length3 : length c.cw3 ≡ 9
  pub length_sync : length sync ≡ 6

-- Past the first list.
past : (n k : ℕ) (xs ys : List ℕ) → length xs ≡ n → drop (n + k) (xs ++ ys) ≡ drop k ys
past n k xs ys e = drop-append (n + k) xs ys (omega (arith, e)) ∙ ap (λ i. drop i ys) (cut n k xs e)
  where
    cut : (n k : ℕ) (xs : List ℕ) → length xs ≡ n → (n + k) - length xs ≡ k
    cut n k xs e = omega (arith, e)

-- Five lists one after the other, by their lengths.
module _ (a b s c d : List ℕ) (la : length a ≡ 36) (lb : length b ≡ 18) (ls : length s ≡ 24)
    (lc : length c ≡ 18) (ld : length d ≡ 36) where
  first_part : take 36 (a ++ (b ++ (s ++ (c ++ d)))) ≡ a
  first_part = take-append 36 a _ la

  second_part : slice (a ++ (b ++ (s ++ (c ++ d)))) 36 18 ≡ b
  second_part = ap (take 18) (past 36 0 a _ la) ∙ take-append 18 b _ lb

  sync_part : slice (a ++ (b ++ (s ++ (c ++ d)))) 54 24 ≡ s
  sync_part = ap (take 24) (past 36 18 a _ la ∙ past 18 0 b _ lb) ∙ take-append 24 s _ ls

  third_part : slice (a ++ (b ++ (s ++ (c ++ d)))) 78 18 ≡ c
  third_part =
      ap (take 18) (past 36 42 a _ la ∙ past 18 24 b _ lb ∙ past 24 0 s _ ls)
      ∙ take-append 18 c _ lc

  last_part : slice (a ++ (b ++ (s ++ (c ++ d)))) 96 36 ≡ d
  last_part =
      ap (take 36) (past 36 60 a _ la ∙ past 18 42 b _ lb ∙ past 24 18 s _ ls ∙ past 18 0 c _ lc)
      ∙ take_all 36 d ld

module _ (c : Codewords) (sync : List ℕ) (fits : Fits c sync) where
  a : List ℕ
  a = burst_to_dibits c.cw1

  cw2 : List ℕ
  cw2 = burst_to_dibits c.cw2

  s : List ℕ
  s = burst_to_dibits sync

  d : List ℕ
  d = burst_to_dibits c.cw3

  in_dibits : List ℕ
  in_dibits = a ++ (take 18 cw2 ++ (s ++ (drop 18 cw2 ++ d)))

  length-a : length a ≡ 36
  unfolding a
  length-a = omega (arith, length-burst_to_dibits c.cw1, fits.length1)

  length-cw2 : length cw2 ≡ 36
  unfolding cw2
  length-cw2 = omega (arith, length-burst_to_dibits c.cw2, fits.length2)

  length-d : length d ≡ 36
  unfolding d
  length-d = omega (arith, length-burst_to_dibits c.cw3, fits.length3)

  length-s : length s ≡ 24
  unfolding s
  length-s = omega (arith, length-burst_to_dibits sync, fits.length_sync)

  length-b : length (take 18 cw2) ≡ 18
  length-b = length-take_le 18 cw2 (omega (arith, length-cw2))

  length-c : length (drop 18 cw2) ≡ 18
  length-c = length-drop 18 cw2 ∙ omega (arith, length-cw2)

  -- The burst in dibits is what it was assembled from.
  assembled : burst_to_dibits (assemble_burst c sync) ≡ in_dibits
  unfolding assemble_burst unpack_dibits in_dibits a s d cw2
  assembled = dibits_bytes 33 in_dibits (quads 33 in_dibits whole all_dibits)
    where
      whole : length in_dibits ≡ 4 * 33
      whole = omega (
        arith,
        length-append a (take 18 cw2 ++ (s ++ (drop 18 cw2 ++ d))),
        length-append (take 18 cw2) (s ++ (drop 18 cw2 ++ d)),
        length-append s (drop 18 cw2 ++ d),
        length-append (drop 18 cw2) d,
        length-a,
        length-b,
        length-s,
        length-c,
        length-d,
      )

      all_dibits : All IsDibit in_dibits
      all_dibits = All-append IsDibit a _ (burst_to_dibits-IsDibit c.cw1 fits.bytes1) (
          All-append IsDibit (take 18 cw2) _
            (All-take IsDibit 18 cw2 (burst_to_dibits-IsDibit c.cw2 fits.bytes2))
            (All-append IsDibit s _ (burst_to_dibits-IsDibit sync fits.bytes_sync) (
              All-append IsDibit (drop 18 cw2) d
                (All-drop IsDibit 18 cw2 (burst_to_dibits-IsDibit c.cw2 fits.bytes2))
                (burst_to_dibits-IsDibit c.cw3 fits.bytes3))))

  -- The middle section of a burst that was assembled from code words of nine bytes and a section of six
  -- bytes is that section.
  pub extract_sync_section-assemble_burst : extract_sync_section (assemble_burst c sync) ≡ sync
  unfolding extract_sync_section in_dibits s
  extract_sync_section-assemble_burst =
      ap (λ ds. dibits_to_bytes (slice ds 54 24)) assembled
      ∙ ap dibits_to_bytes
          (sync_part a (take 18 cw2) s (drop 18 cw2) d length-a length-b length-s length-c length-d)
      ∙ bytes_dibits sync fits.bytes_sync

  -- The three code words of a burst that was assembled from code words of nine bytes and a section of six
  -- bytes are those it was assembled from.
  pub extract_ambe-assemble_burst : extract_ambe (assemble_burst c sync) ≡ c
  unfolding extract_ambe in_dibits a cw2 d
  extract_ambe-assemble_burst = λ i. record { cw1 = one i; cw2 = two i; cw3 = three i }
    where
      one : pack_dibits (take 36 (burst_to_dibits (assemble_burst c sync))) ≡ c.cw1
      one =
          ap (λ ds. pack_dibits (take 36 ds)) assembled
          ∙ ap pack_dibits (
              first_part a (take 18 cw2) s (drop 18 cw2) d length-a length-b length-s length-c
                length-d)
          ∙ pack-unpack c.cw1 fits.bytes1

      two :
          pack_dibits (
            slice (burst_to_dibits (assemble_burst c sync)) 36 18
            ++ slice (burst_to_dibits (assemble_burst c sync)) 78 18)
          ≡ c.cw2
      two =
          ap (λ ds. pack_dibits (slice ds 36 18 ++ slice ds 78 18)) assembled
          ∙ ap₂ (λ xs ys. pack_dibits (xs ++ ys))
              (second_part a (take 18 cw2) s (drop 18 cw2) d length-a length-b length-s length-c
                length-d)
              (third_part a (take 18 cw2) s (drop 18 cw2) d length-a length-b length-s length-c
                length-d)
          ∙ ap pack_dibits (take-drop 18 cw2)
          ∙ pack-unpack c.cw2 fits.bytes2

      three : pack_dibits (slice (burst_to_dibits (assemble_burst c sync)) 96 36) ≡ c.cw3
      three =
          ap (λ ds. pack_dibits (slice ds 96 36)) assembled
          ∙ ap pack_dibits (
              last_part a (take 18 cw2) s (drop 18 cw2) d length-a length-b length-s length-c
                length-d)
          ∙ pack-unpack c.cw3 fits.bytes3
