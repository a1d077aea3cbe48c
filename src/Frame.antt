-- ===== src/Frame.antt =====
-- dmr-wire/src/frame.rs: a voice burst as 132 dibits, three AMBE code words around a SYNC/EMB section.
pub mod Dibits
pub mod RoundTrip
use asl_dmr_bridge.Base.{
  ℕ, zero, suc, ◌+◌, ◌-◌, ◌*◌, ◌/◌, ◌%◌, ◌^◌, ◌≤◌, ◌<◌, ◌≡◌, refl, List, [], ◌∷◌, ◌++◌, map, foldl,
  Bool, true, false, ◌&&◌, ◌||◌, not, Option, none, some, arith, ltb, leb, ◌==◌, if◌then◌else◌,
  bit_and, bit_or, bit_xor, length, get_or, set, take, drop, slice, write_at, replicate, range_from,
  tabulate, bits_of_byte, bits_of_bytes, byte_of_bits, bytes_of_bits, list_eq, u32_from_be, ◌<<<◌,
  ◌>>>◌,
}

pub record Codewords : Type 0 where
  pub cw1 : List ℕ
  pub cw2 : List ℕ
  pub cw3 : List ℕ

unfoldable pub byte_to_dibits : ℕ → List ℕ
byte_to_dibits byte =
    bit_and (byte >>> 6) 0x03
    ∷ bit_and (byte >>> 4) 0x03
    ∷ bit_and (byte >>> 2) 0x03
    ∷ bit_and byte 0x03
    ∷ []

unfoldable pub burst_to_dibits : List ℕ → List ℕ
unfolding byte_to_dibits
burst_to_dibits [] = []
burst_to_dibits (b ∷ bs) = byte_to_dibits b ++ burst_to_dibits bs

-- Four dibits to a byte, the shifts cut to eight bits.
unfoldable pub dibits_to_bytes : List ℕ → List ℕ
dibits_to_bytes (a ∷ b ∷ c ∷ d ∷ rest) =
    bit_or (bit_or (bit_or ((a <<< 6) % 256) ((b <<< 4) % 256)) ((c <<< 2) % 256)) d
    ∷ dibits_to_bytes rest
dibits_to_bytes _ = []

-- Each dibit masked to two bits and or-ed into its place of a byte that starts at zero.
unfoldable pub pack_dibits : List ℕ → List ℕ
pack_dibits (a ∷ b ∷ c ∷ d ∷ rest) =
    bit_or
      (bit_or (bit_or (bit_or 0 (bit_and a 0x03 <<< 6)) (bit_and b 0x03 <<< 4))
        (bit_and c 0x03 <<< 2))
      (bit_and d 0x03)
    ∷ pack_dibits rest
pack_dibits _ = []

-- The dibits of a code word, read as in `byte_to_dibits`.
unfoldable pub unpack_dibits : List ℕ → List ℕ
unfolding burst_to_dibits
unpack_dibits frame = burst_to_dibits frame

unfoldable pub extract_ambe : List ℕ → Codewords
unfolding burst_to_dibits pack_dibits
extract_ambe burst =
    let dibits = burst_to_dibits burst in
    record {
      cw1 = pack_dibits (take 36 dibits);
      cw2 = pack_dibits (slice dibits 36 18 ++ slice dibits 78 18);
      cw3 = pack_dibits (slice dibits 96 36);
    }

unfoldable pub extract_sync_section : List ℕ → List ℕ
unfolding burst_to_dibits dibits_to_bytes
extract_sync_section burst = dibits_to_bytes (slice (burst_to_dibits burst) 54 24)

unfoldable pub assemble_burst : Codewords → List ℕ → List ℕ
unfolding unpack_dibits burst_to_dibits dibits_to_bytes
assemble_burst codewords sync =
    let cw2 = unpack_dibits codewords.cw2 in
    dibits_to_bytes (
      unpack_dibits codewords.cw1
      ++ (take 18 cw2 ++ (burst_to_dibits sync ++ (drop 18 cw2 ++ unpack_dibits codewords.cw3))))
