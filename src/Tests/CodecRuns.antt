-- ===== src/Tests/CodecRuns.antt =====
-- The theorems on packets, codes and bursts at concrete inputs.
use asl_dmr_bridge.Base.{
  ℕ, ◌≡◌, refl, arith, List, [], ◌∷◌, ◌++◌, some, take, slice, length, replicate, All, IsByte,
  bits_of_bytes, bytes_of_bits,
}
use asl_dmr_bridge.Dmrd.{
  serialize, parse_fields, frame_type_of_flags, slot_of_flags, call_type_of_flags, parse, ok,
  packet_size,
}
use asl_dmr_bridge.Ids.{subscriber_id, dmr_id}
use asl_dmr_bridge.Dmrd.RoundTrip.{IsDmrd, parse-serialize}
use asl_dmr_bridge.Dmrd.Reparse.{parse-IsDmrd, serialize-parse}
use asl_dmr_bridge.Fec.{qr_16_7_decode}
use asl_dmr_bridge.Sync.{build_emb_section}
use asl_dmr_bridge.Sync.Emb.{emb_codeword, build_emb_section-reads_back}
use asl_dmr_bridge.Frame.{Codewords, extract_ambe, assemble_burst}
use asl_dmr_bridge.Frame.RoundTrip.{Fits, extract_ambe-assemble_burst}
use asl_dmr_bridge.EmbeddedLc.{encode_raw, crc5_embedded}
use asl_dmr_bridge.EmbeddedLc.Recovery.{received_lc, received_crc, received_lc-encode_raw}
use asl_dmr_bridge.Tests.Data.{burst_5}

burst_5-IsDmrd : IsDmrd burst_5
burst_5-IsDmrd = record {
  seq_byte = omega arith;
  src_fits = ground arith;
  dst_fits = omega arith;
  repeater_fits = ground arith;
  dtype_nibble = omega arith;
  stream_fits = omega arith;
  data_length = refl;
}

parse-serialize_example :
    (buf : List ℕ) × (serialize burst_5 ≡ some buf)
    × (length buf ≡ packet_size)
    × (parse (buf ++ (0 ∷ 0 ∷ [])) ≡ ok burst_5)
parse-serialize_example = parse-serialize burst_5 (0 ∷ 0 ∷ []) burst_5-IsDmrd

abbrev burst_bytes : List ℕ
burst_bytes =
    b'D'
    ∷ b'M'
    ∷ b'R'
    ∷ b'D'
    ∷ 1
    ∷ 0x2f
    ∷ 0x9b
    ∷ 0x82
    ∷ 0
    ∷ 0
    ∷ 91
    ∷ 0
    ∷ 4
    ∷ 0xc2
    ∷ 0xc0
    ∷ 0x10
    ∷ 0
    ∷ 0
    ∷ 0
    ∷ 5
    ∷ replicate 33 0

burst_bytes-IsByte : All IsByte burst_bytes
burst_bytes-IsByte = ground arith

burst_bytes-parse : parse burst_bytes ≡ ok burst_5
unfolding parse parse_fields subscriber_id dmr_id frame_type_of_flags slot_of_flags
    call_type_of_flags
burst_bytes-parse = refl

parse-IsDmrd_example : IsDmrd burst_5
parse-IsDmrd_example = parse-IsDmrd burst_bytes burst_5 burst_bytes-IsByte burst_bytes-parse

serialize-parse_example : serialize burst_5 ≡ some (take packet_size burst_bytes)
serialize-parse_example = serialize-parse burst_bytes burst_5 burst_bytes-IsByte burst_bytes-parse

qr_known : qr_16_7_decode 0x1391 ≡ some 9
unfolding qr_16_7_decode
qr_known = refl

emb_example :
    (qr_16_7_decode (emb_codeword (build_emb_section 1 1 (7 ∷ 8 ∷ 9 ∷ 10 ∷ []))) ≡ some 9)
    × (slice (build_emb_section 1 1 (7 ∷ 8 ∷ 9 ∷ 10 ∷ [])) 1 4 ≡ 7 ∷ 8 ∷ 9 ∷ 10 ∷ [])
emb_example = build_emb_section-reads_back 1 1 7 8 9 10 (omega arith) (omega arith)

abbrev three_codewords : Codewords
three_codewords = record { cw1 = replicate 9 0x12; cw2 = replicate 9 0xa5; cw3 = replicate 9 0xff }

three_codewords-Fits : Fits three_codewords (0x75 ∷ 0x5f ∷ 0xd7 ∷ 0xdf ∷ 0x75 ∷ 0xf7 ∷ [])
three_codewords-Fits = record {
  bytes1 = ground arith;
  bytes2 = ground arith;
  bytes3 = ground arith;
  bytes_sync = ground arith;
  length1 = refl;
  length2 = refl;
  length3 = refl;
  length_sync = refl;
}

extract_ambe_example :
    extract_ambe (assemble_burst three_codewords (0x75 ∷ 0x5f ∷ 0xd7 ∷ 0xdf ∷ 0x75 ∷ 0xf7 ∷ []))
    ≡ three_codewords
extract_ambe_example =
    extract_ambe-assemble_burst three_codewords (0x75 ∷ 0x5f ∷ 0xd7 ∷ 0xdf ∷ 0x75 ∷ 0xf7 ∷ [])
      three_codewords-Fits

abbrev callsign_and_name : List ℕ
callsign_and_name = 0x4e ∷ 0x30 ∷ 0x43 ∷ 0x41 ∷ 0x4c ∷ 0x4c ∷ 0x20 ∷ 0x41 ∷ 0x6e ∷ 0x6e ∷ []

-- The LC of a group call to talkgroup 91 by 3120001.
abbrev group_call_lc : List ℕ
group_call_lc = bits_of_bytes (0 ∷ 0 ∷ 0 ∷ 0 ∷ 0 ∷ 91 ∷ 0x2f ∷ 0x9b ∷ 0x81 ∷ [])

group_call_lc-length : length group_call_lc ≡ 72
unfolding bits_of_bytes
group_call_lc-length = refl

received_lc_example :
    (received_lc (encode_raw group_call_lc) ≡ group_call_lc)
    × (received_crc (encode_raw group_call_lc) ≡ crc5_embedded (bytes_of_bits 9 group_call_lc))
received_lc_example = received_lc-encode_raw group_call_lc group_call_lc-length
