-- ===== src/Dv3000/RoundTrip.antt =====
-- dv3000-wire/src/lib.rs: every packet that is built is parsed back, whatever follows it.
use asl_dmr_bridge.Base.{
  ℕ, suc, ◌+◌, ◌*◌, ◌/◌, ◌≡◌, ◌<◌, refl, arith, List, [], ◌∷◌, ◌++◌, true, false, ltb, ◌==◌,
  if◌then◌else◌, length, length-append, replicate, get_or, take, drop, take-append, take_all, All,
  ap, ap₂, Bool-cases, inl, inr, ◌∙◌,
}
use mathlib.Core.Path.{subst}
use asl_dmr_bridge.Events.{PcmFrame, AmbeFrame}
use asl_dmr_bridge.Dv3000.{
  Packet, ambe, ambe_of_bits, audio, control, ok, parse, parse_payload, parse_ambe, parse_audio,
  parse_control, be_samples, consumed, framed, be_bytes, build_audio, build_ambe,
  build_ambe_lost_frame, build_reset, build_ratep_custom, build_ratep_dmr, build_gain, clamp_db,
  build_prodid, build_prodid_response, build_ready, build_control_ack, build_ambe_for_bits,
  control_reset, control_ready, control_ratep, control_gain, control_prodid, ratep_dmr, bytes_for,
  total_len,
}

-- What the builders can be asked for.
pub data Message : Type 0 where
  pcm : PcmFrame → Message
  coded : AmbeFrame → Message
  coded_bits : ℕ → List ℕ → Message
  lost ratep_for_dmr reset prodid ready : Message
  ratep prodid_response : List ℕ → Message
  gain ack : ℕ → ℕ → Message

unfoldable pub build : Message → List ℕ
unfolding build_audio build_ambe build_ambe_for_bits build_ambe_lost_frame build_reset
    build_ratep_custom build_ratep_dmr build_gain build_prodid build_prodid_response build_ready
    build_control_ack
build (pcm samples) = build_audio samples
build (coded frame) = build_ambe frame
build (coded_bits bits bytes) = build_ambe_for_bits bits bytes
build lost = build_ambe_lost_frame
build ratep_for_dmr = build_ratep_dmr
build reset = build_reset
build prodid = build_prodid
build ready = build_ready
build (ratep rcws) = build_ratep_custom rcws
build (prodid_response name) = build_prodid_response name
build (gain in_db out_db) = build_gain in_db out_db
build (ack field_id result) = build_control_ack field_id result

-- What a receiver makes of them. A lost frame shows as a frame of zeros.
unfoldable pub meaning : Message → Packet
unfolding clamp_db
meaning (pcm samples) = audio samples
meaning (coded frame) = ambe frame
meaning (coded_bits bits bytes) = if bits == 72 then ambe bytes else ambe_of_bits bits bytes
meaning lost = ambe (0 ∷ 0 ∷ 0 ∷ 0 ∷ 0 ∷ 0 ∷ 0 ∷ 0 ∷ 0 ∷ [])
meaning ratep_for_dmr = control control_ratep ratep_dmr
meaning reset = control control_reset []
meaning prodid = control control_prodid []
meaning ready = control control_ready []
meaning (ratep rcws) = control control_ratep rcws
meaning (prodid_response name) = control control_prodid name
meaning (gain in_db out_db) = control control_gain (clamp_db in_db ∷ clamp_db out_db ∷ [])
meaning (ack field_id result) = control field_id (result ∷ [])

abbrev pub IsSample : ℕ → Type 0
IsSample s = s < 65536

-- The sizes that the types of the source fix, and the length of a payload in 16 bits.
abbrev pub Fits : Message → Type 0
Fits (pcm samples) = (length samples ≡ 160) × All IsSample samples
Fits (coded frame) = length frame ≡ 9
Fits (coded_bits bits bytes) = (bits < 256) × (length bytes ≡ bytes_for bits)
Fits (ratep rcws) = length rcws ≡ 12
Fits (prodid_response name) = length name < 65535
Fits _ = Unit

pub parse_whole :
    (buf : List ℕ) (n : ℕ)
    → ltb (length buf) 4 ≡ false
    → (get_or buf 0 0 == 0x61) ≡ true
    → total_len buf ≡ n
    → ltb (length buf) n ≡ false
    → parse buf ≡ consumed n (parse_payload (get_or buf 3 0) (drop 4 (take n buf)))
unfolding parse
parse_whole buf n long starts e enough =
    subst
      (λ n.
        ltb (length buf) n ≡ false
        → parse buf ≡ consumed n (parse_payload (get_or buf 3 0) (drop 4 (take n buf))))
      e (λ enough. simp (long, starts, enough) refl) enough

-- A framed payload comes back to the parser of its type.
parse-framed :
    (packet_type : ℕ) (payload rest : List ℕ)
    → length payload < 65536
    → parse (framed packet_type payload ++ rest)
      ≡ consumed (length (framed packet_type payload)) (parse_payload packet_type payload)
parse-framed packet_type payload rest h =
    parse_whole (framed packet_type payload ++ rest) (length (framed packet_type payload))
      (long (length (payload ++ rest))) refl (omega (arith, h))
      (enough (length-append payload rest))
    ∙ ap (λ bs. consumed (length (framed packet_type payload)) (parse_payload packet_type bs))
        (take-append (length payload) payload rest refl)
  where
    long : (n : ℕ) → ltb (suc (suc (suc (suc n)))) 4 ≡ false
    long n = ground arith

    enough :
        length (payload ++ rest) ≡ length payload + length rest
        → ltb
            (suc (suc (suc (suc (length (payload ++ rest))))))
            (suc (suc (suc (suc (length payload)))))
          ≡ false
    enough e = ground arith

pub length-be_bytes : (ss : PcmFrame) → length (be_bytes ss) ≡ 2 * length ss
unfolding be_bytes
length-be_bytes [] = refl
length-be_bytes (s ∷ ss) = ap (λ n. suc (suc n)) (length-be_bytes ss) ∙ omega arith

be_samples-be_bytes :
    (ss : PcmFrame) (rest : List ℕ)
    → All IsSample ss
    → be_samples (length ss) (be_bytes ss ++ rest) ≡ ss
unfolding be_samples be_bytes
be_samples-be_bytes [] rest h = refl
be_samples-be_bytes (s ∷ ss) rest (k, h) =
    ap₂ ◌∷◌ (omega (arith, k)) (be_samples-be_bytes ss rest h)

audio_back :
    (samples : PcmFrame)
    → length samples ≡ 160
    → All IsSample samples
    → parse_payload 2 (0 ∷ 160 ∷ (be_bytes samples ++ (2 ∷ 0 ∷ 0 ∷ []))) ≡ ok (audio samples)
unfolding parse_payload parse_audio
audio_back samples e h =
    simp (long (length-append (be_bytes samples) (2 ∷ 0 ∷ 0 ∷ [])) (length-be_bytes samples)) (
      ap (λ ss. ok (audio ss))
        (subst (λ n. be_samples n (be_bytes samples ++ (2 ∷ 0 ∷ 0 ∷ [])) ≡ samples) e
          (be_samples-be_bytes samples (2 ∷ 0 ∷ 0 ∷ []) h)))
  where
    long :
        length (be_bytes samples ++ (2 ∷ 0 ∷ 0 ∷ [])) ≡ length (be_bytes samples) + 3
        → length (be_bytes samples) ≡ 2 * length samples
        → ltb (suc (suc (length (be_bytes samples ++ (2 ∷ 0 ∷ 0 ∷ []))))) 322 ≡ false
    long a b = ground arith

coded_back :
    (bits : ℕ) (bytes : List ℕ)
    → length bytes ≡ bytes_for bits
    → parse_payload 1 (1 ∷ bits ∷ bytes)
      ≡ ok (if bits == 72 then ambe bytes else ambe_of_bits bits bytes)
unfolding parse_payload parse_ambe
coded_back bits bytes e = elim (Bool-cases (bits == 72)) [
  | inl f ↦ simp (a_long (length bytes), long e, f, whole) refl
  | inr f ↦ simp (a_long (length bytes), long e, f, whole) refl
]
  where
    a_long : (n : ℕ) → ltb (suc (suc n)) 2 ≡ false
    a_long n = ground arith

    long :
        length bytes ≡ bytes_for bits → ltb (suc (suc (length bytes))) (2 + bytes_for bits) ≡ false
    long e = ground arith

    whole : take ((bits + 7) / 8) bytes ≡ bytes
    whole = take_all ((bits + 7) / 8) bytes e

-- Every packet that a builder makes of arguments of the right sizes is parsed as what it means, and
-- with its own length, whatever bytes follow it.
pub parse-build :
    (m : Message) (rest : List ℕ)
    → Fits m
    → parse (build m ++ rest) ≡ ok (meaning m, length (build m))
unfolding build meaning
parse-build (pcm samples) rest (e, h) =
    parse-framed 2 (0 ∷ 160 ∷ (be_bytes samples ++ (2 ∷ 0 ∷ 0 ∷ []))) rest
      (short (length-append (be_bytes samples) (2 ∷ 0 ∷ 0 ∷ [])) (length-be_bytes samples))
    ∙ ap (consumed _) (audio_back samples e h)
  where
    short :
        length (be_bytes samples ++ (2 ∷ 0 ∷ 0 ∷ [])) ≡ length (be_bytes samples) + 3
        → length (be_bytes samples) ≡ 2 * length samples
        → suc (suc (length (be_bytes samples ++ (2 ∷ 0 ∷ 0 ∷ [])))) < 65536
    short a b = omega (arith, a, b, e)
parse-build (coded frame) rest e =
    parse-framed 1 (1 ∷ 72 ∷ frame) rest (omega (arith, e))
    ∙ ap (consumed _) (coded_back 72 frame e)
parse-build (coded_bits bits bytes) rest (b, e) =
    parse-framed 1 (1 ∷ bits ∷ bytes) rest (omega (arith, b, e))
    ∙ ap (consumed _) (coded_back bits bytes e)
parse-build lost rest h =
    parse-framed 1 (1 ∷ 72 ∷ (replicate 9 0 ++ (2 ∷ 0 ∷ 4 ∷ []))) rest (omega arith)
    ∙ unfold parse_payload parse_ambe in refl
parse-build ratep_for_dmr rest h =
    parse-framed 0 (control_ratep ∷ ratep_dmr) rest (omega arith)
    ∙ unfold parse_payload parse_control in refl
parse-build reset rest h =
    parse-framed 0 (control_reset ∷ []) rest (omega arith)
    ∙ unfold parse_payload parse_control in refl
parse-build prodid rest h =
    parse-framed 0 (control_prodid ∷ []) rest (omega arith)
    ∙ unfold parse_payload parse_control in refl
parse-build ready rest h =
    parse-framed 0 (control_ready ∷ []) rest (omega arith)
    ∙ unfold parse_payload parse_control in refl
parse-build (ratep rcws) rest e =
    parse-framed 0 (control_ratep ∷ rcws) rest (omega (arith, e))
    ∙ unfold parse_payload parse_control in refl
parse-build (prodid_response name) rest h =
    parse-framed 0 (control_prodid ∷ name) rest (omega (arith, h))
    ∙ unfold parse_payload parse_control in refl
parse-build (gain in_db out_db) rest h =
    parse-framed 0 (control_gain ∷ clamp_db in_db ∷ clamp_db out_db ∷ []) rest (omega arith)
    ∙ unfold parse_payload parse_control in refl
parse-build (ack field_id result) rest h =
    parse-framed 0 (field_id ∷ result ∷ []) rest (omega arith)
    ∙ unfold parse_payload parse_control in refl
