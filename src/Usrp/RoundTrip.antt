-- ===== src/Usrp/RoundTrip.antt =====
-- usrp-wire/src/lib.rs: packets read back.
use asl_dmr_bridge.Base.{
  ℕ, ◌+◌, ◌*◌, ◌^◌, ◌≡◌, ◌<◌, refl, arith, List, [], ◌∷◌, ◌++◌, Bool, false, Option, none, some,
  if◌then◌else◌, length, drop, All, ap, ◌∙◌, sym,
}
use mathlib.Core.Path.{subst}
use asl_dmr_bridge.Usrp.{
  header_size, voice_samples, packet_size, voice, text, Frame, good, Endian, read_samples,
  write_samples, without_nul, parse_typed, parse, header, serialize_text, serialize, samples_of,
  frame_of,
}
use asl_dmr_bridge.Usrp.Fields.{
  is_some, IsSample, samples_back, length-write_samples, without_nul-append, length-header,
  parse-header, frame_of-header,
}

-- What a voice packet carries: a header alone, or 160 samples.
pub record IsVoice (frame : Frame) : Type 0 where
  pub seq_fits : frame.seq < 2 ^ 32
  pub talkgroup_fits : frame.talkgroup < 2 ^ 32
  pub is_voice : frame.frame_type ≡ voice
  pub no_payload : frame.payload ≡ none
  pub samples_fit : All IsSample (samples_of frame.audio)
  pub samples_count :
      length (samples_of frame.audio) ≡ (if is_some frame.audio then voice_samples else 0)

module _ (host : Endian) (swap : Bool) where
  full_packet :
      (buf : List ℕ)
      → length buf ≡ packet_size
      → parse_typed host swap buf (good voice)
        ≡ good (
            frame_of buf voice
              (some (read_samples host swap voice_samples (drop header_size buf)))
              none)
  unfolding parse_typed
  full_packet buf e = simp e refl

  voice_fields :
      (seq talkgroup : ℕ) (keyup : Bool) (audio : Option (List ℕ))
      → seq < 2 ^ 32
      → talkgroup < 2 ^ 32
      → All IsSample (samples_of audio)
      → length (samples_of audio) ≡ (if is_some audio then voice_samples else 0)
      → parse host swap
          (header seq keyup talkgroup voice (write_samples host swap (samples_of audio)))
        ≡ good (record {
          seq = seq;
          keyup = keyup;
          talkgroup = talkgroup;
          frame_type = voice;
          audio = audio;
          payload = none;
        })
  unfolding parse_typed header write_samples
  voice_fields seq talkgroup keyup none h k a c =
      parse-header host swap seq keyup talkgroup [] voice
      ∙ ap good (frame_of-header host swap seq keyup talkgroup [] voice none none h k)
  voice_fields seq talkgroup keyup (some ss) h k a c =
      let rest = write_samples host swap ss in
      parse-header host swap seq keyup talkgroup rest voice
      ∙ full_packet (header seq keyup talkgroup voice rest) (
          whole (length-write_samples host swap ss)
            (length-header host swap seq keyup talkgroup rest voice))
      ∙ ap good (
          frame_of-header host swap seq keyup talkgroup rest voice
            (some (read_samples host swap 160 rest)) none h k)
      ∙ ap
          (λ xs. good (record {
            seq = seq;
            keyup = keyup;
            talkgroup = talkgroup;
            frame_type = voice;
            audio = some xs;
            payload = none;
          }))
          (subst (λ n. read_samples host swap n rest ≡ ss) c (samples_back host swap ss a))
    where
      whole :
          length (write_samples host swap ss) ≡ 2 * length ss
          → length (header seq keyup talkgroup voice (write_samples host swap ss))
            ≡ 32 + length (write_samples host swap ss)
          → length (header seq keyup talkgroup voice (write_samples host swap ss)) ≡ packet_size
      whole e f = omega (arith, e, f, c)

  -- A voice frame, of a header alone or with 160 samples of 16 bits, reads back from what it is serialized
  -- to, on a host of either byte order and with samples swapped or not.
  pub parse-serialize_frame :
      (frame : Frame) → IsVoice frame → parse host swap (serialize host swap frame) ≡ good frame
  unfolding serialize
  parse-serialize_frame frame v =
      let read_back =
        voice_fields frame.seq frame.talkgroup frame.keyup frame.audio v.seq_fits v.talkgroup_fits
          v.samples_fit v.samples_count in
      let as_voice = sym v.is_voice in
      ap
        (λ ft. parse host swap (
          header frame.seq frame.keyup frame.talkgroup ft
            (write_samples host swap (samples_of frame.audio))))
        v.is_voice
      ∙ read_back
      ∙ (λ i. good (record {
        seq = frame.seq;
        keyup = frame.keyup;
        talkgroup = frame.talkgroup;
        frame_type = as_voice i;
        audio = frame.audio;
        payload = sym v.no_payload i;
      }))

-- A text packet reads back as an unkeyed text frame with its sequence number and its payload.
pub parse-serialize_text :
    (host : Endian) (swap : Bool) (seq : ℕ) (payload : List ℕ)
    → seq < 2 ^ 32
    → parse host swap (serialize_text seq payload)
      ≡ good (record {
        seq = seq;
        keyup = false;
        talkgroup = 0;
        frame_type = text;
        audio = none;
        payload = some payload;
      })
unfolding serialize_text parse_typed
parse-serialize_text host swap seq payload h =
    parse-header host swap seq false 0 (payload ++ (0 ∷ [])) text
    ∙ ap good (
        frame_of-header host swap seq false 0 (payload ++ (0 ∷ [])) text none
          (some (without_nul (drop header_size (header seq false 0 text (payload ++ (0 ∷ [])))))) h
          (omega arith))
    ∙ ap
        (λ p. good (record {
          seq = seq;
          keyup = false;
          talkgroup = 0;
          frame_type = text;
          audio = none;
          payload = some p;
        }))
        (without_nul-append payload)
