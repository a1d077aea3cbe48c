-- ===== src/Usrp/Fields.antt =====
-- usrp-wire/src/lib.rs: samples, text and the header of a packet read back.
use asl_dmr_bridge.Base.{
  ℕ, suc, ◌+◌, ◌*◌, ◌^◌, ◌≡◌, ◌<◌, refl, arith, List, [], ◌∷◌, ◌++◌, Bool, true, false, not, Option,
  none, some, ltb, ◌==◌, if◌then◌else◌, length, length-append, take, list_eq, All, ap, ap₂, ◌∙◌,
  u32_to_be, u32_back,
}
use asl_dmr_bridge.Usrp.{
  magic, header_size, FrameType, voice, dtmf, text, good, from_u32, Endian, little, big,
  read_sample, write_sample, read_samples, write_samples, without_nul, parse_typed, parse, header,
  be_at, frame_of,
}

-- Whether there is audio.
abbrev pub is_some : Option (List ℕ) → Bool
is_some none = false
is_some (some samples) = true

abbrev pub IsSample : ℕ → Type 0
IsSample s = s < 2 ^ 16

sample_back :
    (host : Endian) (swap : Bool) (s n : ℕ) (rest : List ℕ)
    → s < 2 ^ 16
    → read_samples host swap (suc n) (write_sample host swap s ++ rest)
      ≡ s ∷ read_samples host swap n rest
unfolding read_samples write_sample read_sample
sample_back little true s n rest h = ap (λ x. x ∷ read_samples little true n rest) (omega arith)
sample_back little false s n rest h = ap (λ x. x ∷ read_samples little false n rest) (omega arith)
sample_back big true s n rest h = ap (λ x. x ∷ read_samples big true n rest) (omega arith)
sample_back big false s n rest h = ap (λ x. x ∷ read_samples big false n rest) (omega arith)

pub samples_back :
    (host : Endian) (swap : Bool) (ss : List ℕ)
    → All IsSample ss
    → read_samples host swap (length ss) (write_samples host swap ss) ≡ ss
unfolding write_samples
samples_back host swap [] h = unfold read_samples in refl
samples_back host swap (s ∷ ss) (k, h) =
    sample_back host swap s (length ss) (write_samples host swap ss) k
    ∙ ap (λ xs. s ∷ xs) (samples_back host swap ss h)

pub length-write_samples :
    (host : Endian) (swap : Bool) (ss : List ℕ)
    → length (write_samples host swap ss) ≡ 2 * length ss
unfolding write_samples
length-write_samples host swap [] = refl
length-write_samples host swap (s ∷ ss) =
    length-append (write_sample host swap s) (write_samples host swap ss)
    ∙ ap₂ (λ a b. a + b) (two host swap s) (length-write_samples host swap ss)
    ∙ omega arith
  where
    two : (host : Endian) (swap : Bool) (s : ℕ) → length (write_sample host swap s) ≡ 2
    two little true s = unfold write_sample in refl
    two little false s = unfold write_sample in refl
    two big true s = unfold write_sample in refl
    two big false s = unfold write_sample in refl

pub without_nul-append : (bs : List ℕ) → without_nul (bs ++ (0 ∷ [])) ≡ bs
unfolding without_nul
without_nul-append [] = refl
without_nul-append (b ∷ []) = refl
without_nul-append (b ∷ c ∷ bs) = ap (λ xs. b ∷ xs) (without_nul-append (c ∷ bs))

keyup_back : (b : Bool) → not (be_at (u32_to_be (if b then 1 else 0)) 0 == 0) ≡ b
keyup_back true = refl
keyup_back false = refl

parse-typed :
    (host : Endian) (swap : Bool) (buf : List ℕ) (frame_type : FrameType)
    → ltb (length buf) header_size ≡ false
    → list_eq (take 4 buf) magic ≡ true
    → from_u32 (be_at buf 20) ≡ good frame_type
    → parse host swap buf ≡ parse_typed host swap buf (good frame_type)
unfolding parse
parse-typed host swap buf frame_type e f g = simp (e, f, g) refl

-- A header that was written is accepted, and its fields read back.
module _ (host : Endian) (swap : Bool) (seq : ℕ) (keyup : Bool) (talkgroup : ℕ)
    (rest : List ℕ) where
  pub length-header :
      (frame_type : FrameType)
      → length (header seq keyup talkgroup frame_type rest) ≡ 32 + length rest
  unfolding header
  length-header frame_type = omega arith

  pub parse-header :
      (frame_type : FrameType)
      → parse host swap (header seq keyup talkgroup frame_type rest)
        ≡ parse_typed host swap (header seq keyup talkgroup frame_type rest) (good frame_type)
  unfolding header
  parse-header frame_type =
      parse-typed host swap (header seq keyup talkgroup frame_type rest) frame_type
        (long _ (length-header frame_type)) refl (type_back frame_type)
    where
      long : (n : ℕ) → n ≡ 32 + length rest → ltb n 32 ≡ false
      long n e = ground arith

      type_back :
          (ft : FrameType) → from_u32 (be_at (header seq keyup talkgroup ft rest) 20) ≡ good ft
      type_back voice = unfold from_u32 in refl
      type_back dtmf = unfold from_u32 in refl
      type_back text = unfold from_u32 in refl

  pub frame_of-header :
      (frame_type : FrameType) (audio payload : Option (List ℕ))
      → seq < 2 ^ 32
      → talkgroup < 2 ^ 32
      → frame_of (header seq keyup talkgroup frame_type rest) frame_type audio payload ≡ record {
        seq = seq;
        keyup = keyup;
        talkgroup = talkgroup;
        frame_type = frame_type;
        audio = audio;
        payload = payload;
      }
  unfolding header
  frame_of-header frame_type audio payload h k = λ i. record {
    seq = u32_back seq h i;
    keyup = keyup_back keyup i;
    talkgroup = u32_back talkgroup k i;
    frame_type = frame_type;
    audio = audio;
    payload = payload;
  }
