-- ===== src/AmbeServer/Messages.antt =====
-- ambeserver and ambe/src/ambeserver.rs: the messages that client and server exchange.
use mathlib.Core.List.{append-nil}
use asl_dmr_bridge.Base.{
  ℕ, zero, suc, ◌≡◌, ◌≤◌, refl, arith, List, [], ◌∷◌, Option, none, some, length, take, replicate,
  All, ap, ◌∙◌, sym,
}
use asl_dmr_bridge.Events.{PcmFrame, AmbeFrame}
use asl_dmr_bridge.Dv3000.{
  ambe, audio, control, ok, parse, build_ready, build_control_ack, build_audio,
}
use asl_dmr_bridge.Dv3000.RoundTrip.{
  Message, pcm, coded, lost, ready, ack, build, meaning, Fits, parse-build, IsSample,
}
use asl_dmr_bridge.Ambe.{Vocoder, Outcome, done, failed, io, received, packet_of, decode_request}
use asl_dmr_bridge.AmbeServer.{Server, serve}

-- The server as the peer of a UDP transport, at a time.
abbrev pub served : {v : Vocoder} → ℕ → ℕ → List ℕ → Server v → Option (List ℕ) × Server v
served peer now bytes s = let (s', reply) = serve peer now bytes s in (reply, s')

-- What the client learns of a result: an error is a timeout.
abbrev pub remote : {A : Type 0} → Outcome A → Outcome A
remote (done a) = done a
remote (failed e) = failed io

abbrev pub FitsFrame : Outcome AmbeFrame → Type 0
FitsFrame (done frame) = length frame ≡ 9
FitsFrame (failed e) = Unit

abbrev pub FitsPcm : Outcome PcmFrame → Type 0
FitsPcm (done samples) = (length samples ≡ 160) × All IsSample samples
FitsPcm (failed e) = Unit

-- The sizes that the types of a vocoder's results fix.
pub record IsSized (v : Vocoder) : Type 0 where
  pub coded : (samples : PcmFrame) (st : v.State) → FitsFrame (v.encode samples st).0
  pub heard : (frame : Option AmbeFrame) (st : v.State) → FitsPcm (v.decode frame st).0

pub take_long : (n : ℕ) (xs : List ℕ) → length xs ≤ n → take n xs ≡ xs
take_long zero [] h = refl
take_long (suc n) [] h = refl
take_long zero (x ∷ xs) h = absurd (omega (arith, h))
take_long (suc n) (x ∷ xs) h = ap (λ l. x ∷ l) (take_long n xs (omega (arith, h)))

-- A message arrives as what it means, at the server and at the client.
pub parsed : (m : Message) → Fits m → parse (build m) ≡ ok (meaning m, length (build m))
parsed m h = ap parse (sym (append-nil (build m))) ∙ parse-build m [] h

pub received-build :
    (m : Message) → Fits m → length (build m) ≤ 512 → received (some (build m)) ≡ done (meaning m)
unfolding received packet_of
received-build m h k = ap packet_of (ap parse (take_long 512 (build m) k) ∙ parsed m h)

pub ready_received : received (some build_ready) ≡ done (control 0x39 [])
unfolding build meaning
ready_received = received-build ready tt (omega arith)

pub ack_received : received (some (build_control_ack 0x0a 0)) ≡ done (control 0x0a (0 ∷ []))
unfolding build meaning
ack_received = received-build (ack 0x0a 0) tt (omega arith)

-- The voice that the backend is sent: a lost frame arrives as a frame of zeros.
abbrev pub arriving : Option AmbeFrame → AmbeFrame
arriving none = replicate 9 0
arriving (some frame) = frame

abbrev pub FitsRequest : Option AmbeFrame → Type 0
FitsRequest none = Unit
FitsRequest (some frame) = length frame ≡ 9

pub parsed_audio :
    (samples : PcmFrame)
    → (length samples ≡ 160) × All IsSample samples
    → parse (build_audio samples) ≡ ok (audio samples, length (build_audio samples))
unfolding build meaning
parsed_audio samples f = parsed (pcm samples) f

pub parsed_request :
    (frame : Option AmbeFrame)
    → FitsRequest frame
    → parse (decode_request frame) ≡ ok (ambe (arriving frame), length (decode_request frame))
unfolding build meaning
parsed_request none f = parsed lost tt
parsed_request (some frame) f = parsed (coded frame) f
