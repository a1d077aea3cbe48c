-- ===== src/AmbeServer.antt =====
-- ambeserver/src: the server that lends a vocoder to one client at a time (main.rs), with the software
-- backend (backend/soft.rs). Times count milliseconds; the vocoder is any implementation of the trait.
pub mod Negotiation
pub mod Session
pub mod Messages
pub mod Client
use asl_dmr_bridge.Base.{
  ℕ, ◌+◌, ◌-◌, List, [], ◌∷◌, Bool, true, false, ◌&&◌, ◌||◌, not, Option, none, some, ltb, ◌==◌,
  if◌then◌else◌, length, get_or, take, list_eq,
}
use asl_dmr_bridge.Events.{PcmFrame, AmbeFrame}
use asl_dmr_bridge.Dv3000.{
  Packet, ambe, ambe_of_bits, audio, control, Result, ok, err, parse, start_byte, type_control,
  control_reset, control_ratep, control_gain, control_prodid, ratep_dmr, build_ready,
  build_control_ack, build_prodid_response, build_ambe, build_audio,
}
use asl_dmr_bridge.Ambe.{Vocoder, Outcome, done, failed, VocoderError}

abbrev pub ack_ok : ℕ
ack_ok = 0

abbrev pub ack_reject : ℕ
ack_reject = 1

pub record SoftBackend (v : Vocoder) : Type 0 where
  pub vocoder : v.State
  pub prodid : List ℕ
  pub ratep_acked : Bool
  pub poisoned : Bool

-- What `handle` answers: bytes, nothing, or an error.
pub data Answer : Type 0 where
  respond : List ℕ → Answer
  silent : Answer
  broken : VocoderError → Answer

-- The reply that a result becomes; an error ends the handling.
abbrev pub answer_with : {A : Type 0} → (A → List ℕ) → Outcome A → Answer
answer_with f (done a) = respond (f a)
answer_with f (failed e) = broken e

-- What goes back to the peer.
abbrev pub sent : Answer → Option (List ℕ)
sent (respond reply) = some reply
sent silent = none
sent (broken e) = none

abbrev is_reset : Packet → Bool
is_reset (control field_id bytes) = field_id == control_reset
is_reset _ = false

module _ {v : Vocoder} where
  abbrev renewed : SoftBackend v → SoftBackend v
  renewed b = record b { ratep_acked = false; poisoned = false; vocoder = v.reset b.vocoder }

  on_ratep : List ℕ → SoftBackend v → SoftBackend v × Answer
  on_ratep bytes b =
      if list_eq bytes ratep_dmr
      then (record b { ratep_acked = true }, respond (build_control_ack control_ratep ack_ok))
      else (record b { poisoned = true }, respond (build_control_ack control_ratep ack_reject))

  on_gain : List ℕ → SoftBackend v → SoftBackend v × Answer
  on_gain (in_db ∷ out_db ∷ _) b =
      let (r, s) = v.set_gain in_db out_db b.vocoder in
      (record b { vocoder = s }, answer_with (λ _. build_control_ack control_gain ack_ok) r)
  on_gain _ b = (b, silent)

  on_packet : Packet → SoftBackend v → SoftBackend v × Answer
  unfolding on_ratep on_gain
  on_packet (control field_id bytes) b =
      if field_id == control_ratep
      then on_ratep bytes b
      else if field_id == control_gain
      then on_gain bytes b
      else if field_id == control_prodid
      then (b, respond (build_prodid_response b.prodid))
      else (b, silent)
  on_packet (audio pcm) b =
      if not b.ratep_acked
      then (b, silent)
      else (let (r, s) = v.encode pcm b.vocoder in
          (record b { vocoder = s }, answer_with build_ambe r))
  on_packet (ambe frame) b =
      if not b.ratep_acked
      then (b, silent)
      else (let (r, s) = v.decode (some frame) b.vocoder in
          (record b { vocoder = s }, answer_with build_audio r))
  on_packet (ambe_of_bits bits bytes) b = (b, silent)

  pub handle_parsed : Result (Packet × ℕ) → SoftBackend v → SoftBackend v × Answer
  unfolding on_packet
  handle_parsed (err e) b = (b, silent)
  handle_parsed (ok (packet, n)) b =
      if is_reset packet
      then (renewed b, respond build_ready)
      else if b.poisoned
      then (b, silent)
      else on_packet packet b

  unfoldable pub handle : List ℕ → SoftBackend v → SoftBackend v × Answer
  unfolding handle_parsed
  handle request b = handle_parsed (parse request) b

  unfoldable pub on_takeover : SoftBackend v → SoftBackend v
  on_takeover b = renewed b

abbrev pub exclusive_hold : ℕ
exclusive_hold = 1000

-- `describe_control(pkt) == Some("RESET")`
unfoldable pub described_as_reset : List ℕ → Bool
described_as_reset bytes =
    not (ltb (length bytes) 5)
    && (get_or bytes 0 0 == start_byte)
    && (get_or bytes 3 0 == type_control)
    && (get_or bytes 4 0 == control_reset)

-- The loop's variables: the client that holds the vocoder with the time of its last packet, and the
-- backend. A peer is a number.
pub record Server (v : Vocoder) : Type 0 where
  pub holder : Option (ℕ × ℕ)
  pub backend : SoftBackend v

-- `h != peer && now.duration_since(t) < EXCLUSIVE_HOLD`
abbrev pub held_by_other : Option (ℕ × ℕ) → ℕ → ℕ → Bool
held_by_other none peer now = false
held_by_other (some (h, t)) peer now = not (h == peer) && ltb (now - t) exclusive_hold

abbrev pub holds : Option (ℕ × ℕ) → ℕ → Bool
holds none peer = false
holds (some (h, t)) peer = h == peer

-- One turn of the loop: the server, and what it sends back to the peer.
module _ {v : Vocoder} where
  unfoldable pub serve : ℕ → ℕ → List ℕ → Server v → Server v × Option (List ℕ)
  unfolding handle on_takeover described_as_reset
  serve peer now bytes s =
      if not (described_as_reset bytes) && held_by_other s.holder peer now
      then (s, none)
      else (let (b, answer) =
            handle bytes (if holds s.holder peer then s.backend else on_takeover s.backend) in
          (record { holder = some (peer, now); backend = b }, sent answer))
