-- ===== src/AmbeServer/Client.antt =====
-- ambe/src/ambeserver.rs over ambeserver/src: the vocoder behind the server as the client sees it.
use asl_dmr_bridge.Base.{
  ℕ, ◌+◌, ◌*◌, ◌≡◌, ◌≤◌, refl, arith, List, [], ◌∷◌, ◌++◌, Bool, true, false, ◌&&◌, not, Option,
  some, ◌==◌, if◌then◌else◌, length, length-append, All, ap, ◌∙◌,
}
use asl_dmr_bridge.Events.{PcmFrame, AmbeFrame}
use asl_dmr_bridge.Dv3000.{
  Packet, ambe, audio, ok, parse, parse_payload, parse_control, build_reset, build_ready,
  build_ratep_dmr, build_ratep_custom, build_control_ack, build_ambe, build_audio, be_bytes,
  is_ready, is_ratep_ack,
}
use asl_dmr_bridge.Dv3000.RoundTrip.{pcm, coded, build, meaning, IsSample, length-be_bytes}
use asl_dmr_bridge.Ambe.{
  Vocoder, Outcome, done, failed, io, send_recv, received, init, encode, decode, and_then, frame_in,
  samples_in, decode_request,
}
use asl_dmr_bridge.AmbeServer.{
  SoftBackend, sent, answer_with, handle, handle_parsed, on_packet, on_takeover, on_ratep, Server,
  serve, holds, described_as_reset,
}
use asl_dmr_bridge.AmbeServer.Negotiation.{session, session_of, Session}
use asl_dmr_bridge.AmbeServer.Messages.{
  served, remote, FitsFrame, FitsPcm, IsSized, received-build, ready_received, ack_received,
  arriving, FitsRequest, parsed_audio, parsed_request,
}

module _ {v : Vocoder} (peer now : ℕ) where
  -- A request, its reply, and what the client makes of it.
  asked :
      (request : List ℕ) (s : Server v) {s' : Server v} {reply : Option (List ℕ)}
      {r : Outcome Packet}
      → serve peer now request s ≡ (s', reply)
      → received reply ≡ r
      → send_recv (served peer now) request s ≡ (r, s')
  unfolding send_recv
  asked request s {s'} e f = ap (λ x. (received x.1, x.0)) e ∙ ap (λ x. (x, s')) f

  -- A packet of the holder reaches the backend.
  holder_turn :
      (t : ℕ) (bytes : List ℕ) (s : Server v)
      → s.holder ≡ some (peer, t)
      → serve peer now bytes s ≡ (
        record { holder = some (peer, now); backend = (handle bytes s.backend).0 },
        sent (handle bytes s.backend).1,
      )
  unfolding serve
  holder_turn t bytes s e = simp (e, same peer, off (described_as_reset bytes)) refl
    where
      same : (n : ℕ) → (n == n) ≡ true
      same n = ground arith

      off : (b : Bool) → (not b && false) ≡ false
      off true = refl
      off false = refl

  -- The holder and what the backend has become.
  abbrev now_holds : SoftBackend v → Server v
  now_holds b = record { holder = some (peer, now); backend = b }

  reset_turn :
      (s : Server v)
      → serve peer now build_reset s ≡ (
        now_holds (on_takeover (if holds s.holder peer then s.backend else on_takeover s.backend)),
        some build_ready,
      )
  unfolding serve handle handle_parsed described_as_reset build_reset parse parse_payload
      parse_control on_takeover
  reset_turn s = refl

  ratep_turn :
      (b : SoftBackend v)
      → serve peer now build_ratep_dmr (now_holds (on_takeover b)) ≡ (
        now_holds (record (on_takeover b) { ratep_acked = true }),
        some (build_control_ack 0x0a 0),
      )
  unfolding handle handle_parsed on_packet on_ratep build_ratep_dmr build_ratep_custom parse
      parse_payload parse_control on_takeover
  ratep_turn b = holder_turn now build_ratep_dmr (now_holds (on_takeover b)) refl

  after_init : Server v → SoftBackend v
  after_init s =
      record (on_takeover (if holds s.holder peer then s.backend else on_takeover s.backend)) {
        ratep_acked = true;
      }

  -- Whatever state the server is in, and whoever held it, a client that connects succeeds: it then holds
  -- the server, and the session is ready.
  pub init_succeeds :
      (s : Server v)
      → (r : Server v) × (init (send_recv (served peer now)) s ≡ (done tt, r))
        × (r.holder ≡ some (peer, now))
        × (session r.backend ≡ Session.ready)
  unfolding init is_ready is_ratep_ack on_takeover after_init
  init_succeeds s = (
    now_holds (after_init s),
    simp
        (
          asked build_reset s (reset_turn s) ready_received,
          asked build_ratep_dmr _
              (ratep_turn (if holds s.holder peer then s.backend else on_takeover s.backend))
              ack_received,
        )
        refl,
    refl,
    refl,
  )

-- The packet in which a result comes back.
abbrev as_packet : {A : Type 0} → (A → Packet) → Outcome A → Outcome Packet
as_packet f (done a) = done (f a)
as_packet f (failed e) = failed io

frame_received :
    (r : Outcome AmbeFrame)
    → FitsFrame r
    → received (sent (answer_with build_ambe r)) ≡ as_packet ambe r
unfolding build meaning received build_ambe
frame_received (done frame) h = received-build (coded frame) h (omega (arith, h))
frame_received (failed e) h = refl

samples_received :
    (r : Outcome PcmFrame)
    → FitsPcm r
    → received (sent (answer_with build_audio r)) ≡ as_packet audio r
unfolding build meaning received
samples_received (done samples) h =
    received-build (pcm samples) h
      (short (length-append (be_bytes samples) (2 ∷ 0 ∷ 0 ∷ [])) (length-be_bytes samples))
  where
    short :
        length (be_bytes samples ++ (2 ∷ 0 ∷ 0 ∷ [])) ≡ length (be_bytes samples) + 3
        → length (be_bytes samples) ≡ 2 * length samples
        → length (build_audio samples) ≤ 512
    short a b = unfold build_audio in omega (arith, a, b, h)
samples_received (failed e) h = refl

ready_flags : (p a : Bool) → session_of p a ≡ Session.ready → (p ≡ false) × (a ≡ true)
ready_flags true a e = ground arith
ready_flags false true e = (refl, refl)
ready_flags false false e = ground arith

module _ {v : Vocoder} where
  encode_turn :
      (samples : PcmFrame) (b : SoftBackend v)
      → session b ≡ Session.ready
      → (length samples ≡ 160) × All IsSample samples
      → handle (build_audio samples) b ≡ (
        record b { vocoder = (v.encode samples b.vocoder).1 },
        answer_with build_ambe (v.encode samples b.vocoder).0,
      )
  unfolding handle
  encode_turn samples b r f =
      ap (λ p. handle_parsed p b) (parsed_audio samples f)
      ∙ ready_encodes (ready_flags b.poisoned b.ratep_acked r)
    where
      ready_encodes :
          (b.poisoned ≡ false) × (b.ratep_acked ≡ true)
          → handle_parsed (ok (audio samples, length (build_audio samples))) b ≡ (
            record b { vocoder = (v.encode samples b.vocoder).1 },
            answer_with build_ambe (v.encode samples b.vocoder).0,
          )
      ready_encodes (p, a) = unfold handle_parsed on_packet in simp (p, a) refl

  decode_turn :
      (frame : Option AmbeFrame) (b : SoftBackend v)
      → session b ≡ Session.ready
      → FitsRequest frame
      → handle (decode_request frame) b ≡ (
        record b { vocoder = (v.decode (some (arriving frame)) b.vocoder).1 },
        answer_with build_audio (v.decode (some (arriving frame)) b.vocoder).0,
      )
  unfolding handle
  decode_turn frame b r f =
      ap (λ p. handle_parsed p b) (parsed_request frame f)
      ∙ ready_decodes (ready_flags b.poisoned b.ratep_acked r)
    where
      ready_decodes :
          (b.poisoned ≡ false) × (b.ratep_acked ≡ true)
          → handle_parsed (ok (ambe (arriving frame), length (decode_request frame))) b ≡ (
            record b { vocoder = (v.decode (some (arriving frame)) b.vocoder).1 },
            answer_with build_audio (v.decode (some (arriving frame)) b.vocoder).0,
          )
      ready_decodes (p, a) = unfold handle_parsed on_packet in simp (p, a) refl

  module _ (sized : IsSized v) (peer now t : ℕ) (s : Server v) (holder : s.holder ≡ some (peer, t))
      (negotiated : session s.backend ≡ Session.ready) where
    -- A client that holds a ready session encodes what the vocoder of the server encodes, and only that
    -- vocoder's state changes; an error of the vocoder shows as a timeout.
    pub client_encode :
        (samples : PcmFrame)
        → (length samples ≡ 160) × All IsSample samples
        → encode (send_recv (served peer now)) samples s ≡ (
          remote (v.encode samples s.backend.vocoder).0,
          record {
            holder = some (peer, now);
            backend = record s.backend { vocoder = (v.encode samples s.backend.vocoder).1 };
          },
        )
    unfolding encode
    client_encode samples f =
        ap (λ x. and_then x (λ packet s'. (frame_in packet, s')))
          (asked peer now (build_audio samples) s
            (holder_turn peer now t (build_audio samples) s holder
              ∙ ap (λ h. (now_holds peer now h.0, sent h.1))
                  (encode_turn samples s.backend negotiated f))
            (frame_received (v.encode samples s.backend.vocoder).0
              (sized.coded samples s.backend.vocoder)))
        ∙ by_result (v.encode samples s.backend.vocoder).0 _
      where
        by_result :
            (r : Outcome AmbeFrame) (s' : Server v)
            → and_then (as_packet ambe r, s') (λ packet s'. (frame_in packet, s')) ≡ (remote r, s')
        by_result (done frame) s' = refl
        by_result (failed e) s' = refl

    -- Likewise it decodes what that vocoder decodes, but for a lost frame the vocoder is given a
    -- frame of zeros instead of none.
    pub client_decode :
        (frame : Option AmbeFrame)
        → FitsRequest frame
        → decode (send_recv (served peer now)) frame s ≡ (
          remote (v.decode (some (arriving frame)) s.backend.vocoder).0,
          record {
            holder = some (peer, now);
            backend = record s.backend {
              vocoder = (v.decode (some (arriving frame)) s.backend.vocoder).1;
            };
          },
        )
    unfolding decode
    client_decode frame f =
        ap (λ x. and_then x (λ packet s'. (samples_in packet, s')))
          (asked peer now (decode_request frame) s
            (holder_turn peer now t (decode_request frame) s holder
              ∙ ap (λ h. (now_holds peer now h.0, sent h.1))
                  (decode_turn frame s.backend negotiated f))
            (samples_received (v.decode (some (arriving frame)) s.backend.vocoder).0
              (sized.heard (some (arriving frame)) s.backend.vocoder)))
        ∙ by_result (v.decode (some (arriving frame)) s.backend.vocoder).0 _
      where
        by_result :
            (r : Outcome PcmFrame) (s' : Server v)
            → and_then (as_packet audio r, s') (λ packet s'. (samples_in packet, s'))
              ≡ (remote r, s')
        by_result (done heard) s' = refl
        by_result (failed e) s' = refl
