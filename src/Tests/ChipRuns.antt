-- ===== src/Tests/ChipRuns.antt =====
-- The theorems on chip packets and the vocoder server at concrete inputs.
use asl_dmr_bridge.Ambe.Channel.{channel_encode, channel_decode}
use asl_dmr_bridge.Ambe.Channel.Recovery.{channel_decode-channel_encode}
use asl_dmr_bridge.Base.{
  ℕ, suc, ◌%◌, ◌≡◌, ◌≤◌, refl, arith, List, [], ◌∷◌, ◌++◌, Bool, true, false, none, some, length,
  replicate, drop, All, ◌==◌, ◌≢◌, ◌↔◌,
}
use asl_dmr_bridge.Events.{PcmFrame}
use asl_dmr_bridge.Dv3000.{control, ok, parse, build_ambe, build_ratep_custom, build_prodid}
use asl_dmr_bridge.Dv3000.RoundTrip.{gain, build, meaning, parse-build, IsSample}
use asl_dmr_bridge.Ambe.{
  Vocoder, Outcome, done, failed, decode_failed, init, encode, decode, send_recv, serial_recv,
}
use asl_dmr_bridge.Ambe.Serial.{serial_recv-parse}
use asl_dmr_bridge.AmbeServer.{SoftBackend, silent, handle, Server, described_as_reset}
use asl_dmr_bridge.AmbeServer.Negotiation.{Session, session, negotiate_parsed, carries_voice}
use asl_dmr_bridge.AmbeServer.Session.{
  handle-session, Datagram, serve_all, from, to_peer, Undisturbed, serve_all-Undisturbed,
}
use asl_dmr_bridge.AmbeServer.Messages.{served, FitsPcm, IsSized}
use asl_dmr_bridge.AmbeServer.Client.{init_succeeds, client_encode, client_decode}

abbrev tone : PcmFrame
tone = replicate 160 1234

abbrev heard_at : Bool → Outcome PcmFrame
heard_at true = done tone
heard_at false = failed decode_failed

-- A vocoder that counts its calls, and fails to decode every other frame.
abbrev counting : Vocoder
counting = record {
  State = ℕ;
  encode = λ samples n. (done (replicate 9 0xab), suc n);
  decode = λ frame n. (heard_at (n % 2 == 0), suc n);
  reset = λ n. 0;
  warm_cache = λ n. n;
  set_gain = λ in_db out_db n. (done tt, n);
}

quiet_samples : (length tone ≡ 160) × All IsSample tone
quiet_samples = (refl, ground arith)

heard_at-FitsPcm : (b : Bool) → FitsPcm (heard_at b)
heard_at-FitsPcm true = quiet_samples
heard_at-FitsPcm false = tt

counting-IsSized : IsSized counting
counting-IsSized = record {
  coded = λ samples n. refl;
  heard = λ frame n. heard_at-FitsPcm (n % 2 == 0);
}

abbrev ready_backend : SoftBackend counting
ready_backend = record { vocoder = 4; prodid = 0x41 ∷ 0 ∷ []; ratep_acked = true; poisoned = false }

abbrev held_server : Server counting
held_server = record { holder = some (7, 100); backend = ready_backend }

client_encode_example : encode (send_recv (served 7 120)) tone held_server ≡ (
  done (replicate 9 0xab),
  record { holder = some (7, 120); backend = record ready_backend { vocoder = 5 } },
)
client_encode_example =
    client_encode counting-IsSized 7 120 100 held_server refl refl tone quiet_samples

client_decode_example :
    decode (send_recv (served 7 120)) none held_server
    ≡ (done tone, record { holder = some (7, 120); backend = record ready_backend { vocoder = 5 } })
client_decode_example = client_decode counting-IsSized 7 120 100 held_server refl refl none tt

init_succeeds_example :
    (r : Server counting) × (init (send_recv (served 9 130)) held_server ≡ (done tt, r))
    × (r.holder ≡ some (9, 130))
    × (session r.backend ≡ Session.ready)
init_succeeds_example = init_succeeds 9 130 held_server

abbrev other_rate : List ℕ
other_rate = build_ratep_custom (replicate 12 0xab)

handle-session_example :
    (session (handle other_rate ready_backend).0
      ≡ negotiate_parsed (parse other_rate) Session.ready)
    × (carries_voice (parse other_rate) ≡ true
        → session ready_backend ≢ Session.ready
        → handle other_rate ready_backend ≡ (ready_backend, silent))
handle-session_example = handle-session other_rate ready_backend

-- Client 7 speaks, 9 asks for the product in between, 7 speaks again.
abbrev crossing : List Datagram
crossing =
    (7, 120, build_ambe (replicate 9 1))
    ∷ (9, 130, build_prodid)
    ∷ (7, 140, build_ambe (replicate 9 2))
    ∷ []

crossing-Undisturbed : Undisturbed 7 100 crossing
unfolding build_prodid described_as_reset
crossing-Undisturbed = (refl, refl, tt)

serve_all_example :
    (to_peer 7 (serve_all crossing held_server).0
      ≡ to_peer 7 (serve_all (from 7 crossing) held_server).0)
    × ((serve_all crossing held_server).1 ≡ (serve_all (from 7 crossing) held_server).1)
serve_all_example = serve_all-Undisturbed 7 crossing 100 held_server refl crossing-Undisturbed

abbrev two_packets : List ℕ
two_packets = 0x61 ∷ 0 ∷ 2 ∷ 0 ∷ 0x0a ∷ 0 ∷ 0x61 ∷ 0 ∷ []

two_packets-parse : parse two_packets ≡ ok (control 0x0a (0 ∷ []), 6)
unfolding parse
two_packets-parse = refl

serial_recv-parse_example :
    (serial_recv two_packets ≡ done (control 0x0a (0 ∷ []), 0x61 ∷ 0 ∷ [])) ↔ (
      (n : ℕ) × (parse two_packets ≡ ok (control 0x0a (0 ∷ []), n))
      × (n ≤ 512)
      × (drop n two_packets ≡ 0x61 ∷ 0 ∷ []))
serial_recv-parse_example = serial_recv-parse two_packets (0x61 ∷ 0 ∷ []) (control 0x0a (0 ∷ []))

parse-build_example :
    parse (build (gain 0x81 6) ++ (0x61 ∷ []))
    ≡ ok (meaning (gain 0x81 6), length (build (gain 0x81 6)))
parse-build_example = parse-build (gain 0x81 6) (0x61 ∷ []) tt

channel_decode-channel_encode_example :
    channel_decode (channel_encode (0xf8 ∷ 0x01 ∷ 0xa9 ∷ 0x9f ∷ 0x8c ∷ 0xe0 ∷ 0xff ∷ []))
    ≡ 0xf8 ∷ 0x01 ∷ 0xa9 ∷ 0x9f ∷ 0x8c ∷ 0xe0 ∷ 0x80 ∷ []
channel_decode-channel_encode_example =
    channel_decode-channel_encode 0xf8 0x01 0xa9 0x9f 0x8c 0xe0 0xff (ground arith)
