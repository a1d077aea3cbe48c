-- ===== src/Tests/NetworkRuns.antt =====
-- The theorems on USRP packets and on the network client at concrete inputs.
use asl_dmr_bridge.Base.{
  ℕ, ◌⊎◌, ◌≡◌, ◌<◌, refl, arith, List, [], ◌∷◌, true, false, none, some, replicate, All, length,
  ◌++◌, ◌↔◌,
}
use asl_dmr_bridge.Usrp.{parse as parse_usrp, Frame, voice, good, little, serialize}
use asl_dmr_bridge.Usrp.RoundTrip.{IsVoice, parse-serialize_frame}
use asl_dmr_bridge.Homebrew.{
  classify, LoopEvent, tick, received, queued, going, new_tracker, keepalive_loop, no_address,
  tag_rptack, tag_mstcl, Out, to_master, build_tagged, build_rptk, new_backoff, starts_with, turn,
  inbound,
}
use asl_dmr_bridge.Homebrew.Connection.{Attempt, connect_once, run, delays, run-delays}
use asl_dmr_bridge.Homebrew.Login.{
  AuthEvent, arrived, accepted, Credentials, tag_rptl, authenticate, login_from, login_step,
}
use asl_dmr_bridge.Homebrew.Login.Accepted.{LetsIn, authenticate-accepted}
use asl_dmr_bridge.Homebrew.Alive.{Answered, keepalive_loop-keeps}
use asl_dmr_bridge.Homebrew.Ending.{Returned, Ended}
use asl_dmr_bridge.Homebrew.Keepalive.{keepalive_loop-gives_up}
use asl_dmr_bridge.Homebrew.Silence.{SilentAfter, ticks}

abbrev frame : Frame
frame = record {
  seq = 7;
  keyup = true;
  talkgroup = 91;
  frame_type = voice;
  audio = some (replicate 160 0x1234);
  payload = none;
}

frame-IsVoice : IsVoice frame
frame-IsVoice = record {
  seq_fits = omega arith;
  talkgroup_fits = omega arith;
  is_voice = refl;
  no_payload = refl;
  samples_fit = ground arith;
  samples_count = refl;
}

parse-serialize_frame_example : parse_usrp little true (serialize little true frame) ≡ good frame
parse-serialize_frame_example = parse-serialize_frame little true frame frame-IsVoice

-- A tick more than the limit on misses, a beacon request in between, no answer.
abbrev silence_after_5 : List LoopEvent
silence_after_5 =
    tick 10 true
    ∷ received 12 (b'R' ∷ b'P' ∷ b'T' ∷ b'S' ∷ b'B' ∷ b'K' ∷ b'N' ∷ []) true
    ∷ tick 15 true
    ∷ tick 20 true
    ∷ queued (some [])
    ∷ tick 25 true
    ∷ []

silence_after_5-SilentAfter : All (SilentAfter 5) silence_after_5
unfolding classify
silence_after_5-SilentAfter = ground arith

enough_ticks : (1 < ticks silence_after_5) × (3 < ticks silence_after_5)
unfolding ticks
enough_ticks = ground arith

keepalive_loop-gives_up_example :
    Returned
      (keepalive_loop (record { as_u32 = 312_000 }) silence_after_5 (going (new_tracker 5 3)))
    ↔ (Ended silence_after_5 ⊎ ((1 < ticks silence_after_5) × (3 < ticks silence_after_5)))
keepalive_loop-gives_up_example =
    keepalive_loop-gives_up (record { as_u32 = 312_000 }) 5 3 silence_after_5
      silence_after_5-SilentAfter

-- Two pings, each with its pong, a beacon request in between, and a last ping.
abbrev answered_from_5 : List LoopEvent
answered_from_5 =
    tick 10 true
    ∷ received 11 (b'M' ∷ b'S' ∷ b'T' ∷ b'P' ∷ b'O' ∷ b'N' ∷ b'G' ∷ []) true
    ∷ received 12 (b'R' ∷ b'P' ∷ b'T' ∷ b'S' ∷ b'B' ∷ b'K' ∷ b'N' ∷ []) true
    ∷ tick 15 true
    ∷ received 15 (b'M' ∷ b'S' ∷ b'T' ∷ b'P' ∷ b'O' ∷ b'N' ∷ b'G' ∷ []) true
    ∷ queued (some [])
    ∷ tick 20 true
    ∷ []

answered_from_5-Answered : Answered false 5 answered_from_5
unfolding classify
answered_from_5-Answered = ground arith

keepalive_loop-keeps_example :
    ¬ Returned
      (keepalive_loop (record { as_u32 = 312_000 }) answered_from_5 (going (new_tracker 5 3)))
keepalive_loop-keeps_example =
    keepalive_loop-keeps (record { as_u32 = 312_000 }) 5 3 answered_from_5 answered_from_5-Answered

abbrev repeater : Credentials
repeater = record {
  sha256 = λ bytes. replicate 32 (length bytes);
  dmr_id = record { as_u32 = 312_000 };
  password = b'p' ∷ b'w' ∷ [];
  config_packet = b'R' ∷ b'P' ∷ b'T' ∷ b'C' ∷ [];
}

-- An answer that is too short, then the challenge and two acknowledgements.
abbrev welcome : List AuthEvent
welcome =
    arrived tag_rptack true
    ∷ arrived (tag_rptack ++ (1 ∷ 2 ∷ 3 ∷ 4 ∷ [])) true
    ∷ arrived tag_rptack true
    ∷ arrived tag_rptack false
    ∷ []

abbrev packets_of_login : List Out
packets_of_login =
    to_master (build_tagged tag_rptl repeater.dmr_id)
    ∷ to_master (build_rptk repeater.sha256 repeater.dmr_id (1 ∷ 2 ∷ 3 ∷ 4 ∷ []) repeater.password)
    ∷ to_master repeater.config_packet
    ∷ []

authenticate-accepted_example :
    (authenticate repeater true welcome ≡ (accepted, packets_of_login)) ↔ (
      (true ≡ true)
      × ((nonce : List ℕ) × LetsIn nonce welcome
          × (to_master (build_tagged tag_rptl repeater.dmr_id)
                ∷ to_master (build_rptk repeater.sha256 repeater.dmr_id nonce repeater.password)
                ∷ to_master repeater.config_packet
                ∷ []
              ≡ packets_of_login)))
authenticate-accepted_example = authenticate-accepted repeater true welcome packets_of_login

welcome-LetsIn : LetsIn (1 ∷ 2 ∷ 3 ∷ 4 ∷ []) welcome
unfolding starts_with
welcome-LetsIn = (refl, (refl, (refl, refl, (refl, refl))))

abbrev nowhere : Attempt
nowhere = record {
  setup_error = some no_address;
  login_sent = true;
  replies = [];
  control_open = true;
  started = 0;
  events = [];
  cancelled_after = false;
  cancelled_waiting = false;
}

-- No address twice; a session that the master ends; no address again; cancelled while waiting.
abbrev unlucky : List Attempt
unlucky =
    nowhere
    ∷ nowhere
    ∷ (record nowhere {
      setup_error = none;
      replies = welcome;
      events = received 9 tag_mstcl true ∷ [];
    })
    ∷ nowhere
    ∷ (record nowhere { cancelled_waiting = true })
    ∷ nowhere
    ∷ []

unlucky-delays : delays repeater 3 unlucky 0 ≡ 1 ∷ 2 ∷ 1 ∷ 2 ∷ 4 ∷ []
unfolding delays connect_once authenticate login_from login_step starts_with keepalive_loop turn
    classify inbound
unlucky-delays = refl

run-delays_example : (run repeater 3 unlucky new_backoff).0 ≡ delays repeater 3 unlucky 0
run-delays_example = run-delays repeater 3 unlucky
