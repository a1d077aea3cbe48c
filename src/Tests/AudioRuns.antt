-- ===== src/Tests/AudioRuns.antt =====
-- The theorems on the USRP tasks at concrete frames.
use asl_dmr_bridge.Base.{
  if◌then◌else◌, ◌==◌, ℕ, zero, suc, ◌+◌, ◌≡◌, refl, arith, List, [], ◌∷◌, map, true, false, none,
  some, replicate, All,
}
use asl_dmr_bridge.Events.{PcmFrame, clear}
use asl_dmr_bridge.Usrp.{little}
use asl_dmr_bridge.Bridge.Audio.{
  Agc, Settings, Handed, taken, full, closed, TxEvent, audio, metadata, running, rx_task, tx_task,
}
use asl_dmr_bridge.Bridge.Audio.Loopback.{packets_in, listening, rx_task-tx_task}
use asl_dmr_bridge.Bridge.Audio.Sending.{Plain, played, quiet}
use asl_dmr_bridge.Bridge.Audio.Pacing.{Voice, voice_event, schedule, tx_task-paced}

-- A gain control that counts its frames and mutes the first one.
abbrev muting : Agc
muting = record {
  State = ℕ;
  process = λ pcm n. (if_first pcm n, n + 1);
  reset = λ n. 0;
  take_summary = λ n. n;
}
  where
    if_first : PcmFrame → ℕ → PcmFrame
    if_first pcm zero = replicate 160 0
    if_first pcm (suc n) = pcm

abbrev sender : Settings muting
sender = record {
  host = little;
  byte_swap = true;
  remote = 1;
  talkgroup = 91;
  limiter = some (λ pcm. replicate 160 500);
  to_json = λ meta. none;
}

abbrev receiver : Settings muting
receiver = record sender { remote = 2; limiter = none }

-- Two frames of voice, metadata in between, and the unkey twice.
abbrev call_events : List TxEvent
call_events =
    audio 0 0 false
      (some (record { keyup = true; samples = some (replicate 160 9); dmr_stream_id = some 4 }))
    ∷ metadata 3 (some clear)
    ∷ audio 5 1 false
        (some (record { keyup = true; samples = some (replicate 160 700); dmr_stream_id = some 4 }))
    ∷ audio 41 0 false (some (record { keyup = false; samples = none; dmr_stream_id = some 4 }))
    ∷ audio 42 0 false (some (record { keyup = false; samples = none; dmr_stream_id = some 4 }))
    ∷ []

call_events-Plain : All (Plain sender) call_events
call_events-Plain = ground arith

-- The channel has no room for the third packet, and is closed before the fifth.
abbrev room : ℕ → Handed
room n = if n == 2 then full else if n == 4 then closed else taken

rx_task-tx_task_example :
    rx_task receiver
      (packets_in sender receiver room 0
        (tx_task sender call_events (running (quiet sender 0xffff_ffff none false))))
      (running (listening sender receiver))
    ≡ played sender room 0 call_events
rx_task-tx_task_example =
    rx_task-tx_task sender receiver refl refl refl (omega arith) room 0 call_events 0xffff_ffff none
      false call_events-Plain (omega arith)

call_events-played :
    map (λ frame. frame.keyup) (played sender room 0 call_events) ≡ true ∷ false ∷ []
call_events-played = refl

abbrev voice_at : ℕ → ℕ → Voice
voice_at now late = record { now = now; late = late; pcm = replicate 160 9; stream = some 4 }

-- The second frame is early and woken late, the third early, the fourth late itself.
tx_task-paced_example :
    map
      (λ p. p.at)
      (tx_task sender
        (map voice_event (voice_at 100 0 ∷ voice_at 104 3 ∷ voice_at 121 0 ∷ voice_at 175 0 ∷ []))
        (running
          (record { seq = 5; next_voice_send = none; agc = some 0; had_voice_in_call = false })))
    ≡ schedule 100 0 (voice_at 100 0 ∷ voice_at 104 3 ∷ voice_at 121 0 ∷ voice_at 175 0 ∷ [])
tx_task-paced_example =
    tx_task-paced sender (voice_at 100 0) (voice_at 104 3 ∷ voice_at 121 0 ∷ voice_at 175 0 ∷ [])
      (record { seq = 5; next_voice_send = none; agc = some 0; had_voice_in_call = false }) refl

paced_times :
    schedule 100 0 (voice_at 100 0 ∷ voice_at 104 3 ∷ voice_at 121 0 ∷ voice_at 175 0 ∷ [])
    ≡ 100 ∷ 123 ∷ 140 ∷ 175 ∷ []
paced_times = refl
