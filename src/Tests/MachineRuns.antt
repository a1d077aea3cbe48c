-- ===== src/Tests/MachineRuns.antt =====
-- The theorems on the voice task at concrete machines and events.
use asl_dmr_bridge.Base.{
  ℕ, length, ◌+◌, ◌≡◌, refl, arith, List, [], ◌∷◌, true, false, none, some, inl,
}
use asl_dmr_bridge.Ids.{talkgroup}
use asl_dmr_bridge.Events.{StatsEvent, call_start, dmr_to_fm, fm_to_dmr}
use asl_dmr_bridge.Voice.{build_dmrd, matches_config, frames_per_burst}
use asl_dmr_bridge.Dmrd.{data_sync, serialize}
use asl_dmr_bridge.Bptc.{build_voice_lc_body, build_voice_lc}
use asl_dmr_bridge.Ptt.Machine.{Env, PttMachine, idle, rx, tx, stats}
use asl_dmr_bridge.Ptt.View.{quiet, open_to, replay, watch, Consistent}
use asl_dmr_bridge.Ptt.OnDmrd.{disrupts}
use asl_dmr_bridge.Ptt.Calls.{step-Consistent}
use asl_dmr_bridge.Ptt.Runs.{orderly, Fresh, Fresh-Consistent, voice_task-quiet}
use asl_dmr_bridge.Ptt.Lost.{step-disrupted}
use asl_dmr_bridge.Ptt.Counters.{Bounded}
use asl_dmr_bridge.Ptt.Counters.Steps.{step-Bounded}
use asl_dmr_bridge.Ptt.Accounting.{Counts, frames_accounted}
use asl_dmr_bridge.Ptt.Accounting.Received.{play_burst-accounts}
use asl_dmr_bridge.Ptt.Accounting.Sent.{send_burst-accounts}
use asl_dmr_bridge.Ptt.Rx.{play_burst}
use asl_dmr_bridge.Ptt.Tx.{send_burst}
use asl_dmr_bridge.Ptt.Handlers.{Event, timeout, dmrd, audio_in, step, voice_task}
use asl_dmr_bridge.Bridge.Stats.{Consumer, new_consumer, consume_events}
use asl_dmr_bridge.Bridge.Stats.Counts.{nothing}
use asl_dmr_bridge.Bridge.Stats.Totals.{counted, reported, Totals, consume_events-voice_task}
use asl_dmr_bridge.Tests.Data.{
  counting_codec, machine, env_at, packet, header_5, burst_5, terminator_5, keyed_audio,
  received_call, sent_call,
}

abbrev fresh : PttMachine counting_codec
fresh = machine idle []

fresh-Fresh : Fresh fresh
fresh-Fresh = record {
  starts_idle = refl;
  nothing_out = refl;
  counts = refl;
  configured = (omega arith, omega arith);
}

-- A call from DMR, then a transmission that is cut off by the shutdown.
abbrev both_ways : List (Env × Event)
both_ways =
    (env_at 1, dmrd header_5)
    ∷ (env_at 2, dmrd burst_5)
    ∷ (env_at 3, dmrd terminator_5)
    ∷ (env_at 600, timeout)
    ∷ (env_at 601, audio_in keyed_audio)
    ∷ (env_at 602, audio_in keyed_audio)
    ∷ (env_at 603, audio_in keyed_audio)
    ∷ []

both_ways-orderly : orderly both_ways fresh ≡ true
unfolding orderly talkgroup build_voice_lc_body build_voice_lc serialize build_dmrd
both_ways-orderly = refl

voice_task-quiet_example :
    ((voice_task (env_at 604) both_ways fresh).state ≡ idle)
    × (replay (voice_task (env_at 604) both_ways fresh).log ≡ some quiet)
voice_task-quiet_example =
    voice_task-quiet (env_at 604) both_ways fresh fresh-Fresh both_ways-orderly

-- The statistics arrive one after the other.
abbrev both_ways_reports : List (ℕ × StatsEvent)
both_ways_reports = reported length (voice_task (env_at 604) both_ways fresh).log

abbrev both_ways_consumer : Consumer
both_ways_consumer = consume_events 3 both_ways_reports new_consumer

consume_events_example :
    (both_ways_consumer.fm_call ≡ none)
    × (both_ways_consumer.dmr_call ≡ none)
    × Totals both_ways_consumer.stats.fm (counted fm_to_dmr both_ways_reports nothing)
    × Totals both_ways_consumer.stats.dmr (counted dmr_to_fm both_ways_reports nothing)
consume_events_example =
    consume_events-voice_task (env_at 604) both_ways fresh 3 length fresh-Fresh both_ways-orderly

header_5-calm : disrupts (dmrd header_5) fresh ≡ false
unfolding disrupts matches_config
header_5-calm = refl

step-Consistent_example : Consistent (step (env_at 1) (dmrd header_5) fresh)
step-Consistent_example =
    step-Consistent (env_at 1) (dmrd header_5) fresh header_5-calm
      (Fresh-Consistent fresh fresh-Fresh)

-- While a call is received.
abbrev receiving_machine : PttMachine counting_codec
receiving_machine =
    machine (rx received_call)
      (stats (call_start dmr_to_fm (record { as_u32 = 3_120_002 }) 91 received_call.slot) ∷ [])

receiving-Consistent : Consistent receiving_machine
unfolding replay watch
receiving-Consistent = record {
  state_is = refl;
  enabled = refl;
  configured = (omega arith, omega arith);
  view = record { calls = open_to dmr_to_fm; keyed = none; shown = false };
  seen = refl;
  meets = (refl, inl refl);
}

second_header-disrupts : disrupts (dmrd (packet 0 data_sync 1 6)) receiving_machine ≡ true
unfolding disrupts matches_config
second_header-disrupts = refl

step-disrupted_example :
    ¬ Consistent (step (env_at 20) (dmrd (packet 0 data_sync 1 6)) receiving_machine)
step-disrupted_example =
    step-disrupted (env_at 20) (dmrd (packet 0 data_sync 1 6)) receiving_machine
      second_header-disrupts receiving-Consistent

abbrev sending_machine : PttMachine counting_codec
sending_machine =
    machine (tx sent_call)
      (stats (call_start fm_to_dmr (record { as_u32 = 3_120_001 }) 91 received_call.slot) ∷ [])

sending-Consistent : Consistent sending_machine
unfolding replay watch
sending-Consistent = record {
  state_is = refl;
  enabled = refl;
  configured = (omega arith, omega arith);
  view = record { calls = open_to fm_to_dmr; keyed = none; shown = false };
  seen = refl;
  meets = (refl, refl, refl);
}

sending-Bounded : Bounded sending_machine.state
sending-Bounded = record {
  seq_fits = omega arith;
  position = omega arith;
  waiting = omega arith;
  superframe_fits = omega arith;
  has_lc = omega arith;
}

step-Bounded_example : Bounded (step (env_at 11) (audio_in keyed_audio) sending_machine).state
step-Bounded_example =
    step-Bounded (env_at 11) (audio_in keyed_audio) sending_machine sending-Consistent
      sending-Bounded

nothing_counted : Counts 0 receiving_machine
unfolding frames_accounted
nothing_counted = record { on = refl; total = refl }

play_burst-accounts_example :
    Counts (frames_per_burst + 0) (play_burst (env_at 12) burst_5 2 receiving_machine)
play_burst-accounts_example =
    play_burst-accounts (env_at 12) burst_5 2 0 receiving_machine nothing_counted

nothing_sent : Counts 0 sending_machine
unfolding frames_accounted
nothing_sent = record { on = refl; total = refl }

send_burst-accounts_example :
    Counts
      (frames_per_burst + 0)
      (send_burst (env_at 12) ([] ∷ [] ∷ [] ∷ []) sent_call sending_machine).0
send_burst-accounts_example =
    send_burst-accounts (env_at 12) ([] ∷ [] ∷ [] ∷ []) sent_call 0 sending_machine
      (omega arith, omega arith) refl nothing_sent
