-- ===== src/Ptt/Transcode.antt =====
-- dmr-wire/src/voice/ptt.rs: `decode` and `encode`, the vocoder calls with their panics and cancellation.
use asl_dmr_bridge.Base.{ℕ, true, ◌||◌, Option, none, some, if◌then◌else◌}
use asl_dmr_bridge.Events.{PcmFrame, AmbeFrame}
use asl_dmr_bridge.Ptt.Machine.{Outcome, good, bad, panics, Reply, Codec, PttMachine, fatal_vocoder}

-- The machine after a vocoder call, its result (`none` for every error), and the time it took.
pub record Transcoded (codec : Codec) (A : Type 0) : Type 0 where
  pub machine : PttMachine codec
  pub result : Option A
  pub elapsed : ℕ

module _ {codec : Codec} where
  -- A good result counts only while nobody has cancelled the task.
  kept : {A : Type 0} → Outcome A → ℕ → PttMachine codec → Transcoded codec A
  unfolding fatal_vocoder
  kept (good a) elapsed m = record {
    machine = m;
    result = if m.cancelled then none else some a;
    elapsed = elapsed;
  }
  kept bad elapsed m = record { machine = m; result = none; elapsed = elapsed }
  kept panics elapsed m = record {
    machine = fatal_vocoder (record m { poisoned = true });
    result = none;
    elapsed = elapsed;
  }

  after_call : {A : Type 0} → PttMachine codec → Reply codec.Vocoder A → Transcoded codec A
  unfolding kept
  after_call m reply =
      kept reply.outcome reply.elapsed
        (record m { vocoder = reply.next; cancelled = m.cancelled || reply.cancel_seen })

  -- A cancelled task does not call; a poisoned lock panics inside the guard.
  guarded : {A : Type 0} → PttMachine codec → Reply codec.Vocoder A → Transcoded codec A
  unfolding after_call fatal_vocoder
  guarded m reply =
      if m.cancelled
      then record { machine = m; result = none; elapsed = 0 }
      else if m.poisoned
      then record { machine = fatal_vocoder m; result = none; elapsed = 0 }
      else after_call m reply

  unfoldable pub decode : Option AmbeFrame → PttMachine codec → Transcoded codec PcmFrame
  unfolding guarded
  decode ambe m = guarded m (codec.decode m.vocoder ambe)

  -- The filter runs on every frame, also for a task that is cancelled.
  filtered : PcmFrame → PttMachine codec → PttMachine codec × PcmFrame
  filtered pcm m = elim m.pre_encode_filter [
    | none ↦ (m, pcm)
    | some f ↦
        let (f', pcm') = codec.process_pcm f pcm in (record m { pre_encode_filter = some f' }, pcm')
  ]

  unfoldable pub encode : PcmFrame → PttMachine codec → Transcoded codec AmbeFrame
  unfolding guarded filtered
  encode pcm m = let (m', pcm') = filtered pcm m in guarded m' (codec.encode m'.vocoder pcm')
