-- ===== src/Bridge/Stats.antt =====
-- bridge/src/stats.rs: the counters per direction, and the periodic reports on them. Counters are `u64`;
-- an event comes with the consumer's clock. The percentiles of a log line are left out of it.
pub mod Counts
pub mod Tally
pub mod Totals
use asl_dmr_bridge.Base.{
  ℕ, ◌+◌, ◌-◌, ◌%◌, ◌^◌, List, [], ◌∷◌, ◌++◌, Bool, true, false, ◌&&◌, not, Option, none, some, ltb,
  leb, ◌==◌, if◌then◌else◌,
}
use asl_dmr_bridge.Ids.{SubscriberId, Slot}
use asl_dmr_bridge.Events.{
  CallDirection, fm_to_dmr, dmr_to_fm, TerminationReason, StatsEvent, call_start, voice_frame,
  frame_dropped, call_end,
}

abbrev pub wrap_u64 : ℕ → ℕ
wrap_u64 n = n % 18_446_744_073_709_551_616

pub record DirectionStats : Type 0 where
  pub calls_completed : ℕ
  pub voice_frames : ℕ
  pub drops : ℕ

pub record Stats : Type 0 where
  pub fm : DirectionStats
  pub dmr : DirectionStats

abbrev pub no_counts : DirectionStats
no_counts = record { calls_completed = 0; voice_frames = 0; drops = 0 }

abbrev pub dir : Stats → CallDirection → DirectionStats
dir stats fm_to_dmr = stats.fm
dir stats dmr_to_fm = stats.dmr

pub record CallAccumulator : Type 0 where
  pub started_at : ℕ
  pub src_id : SubscriberId
  pub dst_id : ℕ
  pub slot : Slot
  pub frames : ℕ
  pub drops : ℕ
  pub transcode_us : List ℕ

unfoldable pub new_accumulator : ℕ → SubscriberId → ℕ → Slot → CallAccumulator
new_accumulator now src_id dst_id slot = record {
  started_at = now;
  src_id = src_id;
  dst_id = dst_id;
  slot = slot;
  frames = 0;
  drops = 0;
  transcode_us = [];
}

pub record LogLine : Type 0 where
  pub direction : CallDirection
  pub call : CallAccumulator
  pub duration : ℕ
  pub reason : TerminationReason

-- The shared counters, the call in flight of each direction, and the lines logged, the newest first.
pub record Consumer : Type 0 where
  pub stats : Stats
  pub fm_call : Option CallAccumulator
  pub dmr_call : Option CallAccumulator
  pub lines : List LogLine

unfoldable pub new_consumer : Consumer
new_consumer = record {
  stats = record { fm = no_counts; dmr = no_counts };
  fm_call = none;
  dmr_call = none;
  lines = [];
}

unfoldable pub added : CallAccumulator → DirectionStats → DirectionStats
added acc s = record {
  calls_completed = wrap_u64 (s.calls_completed + 1);
  voice_frames = wrap_u64 (s.voice_frames + acc.frames);
  drops = wrap_u64 (s.drops + acc.drops);
}

unfoldable pub fold_into_stats : CallDirection → CallAccumulator → Stats → Stats
unfolding added
fold_into_stats fm_to_dmr acc stats = record stats { fm = added acc stats.fm }
fold_into_stats dmr_to_fm acc stats = record stats { dmr = added acc stats.dmr }

abbrev pub call_in_flight : CallDirection → Consumer → Option CallAccumulator
call_in_flight fm_to_dmr c = c.fm_call
call_in_flight dmr_to_fm c = c.dmr_call

abbrev set_call : CallDirection → Option CallAccumulator → Consumer → Consumer
set_call fm_to_dmr acc c = record c { fm_call = acc }
set_call dmr_to_fm acc c = record c { dmr_call = acc }

-- A call still in flight is counted first.
fold_previous : CallDirection → Option CallAccumulator → Consumer → Consumer
unfolding fold_into_stats
fold_previous direction none c = c
fold_previous direction (some acc) c = record c { stats = fold_into_stats direction acc c.stats }

-- `transcode.as_micros().min(u32::MAX)`
abbrev capped_us : ℕ → ℕ
capped_us us = if ltb 4_294_967_295 us then 4_294_967_295 else us

count_frame : CallDirection → ℕ → Option CallAccumulator → Consumer → Consumer
count_frame direction transcode none c = c
count_frame direction transcode (some acc) c =
    set_call direction
      (some (record acc {
        frames = wrap_u64 (acc.frames + 1);
        transcode_us = acc.transcode_us ++ (capped_us transcode ∷ []);
      }))
      c

count_drop : CallDirection → Option CallAccumulator → Consumer → Consumer
count_drop direction none c = c
count_drop direction (some acc) c =
    set_call direction (some (record acc { drops = wrap_u64 (acc.drops + 1) })) c

-- The end of a call that took less than the least duration is counted and not logged.
finish_call :
    ℕ → ℕ → CallDirection → TerminationReason → Option CallAccumulator → Consumer → Consumer
unfolding fold_into_stats
finish_call min_call_log_duration now direction reason none c = c
finish_call min_call_log_duration now direction reason (some acc) c =
    let duration = now - acc.started_at in
    let line : LogLine = record {
      direction = direction;
      call = acc;
      duration = duration;
      reason = reason;
    } in
    record (set_call direction none c) {
      stats = fold_into_stats direction acc c.stats;
      lines = if leb min_call_log_duration duration then line ∷ c.lines else c.lines;
    }

unfoldable pub consume_event : ℕ → ℕ → StatsEvent → Consumer → Consumer
unfolding fold_previous new_accumulator count_frame count_drop finish_call
consume_event min now (call_start direction src_id dst_id slot) c =
    set_call direction (some (new_accumulator now src_id dst_id slot))
      (fold_previous direction (call_in_flight direction c) c)
consume_event min now (voice_frame direction transcode) c =
    count_frame direction transcode (call_in_flight direction c) c
consume_event min now (frame_dropped direction) c =
    count_drop direction (call_in_flight direction c) c
consume_event min now (call_end direction reason) c =
    finish_call min now direction reason (call_in_flight direction c) c

-- The events with the times at which they are received, the first one first.
unfoldable pub consume_events : ℕ → List (ℕ × StatsEvent) → Consumer → Consumer
unfolding consume_event
consume_events min [] c = c
consume_events min ((now, event) ∷ rest) c = consume_events min rest (consume_event min now event c)

-- The frame counts that the last heartbeat reported.
pub record Heartbeat : Type 0 where
  pub last_fm_frames : ℕ
  pub last_dmr_frames : ℕ

-- One tick: whether it reports, and what it keeps.
unfoldable pub heartbeat_tick : Bool → Stats → Heartbeat → Heartbeat × Bool
heartbeat_tick skip_idle stats h =
    if skip_idle
      && (stats.fm.voice_frames == h.last_fm_frames)
      && (stats.dmr.voice_frames == h.last_dmr_frames)
    then (h, false)
    else (
      record { last_fm_frames = stats.fm.voice_frames; last_dmr_frames = stats.dmr.voice_frames },
      true,
    )

-- `a - b` on `u64`, where a release build wraps.
abbrev minus_u64 : ℕ → ℕ → ℕ
minus_u64 a b = wrap_u64 (a + 18_446_744_073_709_551_616 - b)

abbrev since : DirectionStats → DirectionStats → DirectionStats
since s previous = record {
  calls_completed = minus_u64 s.calls_completed previous.calls_completed;
  voice_frames = minus_u64 s.voice_frames previous.voice_frames;
  drops = minus_u64 s.drops previous.drops;
}

-- The reports of the summary task, one for what it reads at each tick.
unfoldable pub summaries : Stats → List Stats → List Stats
summaries previous [] = []
summaries previous (stats ∷ later) =
    record { fm = since stats.fm previous.fm; dmr = since stats.dmr previous.dmr }
    ∷ summaries stats later
