-- ===== src/Bridge/Stats/Counts.antt =====
-- bridge/src/stats.rs: the counts of a direction and what its statistics owe them.
use asl_dmr_bridge.Base.{
  ℕ, ◌+◌, ◌≡◌, ◌<◌, arith, List, Bool, true, false, Option, none, some, if◌then◌else◌,
}
use asl_dmr_bridge.Ids.{SubscriberId, Slot}
use asl_dmr_bridge.Events.{
  CallDirection, fm_to_dmr, dmr_to_fm, StatsEvent, call_start, voice_frame, frame_dropped, call_end,
}
use asl_dmr_bridge.Ptt.View.{Open, closed, open_to}
use asl_dmr_bridge.Bridge.Stats.{
  wrap_u64, DirectionStats, CallAccumulator, new_accumulator, Consumer, added,
}

-- What was reported of a direction.
pub record Counts : Type 0 where
  pub ends : ℕ
  pub frames : ℕ
  pub drops : ℕ

abbrev pub nothing : Counts
nothing = record { ends = 0; frames = 0; drops = 0 }

abbrev pub same_direction : CallDirection → CallDirection → Bool
same_direction fm_to_dmr fm_to_dmr = true
same_direction dmr_to_fm dmr_to_fm = true
same_direction _ _ = false

abbrev pub count_event : CallDirection → StatsEvent → Counts → Counts
count_event d (call_start e src dst slot) n = n
count_event d (voice_frame e t) n =
    if same_direction d e then record n { frames = n.frames + 1 } else n
count_event d (frame_dropped e) n =
    if same_direction d e then record n { drops = n.drops + 1 } else n
count_event d (call_end e reason) n =
    if same_direction d e then record n { ends = n.ends + 1 } else n

abbrev pub frames_of : Option CallAccumulator → ℕ
frames_of none = 0
frames_of (some acc) = acc.frames

abbrev pub drops_of : Option CallAccumulator → ℕ
drops_of none = 0
drops_of (some acc) = acc.drops

-- The counters of a direction with its call in flight hold the counts.
pub record Tally (s : DirectionStats) (acc : Option CallAccumulator) (n : Counts) : Type 0 where
  pub ends : s.calls_completed ≡ wrap_u64 n.ends
  pub frames : wrap_u64 (s.voice_frames + frames_of acc) ≡ wrap_u64 n.frames
  pub drops : wrap_u64 (s.drops + drops_of acc) ≡ wrap_u64 n.drops
  pub frames_fit : s.voice_frames < 18_446_744_073_709_551_616
  pub drops_fit : s.drops < 18_446_744_073_709_551_616

abbrev pub InFlight : Bool → Option CallAccumulator → Type 0
InFlight true none = ⊥
InFlight true (some acc) = Unit
InFlight false none = Unit
InFlight false (some acc) = ⊥

abbrev pub opened_by : CallDirection → Open → Bool
opened_by d closed = false
opened_by d (open_to e) = same_direction d e

pub record Books (o : Open) (c : Consumer) (fm dmr : Counts) : Type 0 where
  pub fm_tally : Tally c.stats.fm c.fm_call fm
  pub dmr_tally : Tally c.stats.dmr c.dmr_call dmr
  pub fm_flight : InFlight (opened_by fm_to_dmr o) c.fm_call
  pub dmr_flight : InFlight (opened_by dmr_to_fm o) c.dmr_call

module _ (s : DirectionStats) (n : Counts) where
  pub Tally-start :
      (now : ℕ) (src : SubscriberId) (dst : ℕ) (slot : Slot)
      → Tally s none n
      → Tally s (some (new_accumulator now src dst slot)) n
  unfolding new_accumulator
  Tally-start now src dst slot t = record {
    ends = t.ends;
    frames = t.frames;
    drops = t.drops;
    frames_fit = t.frames_fit;
    drops_fit = t.drops_fit;
  }

  pub Tally-frame :
      (acc : CallAccumulator) (times : List ℕ)
      → Tally s (some acc) n
      → Tally s
          (some (record acc { frames = wrap_u64 (acc.frames + 1); transcode_us = times }))
          (record n { frames = n.frames + 1 })
  Tally-frame acc times t = record {
    ends = t.ends;
    frames = omega (arith, t.frames);
    drops = t.drops;
    frames_fit = t.frames_fit;
    drops_fit = t.drops_fit;
  }

  pub Tally-drop :
      (acc : CallAccumulator)
      → Tally s (some acc) n
      → Tally s
          (some (record acc { drops = wrap_u64 (acc.drops + 1) }))
          (record n { drops = n.drops + 1 })
  Tally-drop acc t = record {
    ends = t.ends;
    frames = t.frames;
    drops = omega (arith, t.drops);
    frames_fit = t.frames_fit;
    drops_fit = t.drops_fit;
  }

  pub Tally-end :
      (acc : CallAccumulator)
      → Tally s (some acc) n
      → Tally (added acc s) none (record n { ends = n.ends + 1 })
  unfolding added
  Tally-end acc t = record {
    ends = omega (arith, t.ends);
    frames = omega (arith, t.frames);
    drops = omega (arith, t.drops);
    frames_fit = omega arith;
    drops_fit = omega arith;
  }
