-- ===== src/Ptt/View.antt =====
-- What the outputs of the voice task look like from outside: the call that the statistics have open,
-- the stream that keys the FM side, and whether call metadata is on display.
use asl_dmr_bridge.Base.{ℕ, ◌≡◌, ◌≤◌, List, [], ◌∷◌, Bool, true, false, Option, none, some, ◌⊎◌}
use asl_dmr_bridge.Events.{
  MetaEvent, StatsEvent, CallDirection, fm_to_dmr, dmr_to_fm, voice_frame, frame_dropped,
  call_start, call_end,
}
use asl_dmr_bridge.Ids.{max_24bit}
use asl_dmr_bridge.Voice.{VoiceConfig}
use asl_dmr_bridge.Ptt.Machine.{
  Codec, PttState, idle, rx, rx_hang, tx, Effect, PttMachine, audio, metadata, stats, panicked,
}

pub data Open : Type 0 where
  closed : Open
  open_to : CallDirection → Open

pub record View : Type 0 where
  pub calls : Open
  pub keyed : Option ℕ
  pub shown : Bool

abbrev pub quiet : View
quiet = record { calls = closed; keyed = none; shown = false }

-- Frames are counted, and a call ends, only while a call of that direction is open.
abbrev pub within : CallDirection → Open → Open → Option Open
within fm_to_dmr (open_to fm_to_dmr) next = some next
within dmr_to_fm (open_to dmr_to_fm) next = some next
within _ _ next = none

-- One statistics event; `none` is an event out of place.
abbrev pub account : StatsEvent → Open → Option Open
account (call_start dir src dst slot) closed = some (open_to dir)
account (call_start dir src dst slot) (open_to d) = none
account (voice_frame dir t) calls = within dir calls calls
account (frame_dropped dir) calls = within dir calls calls
account (call_end dir reason) calls = within dir calls closed

-- A voice frame needs an open call from DMR; an unkey is always in place.
abbrev pub hear : Bool → Option ℕ → View → Option View
hear false stream v = some (record v { keyed = none })
hear true none v = none
hear true (some stream) v = elim (within dmr_to_fm v.calls v.calls) [
  | none ↦ none
  | some calls ↦ some (record v { keyed = some stream })
]

abbrev pub display : MetaEvent → View → View
display (MetaEvent.call m) v = record v { shown = true }
display MetaEvent.clear v = record v { shown = false }

unfoldable pub watch : Effect → View → Option View
watch (audio frame) v = hear frame.keyup frame.dmr_stream_id v
watch (metadata e) v = some (display e v)
watch (stats e) v = elim (account e v.calls) [
  | none ↦ none
  | some calls ↦ some (record v { calls = calls })
]
watch panicked v = none
watch _ v = some v

-- The outputs from the first to the last; `none` once one was out of place.
unfoldable pub replay : List Effect → Option View
unfolding watch
replay [] = some quiet
replay (e ∷ log) = elim (replay log) [ none ↦ none | some v ↦ watch e v ]

-- The views that a state allows.
abbrev pub Allows : PttState → View → Type 0
Allows idle v = (v.calls ≡ closed) × (v.keyed ≡ none) × (v.shown ≡ false)
Allows (rx call) v =
    (v.calls ≡ open_to dmr_to_fm) × ((v.keyed ≡ none) ⊎ (v.keyed ≡ some call.stream_id))
Allows (rx_hang until) v = (v.calls ≡ closed) × (v.keyed ≡ none) × (v.shown ≡ false)
Allows (tx call) v = (v.calls ≡ open_to fm_to_dmr) × (v.keyed ≡ none) × (v.shown ≡ false)

-- The identifiers fit the wire's three bytes, as `Talkgroup` and `SubscriberId` promise.
abbrev pub Configured : VoiceConfig → Type 0
Configured config = (config.talkgroup.as_u32 ≤ max_24bit) × (config.src_id.as_u32 ≤ max_24bit)

-- The machine is in state `s`, statistics are on, and the outputs so far are in place and show a
-- view that meets `P`.
pub record Shows {codec : Codec} (P : View → Type 0) (s : PttState) (m : PttMachine codec)
    : Type 0 where
  pub state_is : m.state ≡ s
  pub enabled : m.stats_enabled ≡ true
  pub configured : Configured m.config
  pub view : View
  pub seen : replay m.log ≡ some view
  pub meets : P view

-- What `P` becomes after an output.
abbrev pub Moves : (View → Type 0) → Effect → (View → Type 0) → Type 0
Moves P e Q = (v : View) → P v → (w : View) × (watch e v ≡ some w) × Q w

-- The outputs so far fit the state that the machine is in.
abbrev pub Consistent : {codec : Codec} → PttMachine codec → Type 0
Consistent m = Shows (Allows m.state) m.state m
