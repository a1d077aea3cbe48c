-- ===== src/Ptt/Moves.antt =====
-- dmr-wire/src/voice/ptt.rs: how the statistics events move the view.
use asl_dmr_bridge.Base.{
  ℕ, zero, suc, ◌≡◌, refl, List, [], ◌∷◌, map, false, none, some, replicate, ap, sym,
}
use mathlib.Core.Path.{subst}
use asl_dmr_bridge.Events.{
  CallDirection, fm_to_dmr, dmr_to_fm, voice_frame, frame_dropped, call_start, call_end,
  TerminationReason,
}
use asl_dmr_bridge.Ids.{SubscriberId, Slot}
use asl_dmr_bridge.Ptt.Machine.{Codec, PttState, PttMachine, stats}
use asl_dmr_bridge.Ptt.View.{View, Open, closed, open_to, watch, within, Shows, Moves}
use asl_dmr_bridge.Ptt.Steps.{emit_stats-Shows, same-Shows, Untouched}
use asl_dmr_bridge.Ptt.Tx.{each_stat}

-- Counting frames of a direction leaves the view of an open call.
pub counted : (dir : CallDirection) (o : Open) → o ≡ open_to dir → within dir o o ≡ some o
counted dir o e = subst (λ c. within dir c c ≡ some c) (sym e) (by_direction dir)
  where
    by_direction : (d : CallDirection) → within d (open_to d) (open_to d) ≡ some (open_to d)
    by_direction fm_to_dmr = refl
    by_direction dmr_to_fm = refl

-- A call of a direction is open in every view that meets `P`.
abbrev pub Opens : CallDirection → (View → Type 0) → Type 0
Opens dir P = (v : View) → P v → v.calls ≡ open_to dir

pub voice_frame-Moves :
    {P : View → Type 0} (dir : CallDirection) (t : ℕ)
    → Opens dir P
    → Moves P (stats (voice_frame dir t)) P
unfolding watch
voice_frame-Moves dir t live v p = (
  v,
  ap (λ o. elim o [ none ↦ none | some c ↦ some (record v { calls = c }) ])
      (counted dir v.calls (live v p)),
  p,
)

pub frame_dropped-Moves :
    {P : View → Type 0} (dir : CallDirection) → Opens dir P → Moves P (stats (frame_dropped dir)) P
unfolding watch
frame_dropped-Moves dir live v p = (
  v,
  ap (λ o. elim o [ none ↦ none | some c ↦ some (record v { calls = c }) ])
      (counted dir v.calls (live v p)),
  p,
)

-- A call is opened where none is open, and closed where one is.
pub call_start-Moves :
    {K : View → Type 0} (dir : CallDirection) (src : SubscriberId) (dst : ℕ) (slot : Slot)
    → ((v : View) (o : Open) → K v → K (record v { calls = o }))
    → Moves
        (λ v. (v.calls ≡ closed) × K v)
        (stats (call_start dir src dst slot))
        (λ v. (v.calls ≡ open_to dir) × K v)
unfolding watch
call_start-Moves dir src dst slot keep v (e, k) =
    (record v { calls = open_to dir }, rw (e) refl, (refl, keep v (open_to dir) k))

pub call_end-Moves :
    {K : View → Type 0} (dir : CallDirection) (reason : TerminationReason)
    → ((v : View) (o : Open) → K v → K (record v { calls = o }))
    → Moves
        (λ v. (v.calls ≡ open_to dir) × K v)
        (stats (call_end dir reason))
        (λ v. (v.calls ≡ closed) × K v)
unfolding watch
call_end-Moves fm_to_dmr reason keep v (e, k) =
    (record v { calls = closed }, rw (e) refl, (refl, keep v closed k))
call_end-Moves dmr_to_fm reason keep v (e, k) =
    (record v { calls = closed }, rw (e) refl, (refl, keep v closed k))

module _ {codec : Codec} {P : View → Type 0} {s : PttState} where
  pub drops-Shows :
      (dir : CallDirection)
      → Opens dir P
      → (n : ℕ) (m : PttMachine codec) → Shows P s m
      → Shows P s (each_stat (replicate n (frame_dropped dir)) m)
  unfolding each_stat
  drops-Shows dir live zero m h = h
  drops-Shows dir live (suc n) m h =
      drops-Shows dir live n _ (emit_stats-Shows _ m (frame_dropped-Moves dir live) h)

  pub voices-Shows :
      (dir : CallDirection)
      → Opens dir P
      → (ts : List ℕ) (m : PttMachine codec) → Shows P s m
      → Shows P s (each_stat (map (voice_frame dir) ts) m)
  unfolding each_stat
  voices-Shows dir live [] m h = h
  voices-Shows dir live (t ∷ ts) m h =
      voices-Shows dir live ts _ (emit_stats-Shows _ m (voice_frame-Moves dir t live) h)

  pub Untouched-Shows : {m n : PttMachine codec} → Untouched m n → Shows P s m → Shows P s n
  Untouched-Shows u h = same-Shows u.state_kept u.stats_kept u.log_kept u.config_kept h

-- Nothing keys the FM side, and no metadata is on display.
abbrev pub Unlit : View → Type 0
Unlit v = (v.keyed ≡ none) × (v.shown ≡ false)
