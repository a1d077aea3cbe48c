-- ===== src/Bridge/Stats/Totals.antt =====
-- bridge/src/stats.rs: the totals count what the voice task reported.
use asl_dmr_bridge.Base.{
  ℕ, ◌≡◌, refl, arith, List, [], ◌∷◌, ◌++◌, Bool, true, false, Option, none, some, ap, ◌∙◌, sym,
  Option-cases, inl, inr,
}
use mathlib.Core.Path.{subst}
use asl_dmr_bridge.Events.{CallDirection, fm_to_dmr, dmr_to_fm, StatsEvent, MetaEvent}
use asl_dmr_bridge.Ptt.Machine.{
  Codec, Env, Effect, audio, voice_out, control_out, metadata, stats, diagnostic, vocoder_reset,
  cache_warmed, panicked, PttMachine,
}
use asl_dmr_bridge.Ptt.View.{Open, closed, account, View, quiet, watch, replay, hear, display}
use asl_dmr_bridge.Ptt.Handlers.{Event, voice_task}
use asl_dmr_bridge.Ptt.Runs.{orderly, Fresh, voice_task-quiet}
use asl_dmr_bridge.Bridge.Stats.{
  wrap_u64, DirectionStats, Consumer, new_consumer, consume_event, consume_events, CallAccumulator,
  no_counts,
}
use asl_dmr_bridge.Bridge.Stats.Counts.{Counts, nothing, count_event, Tally, InFlight, Books}
use asl_dmr_bridge.Bridge.Stats.Tally.{Books-step, some_injective}

unfoldable pub counted : CallDirection → List (ℕ × StatsEvent) → Counts → Counts
counted d [] n = n
counted d ((now, event) ∷ rest) n = counted d rest (count_event d event n)

abbrev on : Option Open → (Open → Option Open) → Option Open
on none f = none
on (some o) f = f o

-- A list of events that is in place, from an open call to an open call.
unfoldable pub account_all : List (ℕ × StatsEvent) → Open → Option Open
account_all [] o = some o
account_all ((now, event) ∷ rest) o = on (account event o) (account_all rest)

-- The events that the outputs hand over, the first one first, with the times at which they are received.
unfoldable pub reported : (List Effect → ℕ) → List Effect → List (ℕ × StatsEvent)
reported clock [] = []
reported clock (stats e ∷ log) = reported clock log ++ ((clock log, e) ∷ [])
reported clock (audio frame ∷ log) = reported clock log
reported clock (voice_out bytes ∷ log) = reported clock log
reported clock (control_out bytes ∷ log) = reported clock log
reported clock (metadata e ∷ log) = reported clock log
reported clock (diagnostic d ∷ log) = reported clock log
reported clock (vocoder_reset ∷ log) = reported clock log
reported clock (cache_warmed ∷ log) = reported clock log
reported clock (panicked ∷ log) = reported clock log

Books-all :
    (min : ℕ) (es : List (ℕ × StatsEvent)) (o o' : Open) (c : Consumer) (fm dmr : Counts)
    → account_all es o ≡ some o'
    → Books o c fm dmr
    → Books o' (consume_events min es c) (counted fm_to_dmr es fm) (counted dmr_to_fm es dmr)
unfolding account_all consume_events counted
Books-all min [] o o' c fm dmr a b = subst (λ p. Books p c fm dmr) (some_injective a) b
Books-all min ((now, event) ∷ rest) o o' c fm dmr a b = elim (Option-cases (account event o)) [
  | inl e ↦ absurd (missing (simp e at a))
  | inr (p, e) ↦
      Books-all min rest p o' (consume_event min now event c) (count_event fm_to_dmr event fm)
        (count_event dmr_to_fm event dmr) (simp e at a) (Books-step min now event o p c fm dmr e b)
]
  where
    missing : none ≡ some o' → ⊥
    missing e = ground arith

account_all-append :
    (xs : List (ℕ × StatsEvent)) (now : ℕ) (event : StatsEvent) (o p q : Open)
    → account_all xs o ≡ some p
    → account event p ≡ some q
    → account_all (xs ++ ((now, event) ∷ [])) o ≡ some q
unfolding account_all
account_all-append [] now event o p q a e =
    ap (λ r. on r some) (subst (λ r. account event r ≡ some q) (sym (some_injective a)) e)
account_all-append ((t, x) ∷ xs) now event o p q a e = elim (Option-cases (account x o)) [
  | inl f ↦ absurd (missing (simp f at a))
  | inr (r, f) ↦ simp f (account_all-append xs now event r p q (simp f at a) e)
]
  where
    missing : none ≡ some p → ⊥
    missing e = ground arith

replay_step :
    (r : Option View) (x : Effect) {v : View}
    → elim r [ none ↦ none | some w ↦ watch x w ] ≡ some v
    → (w : View) × (r ≡ some w) × (watch x w ≡ some v)
replay_step none x e = ground arith
replay_step (some w) x e = (w, refl, e)

hear-calls :
    (keyup : Bool) (stream : Option ℕ) (w v : View)
    → hear keyup stream w ≡ some v
    → w.calls ≡ v.calls
hear-calls false stream w v e = ap (λ x. x.calls) (some_injective e)
hear-calls true none w v e = ground arith
hear-calls true (some s) w v e = ground arith

stats_watch :
    (r : Option Open) (w v : View)
    → elim r [ none ↦ none | some calls ↦ some (record w { calls = calls }) ] ≡ some v
    → r ≡ some v.calls
stats_watch none w v e = ground arith
stats_watch (some calls) w v e = ap (λ x. some x.calls) (some_injective e)

display-calls : (event : MetaEvent) (w : View) → w.calls ≡ (display event w).calls
display-calls (MetaEvent.call m) w = refl
display-calls MetaEvent.clear w = refl

-- An output moves the open call as its event does, and a silent one not at all.
reported-watch :
    (clock : List Effect → ℕ) (log : List Effect) (x : Effect) (w v : View)
    → watch x w ≡ some v
    → account_all (reported clock log) closed ≡ some w.calls
    → account_all (reported clock (x ∷ log)) closed ≡ some v.calls
unfolding watch reported
reported-watch clock log (stats event) w v e h =
    account_all-append (reported clock log) (clock log) event closed w.calls v.calls h
      (stats_watch (account event w.calls) w v e)
reported-watch clock log (audio frame) w v e h =
    h ∙ ap some (hear-calls frame.keyup frame.dmr_stream_id w v e)
reported-watch clock log (metadata event) w v e h =
    h ∙ ap some (display-calls event w ∙ ap (λ x. x.calls) (some_injective e))
reported-watch clock log (voice_out bytes) w v e h = h ∙ ap (λ x. some x.calls) (some_injective e)
reported-watch clock log (control_out bytes) w v e h = h ∙ ap (λ x. some x.calls) (some_injective e)
reported-watch clock log (diagnostic d) w v e h = h ∙ ap (λ x. some x.calls) (some_injective e)
reported-watch clock log vocoder_reset w v e h = h ∙ ap (λ x. some x.calls) (some_injective e)
reported-watch clock log cache_warmed w v e h = h ∙ ap (λ x. some x.calls) (some_injective e)
reported-watch clock log panicked w v e h = ground arith

-- Outputs in place hand over events in place.
reported-account :
    (clock : List Effect → ℕ) (log : List Effect) (v : View)
    → replay log ≡ some v
    → account_all (reported clock log) closed ≡ some v.calls
unfolding replay reported account_all
reported-account clock [] v e = ap (λ w. some w.calls) (some_injective e)
reported-account clock (x ∷ log) v e =
    let (w, f, g) = replay_step (replay log) x e in
    reported-watch clock log x w v g (reported-account clock log w f)

empty-Tally : Tally no_counts none nothing
empty-Tally = record {
  ends = refl;
  frames = refl;
  drops = refl;
  frames_fit = omega arith;
  drops_fit = omega arith;
}

fresh-Books : Books closed new_consumer nothing nothing
unfolding new_consumer
fresh-Books = record {
  fm_tally = empty-Tally;
  dmr_tally = empty-Tally;
  fm_flight = tt;
  dmr_flight = tt;
}

-- What the counters of a direction say of the events.
abbrev pub Totals : DirectionStats → Counts → Type 0
Totals s n =
    (s.calls_completed ≡ wrap_u64 n.ends)
    × (s.voice_frames ≡ wrap_u64 n.frames)
    × (s.drops ≡ wrap_u64 n.drops)

Tally-Totals :
    (s : DirectionStats) (acc : Option CallAccumulator) (n : Counts)
    → InFlight false acc
    → Tally s acc n
    → Totals s n
Tally-Totals s none n i t =
    (t.ends, omega (arith, t.frames, t.frames_fit), omega (arith, t.drops, t.drops_fit))
Tally-Totals s (some acc) n i t = absurd i

none_left : (acc : Option CallAccumulator) → InFlight false acc → acc ≡ none
none_left none i = refl
none_left (some acc) i = absurd i

-- After a run of the voice task from a fresh machine in which no event disrupts a received call, and
-- whose statistics events all arrive, in order and at any times, the consumer has no call in flight,
-- and its totals of each direction are the calls that ended, the frames that were counted and those
-- that were dropped, up to the wrap of 64 bits.
pub consume_events-voice_task :
    {codec : Codec} (last : Env) (events : List (Env × Event)) (m : PttMachine codec) (min : ℕ)
    (clock : List Effect → ℕ)
    → Fresh m
    → orderly events m ≡ true
    → (let reports = reported clock (voice_task last events m).log in
        let c = consume_events min reports new_consumer in
        (c.fm_call ≡ none)
        × (c.dmr_call ≡ none)
        × Totals c.stats.fm (counted fm_to_dmr reports nothing)
        × Totals c.stats.dmr (counted dmr_to_fm reports nothing))
consume_events-voice_task last events m min clock f o = (
  none_left _ books.fm_flight,
  none_left _ books.dmr_flight,
  Tally-Totals _ _ _ books.fm_flight books.fm_tally,
  Tally-Totals _ _ _ books.dmr_flight books.dmr_tally,
)
  where
    books :
        Books closed
          (consume_events min (reported clock (voice_task last events m).log) new_consumer)
          (counted fm_to_dmr (reported clock (voice_task last events m).log) nothing)
          (counted dmr_to_fm (reported clock (voice_task last events m).log) nothing)
    books =
        Books-all min (reported clock (voice_task last events m).log) closed closed new_consumer
          nothing nothing
          (reported-account clock (voice_task last events m).log quiet
            (voice_task-quiet last events m f o).1)
          fresh-Books
