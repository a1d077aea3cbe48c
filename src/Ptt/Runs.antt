-- ===== src/Ptt/Runs.antt =====
-- dmr-wire/src/voice/ptt.rs and dmr-wire/src/voice.rs: what a whole run of the voice task shows.
use asl_dmr_bridge.Base.{
  ◌≡◌, refl, arith, List, [], ◌∷◌, Bool, true, false, not, ◌&&◌, ◌||◌, some, Bool-cases, inl, inr,
  ap, sym, ◌∙◌,
}
use mathlib.Core.Path.{subst}
use asl_dmr_bridge.Ptt.Machine.{Codec, Env, idle, PttMachine}
use asl_dmr_bridge.Ptt.View.{View, quiet, replay, Shows, Allows, Consistent, Configured}
use asl_dmr_bridge.Ptt.OnDmrd.{disrupts}
use asl_dmr_bridge.Ptt.Calls.{step-Consistent, on_shutdown-Shows}
use asl_dmr_bridge.Ptt.Handlers.{Event, step, voice_task}

module _ {codec : Codec} where
  -- No event of the run disrupts a received call.
  unfoldable pub orderly : List (Env × Event) → PttMachine codec → Bool
  unfolding step disrupts
  orderly [] m = true
  orderly ((env, event) ∷ rest) m =
      let later = orderly rest (step env event m) in
      m.cancelled || (not (disrupts event m) && later)

  -- The machine that the voice task starts with.
  pub record Fresh (m : PttMachine codec) : Type 0 where
    pub starts_idle : m.state ≡ idle
    pub nothing_out : m.log ≡ []
    pub counts : m.stats_enabled ≡ true
    pub configured : Configured m.config

  pub Fresh-Consistent : (m : PttMachine codec) → Fresh m → Consistent m
  unfolding replay
  Fresh-Consistent m f =
      subst (λ t. Shows (Allows t) t m) (sym f.starts_idle)
        (record {
          state_is = f.starts_idle;
          enabled = f.counts;
          configured = f.configured;
          view = quiet;
          seen = ap replay f.nothing_out;
          meets = (refl, refl, refl);
        })

  run-Shows :
      (last : Env) (events : List (Env × Event)) (m : PttMachine codec)
      → orderly events m ≡ true
      → Consistent m
      → Shows (Allows idle) idle (voice_task last events m)
  unfolding voice_task orderly
  run-Shows last [] m o h = on_shutdown-Shows last m h
  run-Shows last ((env, event) ∷ rest) m o h = elim (Bool-cases m.cancelled) [
    | inl e ↦ simp e (on_shutdown-Shows last m h)
    | inr e ↦
        let (calm, later) = both_true (disrupts event m) (orderly rest (step env event m)) (
          subst (λ b. (b || (not (disrupts event m) && orderly rest (step env event m))) ≡ true) e
            o) in
        simp e (run-Shows last rest (step env event m) later (step-Consistent env event m calm h))
  ]
    where
      both_true : (a b : Bool) → (not a && b) ≡ true → (a ≡ false) × (b ≡ true)
      both_true a b e = ground arith

  -- A run of the voice task from a fresh machine, over any events of which none disrupts a received
  -- call, ends idle with every output in place: every call that the statistics opened is closed, and
  -- only the direction of the open call counted frames, the FM side was keyed only during a received
  -- call and is unkeyed, no call metadata is left on display, and no packet builder panicked.
  pub voice_task-quiet :
      (last : Env) (events : List (Env × Event)) (m : PttMachine codec)
      → Fresh m
      → orderly events m ≡ true
      → ((voice_task last events m).state ≡ idle)
        × (replay (voice_task last events m).log ≡ some quiet)
  voice_task-quiet last events m f o =
      let h = run-Shows last events m o (Fresh-Consistent m f) in
      (h.state_is, h.seen ∙ ap some (quiet_view h.view h.meets))
    where
      quiet_view : (v : View) → Allows idle v → v ≡ quiet
      quiet_view v p = λ i. record { calls = p.0 i; keyed = p.1 i; shown = p.2 i }
