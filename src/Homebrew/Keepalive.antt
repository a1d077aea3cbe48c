-- ===== src/Homebrew/Keepalive.antt =====
-- bridge/src/homebrew_client.rs: the keepalive loop gives a dead session up.
use asl_dmr_bridge.Base.{
  ◌⊎◌, inl, inr, ◌↔◌, ℕ, suc, ◌+◌, ◌≡◌, ◌<◌, ◌≤◌, refl, arith, List, [], ◌∷◌, true, false, none,
  some, leb, All, sym,
}
use mathlib.Core.Path.{subst}
use asl_dmr_bridge.Ids.{DmrId}
use asl_dmr_bridge.Homebrew.{
  KeepaliveTracker, LoopEvent, cancelled, tick, received, receive_failed, queued, going, classify,
  record_ping, turn, keepalive_loop, new_tracker, pinged,
}
use asl_dmr_bridge.Homebrew.Ending.{Returned, stays_returned, Ends, Ended, Ended-Returned}
use asl_dmr_bridge.Homebrew.Silence.{
  SilentAfter, ticks, Waiting, missed_check, waits, missed-Waiting, first-Waiting, skipped,
  after_inbound, after_tick, inbound-Ended, tick-Ended,
}

module _ (dmr_id : DmrId) (start limit : ℕ) where
  Waiting-Returned :
      (es : List LoopEvent) (t : KeepaliveTracker) (missed : ℕ)
      → All (SilentAfter start) es
      → Waiting start limit missed t
      → 0 < ticks es
      → limit ≤ missed + ticks es
      → Returned (keepalive_loop dmr_id es (going t))
  unfolding keepalive_loop turn ticks record_ping
  Waiting-Returned [] t missed s w p q = absurd (omega (arith, p))
  Waiting-Returned (cancelled ∷ es) t missed (s, ss) w p q = stays_returned dmr_id es none
  Waiting-Returned (receive_failed ∷ es) t missed (s, ss) w p q = stays_returned dmr_id es _
  Waiting-Returned (queued none ∷ es) t missed (s, ss) w p q = stays_returned dmr_id es _
  Waiting-Returned (queued (some pkt) ∷ es) t missed (s, ss) w p q =
      Waiting-Returned es t missed ss w p q
  Waiting-Returned (received now bytes delivered ∷ es) t missed (s, ss) w p q =
      after_inbound dmr_id es now delivered (classify bytes) t s
        (Waiting-Returned es t missed ss w p q)
  Waiting-Returned (tick now sent ∷ es) t missed (s, ss) w p q =
      subst (λ r. Returned (keepalive_loop dmr_id es (pinged dmr_id now sent r).session))
        (sym (missed_check t w.ping w.pinged_at (waits now t w)))
        (after_tick dmr_id es now sent (record t { missed = t.missed + 1 }) t.missed_limit
          (t.missed + 1)
          (λ below.
            Waiting-Returned es (record_ping now (record t { missed = t.missed + 1 })) (missed + 1)
              ss (missed-Waiting now t missed w s) (remaining (ticks es) w.misses w.bound below q)
              (still_enough (ticks es) q)))
    where
      remaining :
          (n : ℕ)
          → t.missed ≡ missed
          → t.missed_limit ≡ limit
          → leb t.missed_limit (t.missed + 1) ≡ false
          → limit ≤ missed + suc n
          → 0 < n
      remaining n a b c d = ground arith

      still_enough : (n : ℕ) → limit ≤ missed + suc n → limit ≤ (missed + 1) + n
      still_enough n d = omega (arith, d)

  -- The ticks that a waiting tracker takes to reach the limit.
  abbrev Reached : ℕ → List LoopEvent → Type 0
  Reached missed es = (0 < ticks es) × (limit ≤ missed + ticks es)

  -- A waiting session that has returned was ended, or ticked often enough.
  Returned-Ended :
      (es : List LoopEvent) (t : KeepaliveTracker) (missed : ℕ)
      → All (SilentAfter start) es
      → Waiting start limit missed t
      → Returned (keepalive_loop dmr_id es (going t))
      → Ended es ⊎ Reached missed es
  unfolding keepalive_loop turn ticks record_ping
  Returned-Ended [] t missed s w r = absurd r
  Returned-Ended (cancelled ∷ es) t missed (s, ss) w r = inl (inl tt)
  Returned-Ended (receive_failed ∷ es) t missed (s, ss) w r = inl (inl tt)
  Returned-Ended (queued none ∷ es) t missed (s, ss) w r = inl (inl tt)
  Returned-Ended (queued (some pkt) ∷ es) t missed (s, ss) w r =
      skipped (Returned-Ended es t missed ss w r)
  Returned-Ended (received now bytes delivered ∷ es) t missed (s, ss) w r =
      inbound-Ended dmr_id es now delivered (classify bytes) t s (Returned-Ended es t missed ss w) r
  Returned-Ended (tick now false ∷ es) t missed (s, ss) w r = inl (inl refl)
  Returned-Ended (tick now true ∷ es) t missed (s, ss) w r = ticked (ticks es) w.misses w.bound (
      tick-Ended dmr_id es now (record t { missed = t.missed + 1 }) t.missed_limit (t.missed + 1)
        (Returned-Ended es (record_ping now (record t { missed = t.missed + 1 })) (missed + 1) ss
          (missed-Waiting now t missed w s))
        (subst (λ r. Returned (keepalive_loop dmr_id es (pinged dmr_id now true r).session))
          (missed_check t w.ping w.pinged_at (waits now t w)) r))
    where
      ticked :
          (n : ℕ)
          → t.missed ≡ missed
          → t.missed_limit ≡ limit
          → (leb t.missed_limit (t.missed + 1) ≡ true)
            ⊎ (Ended es ⊎ ((0 < n) × (limit ≤ (missed + 1) + n)))
          → (Ends (tick now true) ⊎ Ended es) ⊎ ((0 < suc n) × (limit ≤ missed + suc n))
      ticked n e f (inl h) = inr (omega arith, ground (arith, e, f, h))
      ticked n e f (inr (inl h)) = inl (inr h)
      ticked n e f (inr (inr h)) = inr (omega arith, omega (arith, h.1))

  -- A session that never pinged has two ticks to its first miss.
  silent-Returned :
      (es : List LoopEvent)
      → All (SilentAfter start) es
      → 1 < ticks es
      → limit < ticks es
      → Returned (keepalive_loop dmr_id es (going (new_tracker start limit)))
  unfolding keepalive_loop turn ticks record_ping new_tracker
  silent-Returned [] s many q = absurd (omega (arith, q))
  silent-Returned (cancelled ∷ es) (s, ss) many q = stays_returned dmr_id es none
  silent-Returned (receive_failed ∷ es) (s, ss) many q = stays_returned dmr_id es _
  silent-Returned (queued none ∷ es) (s, ss) many q = stays_returned dmr_id es _
  silent-Returned (queued (some pkt) ∷ es) (s, ss) many q = silent-Returned es ss many q
  silent-Returned (received now bytes delivered ∷ es) (s, ss) many q =
      after_inbound dmr_id es now delivered (classify bytes) (new_tracker start limit) s
        (silent-Returned es ss many q)
  silent-Returned (tick now true ∷ es) (s, ss) many q =
      Waiting-Returned es _ 0 ss (first-Waiting now s) (omega (arith, many)) (omega (arith, q))
  silent-Returned (tick now false ∷ es) (s, ss) many q = stays_returned dmr_id es _

  silent-Ended :
      (es : List LoopEvent)
      → All (SilentAfter start) es
      → Returned (keepalive_loop dmr_id es (going (new_tracker start limit)))
      → Ended es ⊎ ((1 < ticks es) × (limit < ticks es))
  unfolding keepalive_loop turn ticks record_ping new_tracker
  silent-Ended [] s r = absurd r
  silent-Ended (cancelled ∷ es) (s, ss) r = inl (inl tt)
  silent-Ended (receive_failed ∷ es) (s, ss) r = inl (inl tt)
  silent-Ended (queued none ∷ es) (s, ss) r = inl (inl tt)
  silent-Ended (queued (some pkt) ∷ es) (s, ss) r = skipped (silent-Ended es ss r)
  silent-Ended (received now bytes delivered ∷ es) (s, ss) r =
      inbound-Ended dmr_id es now delivered (classify bytes) (new_tracker start limit) s
        (silent-Ended es ss) r
  silent-Ended (tick now false ∷ es) (s, ss) r = inl (inl refl)
  silent-Ended (tick now true ∷ es) (s, ss) r =
      one_more (Returned-Ended es _ 0 ss (first-Waiting now s) r)
    where
      one_more :
          Ended es ⊎ Reached 0 es
          → Ended (tick now true ∷ es) ⊎ ((1 < suc (ticks es)) × (limit < suc (ticks es)))
      one_more (inl h) = inl (inr h)
      one_more (inr h) = inr (omega (arith, h.0), omega (arith, h.1))

  -- A session in which no pong comes in, and whose pings are later than its start, has returned just when
  -- its ticker fired once more than the limit on misses, and at least twice, or when something else ended
  -- it: a cancellation, a socket that fails, a closed queue, a refusal or a disconnect of the master, or
  -- voice for a voice task that is gone.
  pub keepalive_loop-gives_up :
      (es : List LoopEvent)
      → All (SilentAfter start) es
      → Returned (keepalive_loop dmr_id es (going (new_tracker start limit)))
        ↔ (Ended es ⊎ ((1 < ticks es) × (limit < ticks es)))
  keepalive_loop-gives_up es s = (silent-Ended es s, returned_by)
    where
      returned_by :
          Ended es ⊎ ((1 < ticks es) × (limit < ticks es))
          → Returned (keepalive_loop dmr_id es (going (new_tracker start limit)))
      returned_by (inl h) = Ended-Returned dmr_id es (new_tracker start limit) h
      returned_by (inr h) = silent-Returned es s h.0 h.1
