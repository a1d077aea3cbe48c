-- ===== src/Homebrew/Alive.antt =====
-- bridge/src/homebrew_client.rs: the keepalive loop keeps a live session.
use asl_dmr_bridge.Base.{
  ℕ, ◌≡◌, ◌≤◌, ◌⊎◌, inl, inr, refl, arith, List, [], ◌∷◌, Bool, true, false, Option, none, some,
  sym,
}
use mathlib.Core.Path.{subst}
use asl_dmr_bridge.Ids.{DmrId}
use asl_dmr_bridge.Homebrew.{
  KeepaliveTracker, LoopEvent, cancelled, tick, received, receive_failed, queued, going,
  InboundEvent, pong, classify, check_missed, unanswered, record_ping, record_pong, turn,
  keepalive_loop, new_tracker, pinged, inbound, dmrd, dmrd_parse_error, nak, disconnect, rpt_ack,
  rpt_sbkn, unknown,
}
use asl_dmr_bridge.Homebrew.Ending.{Returned}

-- The packet ends no session, and a pong is no earlier than the last ping.
abbrev pub Harmless : ℕ → ℕ → Bool → InboundEvent → Type 0
Harmless last now delivered pong = last ≤ now
Harmless last now delivered (dmrd pkt) = delivered ≡ true
Harmless last now delivered nak = ⊥
Harmless last now delivered disconnect = ⊥
Harmless last now delivered _ = Unit

abbrev pub waits_after : InboundEvent → Bool → Bool
waits_after pong waiting = false
waits_after _ waiting = waiting

-- Each ping, but perhaps the last, has a pong before the next tick, and nothing else ends the session.
-- The first argument says whether a ping waits for its pong, the second when the last one was sent.
abbrev pub Answered : Bool → ℕ → List LoopEvent → Type 0
Answered waiting last [] = Unit
Answered waiting last (cancelled ∷ es) = ⊥
Answered waiting last (receive_failed ∷ es) = ⊥
Answered waiting last (queued none ∷ es) = ⊥
Answered waiting last (queued (some pkt) ∷ es) = Answered waiting last es
Answered waiting last (tick now sent ∷ es) =
    (waiting ≡ false) × ((sent ≡ true) × Answered true now es)
Answered waiting last (received now bytes delivered ∷ es) =
    Harmless last now delivered (classify bytes)
    × Answered (waits_after (classify bytes) waiting) last es

-- The tracker knows the last ping, and holds it for answered unless it waits.
record Alive (waiting : Bool) (last : ℕ) (t : KeepaliveTracker) : Type 0 where
  ping : (t.last_ping ≡ none) ⊎ (t.last_ping ≡ some last)
  settled : waiting ≡ false → unanswered t.last_ping t.last_pong ≡ false

answered_check :
    (t : KeepaliveTracker) → unanswered t.last_ping t.last_pong ≡ false → check_missed t ≡ (t, none)
unfolding check_missed
answered_check t e = simp e refl

ponged :
    (p : Option ℕ) (last now : ℕ)
    → (p ≡ none) ⊎ (p ≡ some last)
    → last ≤ now
    → unanswered p now ≡ false
ponged p last now (inl e) h = subst (λ q. unanswered q now ≡ false) (sym e) refl
ponged p last now (inr e) h = subst (λ q. unanswered q now ≡ false) (sym e) (ground arith)

module _ (dmr_id : DmrId) where
  Kept : List LoopEvent → Bool → ℕ → Type 0
  Kept es waiting last =
      (t : KeepaliveTracker)
      → Alive waiting last t
      → ¬ Returned (keepalive_loop dmr_id es (going t))

  inbound-Kept :
      (es : List LoopEvent) (waiting : Bool) (last now : ℕ) (delivered : Bool) (e : InboundEvent)
      (t : KeepaliveTracker)
      → Harmless last now delivered e
      → Alive waiting last t
      → Kept es (waits_after e waiting) last
      → ¬ Returned (keepalive_loop dmr_id es (inbound now delivered e t).session)
  unfolding inbound record_pong Kept
  inbound-Kept es waiting last now delivered pong t h a k =
      k (record t { last_pong = now; missed = 0 })
        (record { ping = a.ping; settled = λ w. ponged t.last_ping last now a.ping h })
  inbound-Kept es waiting last now true (dmrd pkt) t h a k = k t a
  inbound-Kept es waiting last now false (dmrd pkt) t h a k = ground arith
  inbound-Kept es waiting last now delivered nak t h a k = absurd h
  inbound-Kept es waiting last now delivered disconnect t h a k = absurd h
  inbound-Kept es waiting last now delivered (dmrd_parse_error e) t h a k = k t a
  inbound-Kept es waiting last now delivered rpt_ack t h a k = k t a
  inbound-Kept es waiting last now delivered rpt_sbkn t h a k = k t a
  inbound-Kept es waiting last now delivered unknown t h a k = k t a

  Answered-Kept :
      (es : List LoopEvent) (waiting : Bool) (last : ℕ)
      → Answered waiting last es
      → Kept es waiting last
  unfolding Kept keepalive_loop turn pinged record_ping
  Answered-Kept [] waiting last h t a = λ r. r
  Answered-Kept (cancelled ∷ es) waiting last h t a = absurd h
  Answered-Kept (receive_failed ∷ es) waiting last h t a = absurd h
  Answered-Kept (queued none ∷ es) waiting last h t a = absurd h
  Answered-Kept (queued (some pkt) ∷ es) waiting last h t a = Answered-Kept es waiting last h t a
  Answered-Kept (tick now false ∷ es) waiting last (w, (s, h)) t a = ground arith
  Answered-Kept (tick now true ∷ es) waiting last (w, (s, h)) t a =
      subst (λ r. ¬ Returned (keepalive_loop dmr_id es (pinged dmr_id now true r).session))
        (sym (answered_check t (a.settled w)))
        (Answered-Kept es true now h (record t { last_ping = some now })
          (record { ping = inr refl; settled = λ f. ground arith }))
  Answered-Kept (received now bytes delivered ∷ es) waiting last (i, h) t a =
      inbound-Kept es waiting last now delivered (classify bytes) t i a
        (Answered-Kept es (waits_after (classify bytes) waiting) last h)

  -- A session in which each ping has a pong, no earlier than it, before the next tick, and which nothing
  -- else ends, goes on: the loop has not returned, whatever the limit on misses.
  pub keepalive_loop-keeps :
      (start limit : ℕ) (es : List LoopEvent)
      → Answered false start es
      → ¬ Returned (keepalive_loop dmr_id es (going (new_tracker start limit)))
  unfolding Kept new_tracker
  keepalive_loop-keeps start limit es h =
      Answered-Kept es false start h (new_tracker start limit)
        (record { ping = inl refl; settled = λ w. refl })
