-- ===== src/Homebrew/Ending.antt =====
-- bridge/src/homebrew_client.rs: what ends the keepalive loop besides missed pings.
use asl_dmr_bridge.Base.{
  ℕ, ◌≡◌, ◌⊎◌, inl, inr, arith, List, [], ◌∷◌, Bool, true, false, Option, none, some,
}
use asl_dmr_bridge.Ids.{DmrId}
use asl_dmr_bridge.Homebrew.{
  KeepaliveTracker, LoopEvent, cancelled, tick, received, receive_failed, queued, Session, going,
  returned, InboundEvent, pong, classify, check_missed, turn, keepalive_loop, pinged, inbound, dmrd,
  dmrd_parse_error, nak, disconnect, rpt_ack, rpt_sbkn, unknown, NetworkError,
}

abbrev pub Returned : Session → Type 0
Returned (going t) = ⊥
Returned (returned r) = Unit

pub stays_returned :
    (dmr_id : DmrId) (es : List LoopEvent) (r : Option NetworkError)
    → Returned (keepalive_loop dmr_id es (returned r))
unfolding keepalive_loop
stays_returned dmr_id [] r = tt
stays_returned dmr_id (e ∷ es) r = tt

-- A packet ends the session: a refusal, a disconnect, or voice for a task that is gone.
abbrev pub EndsInbound : Bool → InboundEvent → Type 0
EndsInbound delivered nak = Unit
EndsInbound delivered disconnect = Unit
EndsInbound delivered (dmrd pkt) = delivered ≡ false
EndsInbound delivered _ = ⊥

-- An event ends the session by itself; a tick does where its ping cannot be sent.
abbrev pub Ends : LoopEvent → Type 0
Ends cancelled = Unit
Ends receive_failed = Unit
Ends (queued none) = Unit
Ends (queued (some packet)) = ⊥
Ends (tick now sent) = sent ≡ false
Ends (received now bytes delivered) = EndsInbound delivered (classify bytes)

abbrev pub Ended : List LoopEvent → Type 0
Ended [] = ⊥
Ended (e ∷ es) = Ends e ⊎ Ended es

Ends-inbound :
    (now : ℕ) (delivered : Bool) (e : InboundEvent) (t : KeepaliveTracker)
    → EndsInbound delivered e
    → Returned (inbound now delivered e t).session
unfolding inbound
Ends-inbound now delivered nak t h = tt
Ends-inbound now delivered disconnect t h = tt
Ends-inbound now true (dmrd pkt) t h = ground arith
Ends-inbound now false (dmrd pkt) t h = tt
Ends-inbound now delivered pong t h = absurd h
Ends-inbound now delivered (dmrd_parse_error e) t h = absurd h
Ends-inbound now delivered rpt_ack t h = absurd h
Ends-inbound now delivered rpt_sbkn t h = absurd h
Ends-inbound now delivered unknown t h = absurd h

Ends-turn :
    (dmr_id : DmrId) (e : LoopEvent) (t : KeepaliveTracker)
    → Ends e
    → Returned (turn dmr_id e t).session
unfolding turn
Ends-turn dmr_id cancelled t h = tt
Ends-turn dmr_id receive_failed t h = tt
Ends-turn dmr_id (queued none) t h = tt
Ends-turn dmr_id (queued (some packet)) t h = absurd h
Ends-turn dmr_id (received now bytes delivered) t h =
    Ends-inbound now delivered (classify bytes) t h
Ends-turn dmr_id (tick now true) t h = ground arith
Ends-turn dmr_id (tick now false) t h = unsent (check_missed t)
  where
    unsent : (r : KeepaliveTracker × Option ℕ) → Returned (pinged dmr_id now false r).session
    unsent (t, none) = unfold pinged in tt
    unsent (t, some missed) = unfold pinged in tt

module _ (dmr_id : DmrId) (es : List LoopEvent) where
  Returned-stays : (s : Session) → Returned s → Returned (keepalive_loop dmr_id es s)
  Returned-stays (going t) h = absurd h
  Returned-stays (returned r) h = stays_returned dmr_id es r

  either_way :
      (s : Session)
      → ((t : KeepaliveTracker) → Returned (keepalive_loop dmr_id es (going t)))
      → Returned (keepalive_loop dmr_id es s)
  either_way (going t) h = h t
  either_way (returned r) h = stays_returned dmr_id es r

pub Ended-Returned :
    (dmr_id : DmrId) (es : List LoopEvent) (t : KeepaliveTracker)
    → Ended es
    → Returned (keepalive_loop dmr_id es (going t))
unfolding keepalive_loop
Ended-Returned dmr_id [] t h = absurd h
Ended-Returned dmr_id (e ∷ es) t (inl h) =
    Returned-stays dmr_id es (turn dmr_id e t).session (Ends-turn dmr_id e t h)
Ended-Returned dmr_id (e ∷ es) t (inr h) =
    either_way dmr_id es (turn dmr_id e t).session (λ t'. Ended-Returned dmr_id es t' h)
