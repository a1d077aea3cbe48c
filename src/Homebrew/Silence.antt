-- ===== src/Homebrew/Silence.antt =====
-- bridge/src/homebrew_client.rs: one turn of the keepalive loop while no pong comes in.
use asl_dmr_bridge.Base.{
  ◌⊎◌, inl, inr, Bool-cases, ℕ, suc, ◌+◌, ◌≡◌, ◌<◌, refl, arith, List, [], ◌∷◌, Bool, true, false,
  Option, none, some, ltb, leb, if◌then◌else◌, ap, ◌∙◌, sym,
}
use mathlib.Core.Path.{subst}
use asl_dmr_bridge.Ids.{DmrId}
use asl_dmr_bridge.Homebrew.{
  KeepaliveTracker, LoopEvent, tick, received, going, InboundEvent, pong, classify, check_missed,
  unanswered, record_ping, keepalive_loop, new_tracker, pinged, inbound, dmrd, dmrd_parse_error,
  nak, disconnect, rpt_ack, rpt_sbkn, unknown,
}
use asl_dmr_bridge.Homebrew.Ending.{Returned, stays_returned, EndsInbound}

-- No pong comes in, and the pings are later than the given time.
abbrev pub SilentAfter : ℕ → LoopEvent → Type 0
SilentAfter start (tick now sent) = start < now
SilentAfter start (received now bytes delivered) = ¬ (classify bytes ≡ pong)
SilentAfter start _ = Unit

unfoldable pub ticks : List LoopEvent → ℕ
ticks [] = 0
ticks (tick now sent ∷ es) = suc (ticks es)
ticks (_ ∷ es) = ticks es

-- A tracker that waits for the answer to a ping.
pub record Waiting (start limit missed : ℕ) (t : KeepaliveTracker) : Type 0 where
  pub ping : ℕ
  pub pinged_at : t.last_ping ≡ some ping
  pub no_pong : t.last_pong ≡ start
  pub later : start < ping
  pub misses : t.missed ≡ missed
  pub bound : t.missed_limit ≡ limit

pub missed_check :
    (t : KeepaliveTracker) (ping : ℕ)
    → t.last_ping ≡ some ping
    → ltb t.last_pong ping ≡ true
    → check_missed t ≡ (
      record t { missed = t.missed + 1 },
      if leb t.missed_limit (t.missed + 1) then some (t.missed + 1) else none,
    )
unfolding check_missed
missed_check t ping e f =
    subst (λ b. (if b then counted else (t, none)) ≡ counted)
      (sym (ap (λ l. unanswered l t.last_pong) e ∙ f)) refl
  where
    counted : KeepaliveTracker × Option ℕ
    counted = (
      record t { missed = t.missed + 1 },
      if leb t.missed_limit (t.missed + 1) then some (t.missed + 1) else none,
    )

module _ {start limit : ℕ} (now : ℕ) where
  pub waits :
      {missed : ℕ} (t : KeepaliveTracker) (w : Waiting start limit missed t)
      → ltb t.last_pong w.ping ≡ true
  waits t w = ground (arith, w.no_pong, w.later)

  pub missed-Waiting :
      (t : KeepaliveTracker) (missed : ℕ)
      → Waiting start limit missed t
      → start < now
      → Waiting start limit (missed + 1) (record_ping now (record t { missed = t.missed + 1 }))
  unfolding record_ping
  missed-Waiting t missed w s = record {
    ping = now;
    pinged_at = refl;
    no_pong = w.no_pong;
    later = s;
    misses = ap (λ n. n + 1) w.misses;
    bound = w.bound;
  }

  pub first-Waiting :
      start < now → Waiting start limit 0 (record_ping now (new_tracker start limit))
  unfolding record_ping new_tracker
  first-Waiting s = record {
    ping = now;
    pinged_at = refl;
    no_pong = refl;
    later = s;
    misses = refl;
    bound = refl;
  }

pub skipped : {E F G : Type 0} → F ⊎ G → (E ⊎ F) ⊎ G
skipped (inl h) = inl (inr h)
skipped (inr h) = inr h

module _ (dmr_id : DmrId) (es : List LoopEvent) where
  -- A packet other than a pong leaves the tracker as it is, or ends the session.
  pub after_inbound :
      (now : ℕ) (delivered : Bool) (e : InboundEvent) (t : KeepaliveTracker)
      → ¬ (e ≡ pong)
      → Returned (keepalive_loop dmr_id es (going t))
      → Returned (keepalive_loop dmr_id es (inbound now delivered e t).session)
  unfolding inbound
  after_inbound now delivered pong t n h = absurd (n refl)
  after_inbound now true (dmrd pkt) t n h = h
  after_inbound now false (dmrd pkt) t n h = stays_returned dmr_id es none
  after_inbound now delivered nak t n h = stays_returned dmr_id es _
  after_inbound now delivered disconnect t n h = stays_returned dmr_id es _
  after_inbound now delivered (dmrd_parse_error e) t n h = h
  after_inbound now delivered rpt_ack t n h = h
  after_inbound now delivered rpt_sbkn t n h = h
  after_inbound now delivered unknown t n h = h

  pub inbound-Ended :
      {F G : Type 0} (now : ℕ) (delivered : Bool) (e : InboundEvent) (t : KeepaliveTracker)
      → ¬ (e ≡ pong)
      → (Returned (keepalive_loop dmr_id es (going t)) → F ⊎ G)
      → Returned (keepalive_loop dmr_id es (inbound now delivered e t).session)
      → (EndsInbound delivered e ⊎ F) ⊎ G
  unfolding inbound
  inbound-Ended now delivered pong t n h r = absurd (n refl)
  inbound-Ended now true (dmrd pkt) t n h r = skipped (h r)
  inbound-Ended now false (dmrd pkt) t n h r = inl (inl refl)
  inbound-Ended now delivered nak t n h r = inl (inl tt)
  inbound-Ended now delivered disconnect t n h r = inl (inl tt)
  inbound-Ended now delivered (dmrd_parse_error e) t n h r = skipped (h r)
  inbound-Ended now delivered rpt_ack t n h r = skipped (h r)
  inbound-Ended now delivered rpt_sbkn t n h r = skipped (h r)
  inbound-Ended now delivered unknown t n h r = skipped (h r)

  -- A tick ends the session at the limit or where its ping cannot be sent; else another ping waits.
  pub after_tick :
      (now : ℕ) (sent : Bool) (t : KeepaliveTracker) (limit missed : ℕ)
      → ((leb limit missed ≡ false)
          → Returned (keepalive_loop dmr_id es (going (record_ping now t))))
      → Returned (
          keepalive_loop dmr_id es
            (pinged dmr_id now sent (t, if leb limit missed then some missed else none)).session)
  unfolding pinged
  after_tick now sent t limit missed h = by_limit (leb limit missed) h
    where
      by_limit :
          (b : Bool)
          → ((b ≡ false) → Returned (keepalive_loop dmr_id es (going (record_ping now t))))
          → Returned (
              keepalive_loop dmr_id es
                (pinged dmr_id now sent (t, if b then some missed else none)).session)
      by_limit true k = stays_returned dmr_id es _
      by_limit false k = by_send sent
        where
          by_send :
              (s : Bool)
              → Returned (keepalive_loop dmr_id es (pinged dmr_id now s (t, none)).session)
          by_send true = k refl
          by_send false = stays_returned dmr_id es _

  -- A tick that ended the session came at the limit, or the session ended later.
  pub tick-Ended :
      {F : Type 0} (now : ℕ) (t : KeepaliveTracker) (limit missed : ℕ)
      → (Returned (keepalive_loop dmr_id es (going (record_ping now t))) → F)
      → Returned (
          keepalive_loop dmr_id es
            (pinged dmr_id now true (t, if leb limit missed then some missed else none)).session)
      → (leb limit missed ≡ true) ⊎ F
  unfolding pinged
  tick-Ended now t limit missed h r = elim (Bool-cases (leb limit missed)) [
    | inl e ↦ inl e
    | inr e ↦ inr (h (simp e at r))
  ]
