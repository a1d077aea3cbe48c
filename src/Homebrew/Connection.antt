-- ===== src/Homebrew/Connection.antt =====
-- bridge/src/homebrew_client.rs: one connection from set-up to its end, and the loop that reconnects. The
-- packet RPTCL that goes out after a session, and the emptying of the queues before one, are left out.
use asl_dmr_bridge.Base.{
  ℕ, suc, ◌^◌, ◌≡◌, refl, List, [], ◌∷◌, Bool, true, false, not, Option, none, some, leb,
  if◌then◌else◌, ap, ap₂, ◌∙◌, sym,
}
use asl_dmr_bridge.Homebrew.{
  NetworkError, LoopEvent, Session, going, returned, keepalive_loop, new_tracker, ReconnectBackoff,
  new_backoff, double, reset, backoff_max,
}
use asl_dmr_bridge.Homebrew.Login.{
  AuthEvent, Login, pending, accepted, refused, Credentials, authenticate,
}
use asl_dmr_bridge.Homebrew.Packets.{after_failures, after_failures-current}

-- What the outside does to one connection: how name lookup, bind and connect end (a cancellation counts
-- as an error of that kind), what arrives during authentication, whether the voice task still takes
-- control events, what the keepalive loop sees, and whether the client is cancelled by the time the
-- connection has failed, or while it waits to reconnect.
pub record Attempt : Type 0 where
  pub setup_error : Option NetworkError
  pub login_sent : Bool
  pub replies : List AuthEvent
  pub control_open : Bool
  pub started : ℕ
  pub events : List LoopEvent
  pub cancelled_after : Bool
  pub cancelled_waiting : Bool

-- `Ok(())`, or `ConnectError`, or neither so far.
pub data Connection : Type 0 where
  closed underway : Connection
  failed : Bool → NetworkError → Connection

module _ (who : Credentials) (missed_limit : ℕ) where
  abbrev ended : Session → Connection
  ended (going t) = underway
  ended (returned none) = closed
  ended (returned (some e)) = failed true e

  session_of : Attempt → Connection
  session_of a =
      if not a.control_open
      then closed
      else ended (keepalive_loop who.dmr_id a.events (going (new_tracker a.started missed_limit)))

  after_login : Attempt → Login → Connection
  unfolding session_of
  after_login a (pending stage) = underway
  after_login a (refused e) = failed false e
  after_login a accepted = session_of a

  unfoldable pub connect_once : Attempt → Connection
  unfolding after_login
  connect_once a = elim a.setup_error [
    | some e ↦ failed false e
    | none ↦ after_login a (authenticate who a.login_sent a.replies).0
  ]

  -- The delays whose wait is begun, and whether `run` returned.
  abbrev waits : ReconnectBackoff → Bool → List ℕ × Bool → List ℕ × Bool
  waits b cancelled (delays, stopped) =
      if cancelled then (b.current ∷ [], true) else (b.current ∷ delays, stopped)

  abbrev refreshed : Bool → ReconnectBackoff → ReconnectBackoff
  refreshed true b = reset b
  refreshed false b = b

  -- What `run` does once a connection has come to its end.
  abbrev reconnect :
      Connection → Attempt → ReconnectBackoff → (ReconnectBackoff → List ℕ × Bool) → List ℕ × Bool
  reconnect closed a b later = ([], true)
  reconnect underway a b later = ([], false)
  reconnect (failed authed e) a b later =
      if a.cancelled_after
      then ([], true)
      else waits (refreshed authed b) a.cancelled_waiting (later (double (refreshed authed b)))

  unfoldable pub run : List Attempt → ReconnectBackoff → List ℕ × Bool
  unfolding connect_once reset double
  run [] b = ([], false)
  run (a ∷ later) b = reconnect (connect_once a) a b (run later)

  -- 2 ^ n seconds, and a minute at most.
  abbrev pub capped : ℕ → ℕ
  capped n = if leb (2 ^ n) backoff_max then 2 ^ n else backoff_max

  abbrev streak : Bool → ℕ → ℕ
  streak true n = 0
  streak false n = n

  -- The delay after a connection with so many failures before it, and the later ones.
  abbrev delayed : Connection → Attempt → ℕ → (ℕ → List ℕ) → List ℕ
  delayed closed a n later = []
  delayed underway a n later = []
  delayed (failed authed e) a n later =
      if a.cancelled_after
      then []
      else capped (streak authed n)
        ∷ (if a.cancelled_waiting then [] else later (suc (streak authed n)))

  -- The delays by the number of failures in a row, of which none reached the master's acceptance.
  unfoldable pub delays : List Attempt → ℕ → List ℕ
  unfolding connect_once
  delays [] n = []
  delays (a ∷ later) n = delayed (connect_once a) a n (delays later)

  refreshed-after_failures :
      (authed : Bool) (n : ℕ)
      → refreshed authed (after_failures n) ≡ after_failures (streak authed n)
  unfolding after_failures reset new_backoff
  refreshed-after_failures true n = refl
  refreshed-after_failures false n = refl

  after_failures-suc : (m : ℕ) → after_failures (suc m) ≡ double (after_failures m)
  unfolding after_failures
  after_failures-suc m = refl

  -- A failed connection, the later ones being as they are to be.
  reconnect-delayed :
      (c : Connection) (a : Attempt) (n : ℕ) (later : List Attempt)
      → ((m : ℕ) → (run later (after_failures m)).0 ≡ delays later m)
      → (reconnect c a (after_failures n) (run later)).0 ≡ delayed c a n (delays later)
  reconnect-delayed closed a n later ih = refl
  reconnect-delayed underway a n later ih = refl
  reconnect-delayed (failed authed e) a n later ih =
      rw (refreshed-after_failures authed n)
        (waited (streak authed n) a.cancelled_after a.cancelled_waiting)
    where
      waited :
          (m : ℕ) (stop wake : Bool)
          → (if stop
              then ([], true)
              else waits (after_failures m) wake (run later (double (after_failures m)))).0
            ≡ (if stop then [] else capped m ∷ (if wake then [] else delays later (suc m)))
      waited m true wake = refl
      waited m false true = ap (λ c. c ∷ []) (after_failures-current m)
      waited m false false =
          ap₂ (λ c rest. c ∷ rest) (after_failures-current m)
            (ap (λ b. (run later b).0) (sym (after_failures-suc m)) ∙ ih (suc m))

  run-after_failures :
      (attempts : List Attempt) (n : ℕ) → (run attempts (after_failures n)).0 ≡ delays attempts n
  unfolding run delays
  run-after_failures [] n = refl
  run-after_failures (a ∷ later) n =
      reconnect-delayed (connect_once a) a n later (run-after_failures later)

  -- Whatever the connections do, the delays that `run` begins to wait before it tries again are, each, 2 ^ n
  -- seconds and a minute at most, where n counts the failed connections since the start or the last one
  -- that authenticated.
  pub run-delays : (attempts : List Attempt) → (run attempts new_backoff).0 ≡ delays attempts 0
  unfolding after_failures
  run-delays attempts = run-after_failures attempts 0
