-- ===== src/Homebrew.antt =====
-- bridge/src/homebrew_client.rs: packets, reconnect delay, keepalive tracking and the keepalive loop of
-- the client of the DMR network. SHA-256 is a parameter; times count seconds.
pub mod Alive
pub mod Connection
pub mod Ending
pub mod Keepalive
pub mod Login
pub mod Packets
pub mod Silence
use asl_dmr_bridge.Base.{
  ℕ, zero, suc, ◌+◌, ◌*◌, List, [], ◌∷◌, ◌++◌, Bool, true, false, ◌&&◌, Option, none, some, ltb,
  leb, ◌==◌, if◌then◌else◌, u32_to_be,
}
use asl_dmr_bridge.Ids.{DmrId}
use asl_dmr_bridge.Dmrd.{Dmrd, DmrdError, Result, ok, err, parse}

pub data NetworkError : Type 0 where
  resolve no_address io auth_cancelled auth_timeout master_nak master_disconnect
        unexpected_response :
      NetworkError
  keepalive_lost : ℕ → NetworkError

abbrev pub tag_rptk : List ℕ
tag_rptk = b'R' ∷ b'P' ∷ b'T' ∷ b'K' ∷ []

abbrev pub tag_rptping : List ℕ
tag_rptping = b'R' ∷ b'P' ∷ b'T' ∷ b'P' ∷ b'I' ∷ b'N' ∷ b'G' ∷ []

abbrev pub tag_rptack : List ℕ
tag_rptack = b'R' ∷ b'P' ∷ b'T' ∷ b'A' ∷ b'C' ∷ b'K' ∷ []

abbrev pub tag_mstnak : List ℕ
tag_mstnak = b'M' ∷ b'S' ∷ b'T' ∷ b'N' ∷ b'A' ∷ b'K' ∷ []

abbrev pub tag_mstpong : List ℕ
tag_mstpong = b'M' ∷ b'S' ∷ b'T' ∷ b'P' ∷ b'O' ∷ b'N' ∷ b'G' ∷ []

abbrev pub tag_mstcl : List ℕ
tag_mstcl = b'M' ∷ b'S' ∷ b'T' ∷ b'C' ∷ b'L' ∷ []

abbrev pub tag_dmrd : List ℕ
tag_dmrd = b'D' ∷ b'M' ∷ b'R' ∷ b'D' ∷ []

abbrev pub tag_rptsbkn : List ℕ
tag_rptsbkn = b'R' ∷ b'P' ∷ b'T' ∷ b'S' ∷ b'B' ∷ b'K' ∷ b'N' ∷ []

abbrev pub backoff_initial : ℕ
backoff_initial = 1

abbrev pub backoff_max : ℕ
backoff_max = 60

pub record ReconnectBackoff : Type 0 where
  pub current : ℕ

unfoldable pub new_backoff : ReconnectBackoff
new_backoff = record { current = backoff_initial }

abbrev smaller : ℕ → ℕ → ℕ
smaller a b = if leb a b then a else b

unfoldable pub double : ReconnectBackoff → ReconnectBackoff
double b = record { current = smaller (b.current * 2) backoff_max }

unfoldable pub reset : ReconnectBackoff → ReconnectBackoff
reset b = record { current = backoff_initial }

pub data InboundEvent : Type 0 where
  pong : InboundEvent
  dmrd : Dmrd → InboundEvent
  dmrd_parse_error : DmrdError → InboundEvent
  nak disconnect rpt_ack rpt_sbkn unknown : InboundEvent

-- `data.starts_with(tag)`
unfoldable pub starts_with : List ℕ → List ℕ → Bool
starts_with [] bytes = true
starts_with (t ∷ tag) [] = false
starts_with (t ∷ tag) (b ∷ bytes) = t == b && starts_with tag bytes

unfoldable pub parsed_event : Result Dmrd → InboundEvent
parsed_event (ok pkt) = dmrd pkt
parsed_event (err e) = dmrd_parse_error e

unfoldable pub classify : List ℕ → InboundEvent
unfolding starts_with parsed_event
classify bytes =
    if starts_with tag_mstpong bytes
    then pong
    else if starts_with tag_dmrd bytes
    then parsed_event (parse bytes)
    else if starts_with tag_mstnak bytes
    then nak
    else if starts_with tag_mstcl bytes
    then disconnect
    else if starts_with tag_rptack bytes
    then rpt_ack
    else if starts_with tag_rptsbkn bytes
    then rpt_sbkn
    else unknown

pub record KeepaliveTracker : Type 0 where
  pub last_ping : Option ℕ
  pub last_pong : ℕ
  pub missed : ℕ
  pub missed_limit : ℕ

unfoldable pub new_tracker : ℕ → ℕ → KeepaliveTracker
new_tracker now limit = record {
  last_ping = none;
  last_pong = now;
  missed = 0;
  missed_limit = limit;
}

-- A ping that no pong followed.
abbrev pub unanswered : Option ℕ → ℕ → Bool
unanswered none last_pong = false
unanswered (some prev) last_pong = ltb last_pong prev

-- The tracker, and the number of misses once the limit is reached.
unfoldable pub check_missed : KeepaliveTracker → KeepaliveTracker × Option ℕ
check_missed t =
    if unanswered t.last_ping t.last_pong
    then (
      record t { missed = t.missed + 1 },
      if leb t.missed_limit (t.missed + 1) then some (t.missed + 1) else none,
    )
    else (t, none)

unfoldable pub record_ping : ℕ → KeepaliveTracker → KeepaliveTracker
record_ping at t = record t { last_ping = some at }

unfoldable pub record_pong : ℕ → KeepaliveTracker → KeepaliveTracker
record_pong at t = record t { last_pong = at; missed = 0 }

unfoldable pub build_tagged : List ℕ → DmrId → List ℕ
build_tagged tag dmr_id = tag ++ u32_to_be dmr_id.as_u32

unfoldable pub build_rptk : (List ℕ → List ℕ) → DmrId → List ℕ → List ℕ → List ℕ
build_rptk sha256 dmr_id nonce password =
    tag_rptk ++ (u32_to_be dmr_id.as_u32 ++ sha256 (nonce ++ password))

-- What the select of the keepalive loop yields, with the time, and with how the send that it leads to
-- ends (`true` where it works). A closed queue yields no packet.
pub data LoopEvent : Type 0 where
  cancelled : LoopEvent
  tick : ℕ → Bool → LoopEvent
  received : ℕ → List ℕ → Bool → LoopEvent
  receive_failed : LoopEvent
  queued : Option (List ℕ) → LoopEvent

pub data Out : Type 0 where
  to_master : List ℕ → Out
  to_voice_task : Dmrd → Out

-- The loop goes on, or returns.
pub data Session : Type 0 where
  going : KeepaliveTracker → Session
  returned : Option NetworkError → Session

pub record Turn : Type 0 where
  pub session : Session
  pub out : List Out

unfoldable pub pinged : DmrId → ℕ → Bool → KeepaliveTracker × Option ℕ → Turn
unfolding record_ping build_tagged
pinged dmr_id now sent (t, some missed) = record {
  session = returned (some (keepalive_lost missed));
  out = [];
}
pinged dmr_id now true (t, none) = record {
  session = going (record_ping now t);
  out = to_master (build_tagged tag_rptping dmr_id) ∷ [];
}
pinged dmr_id now false (t, none) = record { session = returned (some io); out = [] }

unfoldable pub inbound : ℕ → Bool → InboundEvent → KeepaliveTracker → Turn
unfolding record_pong
inbound now delivered pong t = record { session = going (record_pong now t); out = [] }
inbound now true (dmrd pkt) t = record { session = going t; out = to_voice_task pkt ∷ [] }
inbound now false (dmrd pkt) t = record { session = returned none; out = [] }
inbound now delivered nak t = record { session = returned (some master_nak); out = [] }
inbound now delivered disconnect t = record {
  session = returned (some master_disconnect);
  out = [];
}
inbound now delivered _ t = record { session = going t; out = [] }

unfoldable pub turn : DmrId → LoopEvent → KeepaliveTracker → Turn
unfolding pinged inbound check_missed classify
turn dmr_id cancelled t = record { session = returned none; out = [] }
turn dmr_id (tick now sent) t = pinged dmr_id now sent (check_missed t)
turn dmr_id (received now bytes delivered) t = inbound now delivered (classify bytes) t
turn dmr_id receive_failed t = record { session = returned (some io); out = [] }
turn dmr_id (queued none) t = record { session = returned none; out = [] }
turn dmr_id (queued (some pkt)) t = record { session = going t; out = to_master pkt ∷ [] }

-- The loop over what the select yields, as far as that goes.
unfoldable pub keepalive_loop : DmrId → List LoopEvent → Session → Session
unfolding turn
keepalive_loop dmr_id [] s = s
keepalive_loop dmr_id (e ∷ es) (returned r) = returned r
keepalive_loop dmr_id (e ∷ es) (going t) = keepalive_loop dmr_id es (turn dmr_id e t).session
