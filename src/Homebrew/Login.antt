-- ===== src/Homebrew/Login.antt =====
-- bridge/src/homebrew_client.rs: authentication with the master, one event at a time.
pub mod Accepted
use asl_dmr_bridge.Base.{
  ℕ, ◌+◌, List, [], ◌∷◌, ◌++◌, Bool, true, false, ◌&&◌, leb, if◌then◌else◌, length, take, drop,
}
use asl_dmr_bridge.Ids.{DmrId}
use asl_dmr_bridge.Homebrew.{
  NetworkError, io, auth_cancelled, auth_timeout, master_nak, unexpected_response, tag_rptack,
  tag_mstnak, starts_with, build_tagged, build_rptk, Out, to_master,
}

abbrev pub tag_rptl : List ℕ
tag_rptl = b'R' ∷ b'P' ∷ b'T' ∷ b'L' ∷ []

abbrev pub nonce_len : ℕ
nonce_len = 4

-- What happens while the client waits for a reply: a datagram, with how the send ends that it leads
-- to, a receive error, a cancellation, or the end of the time for the whole sequence.
pub data AuthEvent : Type 0 where
  arrived : List ℕ → Bool → AuthEvent
  recv_failed cancelled expired : AuthEvent

-- The reply that is waited for: to RPTL, to RPTK, to the configuration.
pub data Stage : Type 0 where
  wait_nonce wait_key wait_config : Stage

pub data Login : Type 0 where
  pending : Stage → Login
  accepted : Login
  refused : NetworkError → Login

-- The packets that identify this repeater; SHA-256 is a parameter.
pub record Credentials : Type 0 where
  pub sha256 : List ℕ → List ℕ
  pub dmr_id : DmrId
  pub password : List ℕ
  pub config_packet : List ℕ

-- A reply to RPTL that carries a nonce.
abbrev pub is_challenge : List ℕ → Bool
is_challenge bytes = starts_with tag_rptack bytes && leb (6 + nonce_len) (length bytes)

abbrev pub nonce_of : List ℕ → List ℕ
nonce_of bytes = take nonce_len (drop 6 bytes)

-- A packet is sent and the next reply waited for.
abbrev sending : Bool → List ℕ → Stage → Login × List Out
sending true packet stage = (pending stage, to_master packet ∷ [])
sending false packet stage = (refused io, [])

-- The reply to RPTK or to the configuration.
abbrev replied : List ℕ → Login × List Out → Login × List Out
replied bytes next =
    if starts_with tag_mstnak bytes
    then (refused master_nak, [])
    else if starts_with tag_rptack bytes
    then next
    else (refused unexpected_response, [])

module _ (who : Credentials) where
  unfoldable pub login_step : AuthEvent → Stage → Login × List Out
  unfolding build_rptk
  login_step recv_failed stage = (refused io, [])
  login_step cancelled stage = (refused auth_cancelled, [])
  login_step expired stage = (refused auth_timeout, [])
  login_step (arrived bytes sent) wait_nonce =
      if starts_with tag_mstnak bytes
      then (refused master_nak, [])
      else if is_challenge bytes
      then sending sent (build_rptk who.sha256 who.dmr_id (nonce_of bytes) who.password) wait_key
      else (pending wait_nonce, [])
  login_step (arrived bytes sent) wait_key =
      replied bytes (sending sent who.config_packet wait_config)
  login_step (arrived bytes sent) wait_config = replied bytes (accepted, [])

  -- The rest of the sequence from a stage on; no event is taken once it has ended.
  unfoldable pub login_from : List AuthEvent → Login × List Out → Login × List Out
  unfolding login_step
  login_from [] (l, out) = (l, out)
  login_from (e ∷ es) (pending stage, out) =
      let (l, more) = login_step e stage in login_from es (l, out ++ more)
  login_from (e ∷ es) (accepted, out) = (accepted, out)
  login_from (e ∷ es) (refused x, out) = (refused x, out)

  -- RPTL goes out first; `sent` says how that ends.
  unfoldable pub authenticate : Bool → List AuthEvent → Login × List Out
  unfolding login_from build_tagged
  authenticate sent es = login_from es (sending sent (build_tagged tag_rptl who.dmr_id) wait_nonce)
