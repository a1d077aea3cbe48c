-- ===== src/Homebrew/Packets.antt =====
-- bridge/src/homebrew_client.rs: reconnect delays and the classification of packets.
use asl_dmr_bridge.Base.{
  ℕ, zero, suc, ◌^◌, ◌≡◌, refl, arith, List, [], ◌∷◌, true, false, list_eq, take, leb,
  if◌then◌else◌,
}
use asl_dmr_bridge.Dmrd.{Dmrd, parse, ok, magic}
use asl_dmr_bridge.Dmrd.Reparse.{parse-ok}
use asl_dmr_bridge.Homebrew.{
  ReconnectBackoff, new_backoff, double, backoff_max, classify, dmrd, starts_with, tag_dmrd,
  tag_mstpong, parsed_event,
}

-- The delay after so many failures in a row.
unfoldable pub after_failures : ℕ → ReconnectBackoff
unfolding new_backoff double
after_failures zero = new_backoff
after_failures (suc n) = double (after_failures n)

-- After `n` failures in a row the delay is 2 ^ n seconds, or 60 where that is more.
pub after_failures-current :
    (n : ℕ) → (after_failures n).current ≡ (if leb (2 ^ n) backoff_max then 2 ^ n else backoff_max)
unfolding after_failures new_backoff double
after_failures-current zero = refl
after_failures-current (suc n) = ground (arith, after_failures-current n)

magic_first :
    (bytes : List ℕ)
    → list_eq (take 4 bytes) magic ≡ true
    → (starts_with tag_mstpong bytes ≡ false) × (starts_with tag_dmrd bytes ≡ true)
unfolding starts_with
magic_first [] e = ground arith
magic_first (a ∷ []) e = ground arith
magic_first (a ∷ b ∷ []) e = ground arith
magic_first (a ∷ b ∷ c ∷ []) e = ground arith
magic_first (a ∷ b ∷ c ∷ d ∷ bytes) e = ground arith

-- A packet that parses as a DMRD packet is classified as that packet.
pub classify-parse :
    (bytes : List ℕ) (pkt : Dmrd) → parse bytes ≡ ok pkt → classify bytes ≡ dmrd pkt
unfolding classify parsed_event
classify-parse bytes pkt h =
    let (long, is_magic, fields) = parse-ok bytes pkt h in
    let (not_pong, is_dmrd) = magic_first bytes is_magic in simp (not_pong, is_dmrd, h) refl
