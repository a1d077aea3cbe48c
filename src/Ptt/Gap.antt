-- ===== src/Ptt/Gap.antt =====
-- dmr-wire/src/voice/ptt.rs: the gap in the sequence numbers of a call.
use asl_dmr_bridge.Base.{ℕ, ◌+◌, ◌%◌, ◌≡◌, ◌<◌, ltb, if◌then◌else◌, some, arith}
use asl_dmr_bridge.Ptt.Rx.{seq_gap}

-- After `last`, a packet that comes `missing` numbers later than expected reports just these as a gap
-- while they are fewer than 128, and none otherwise; the numbers wrap at 256.
pub seq_gap_lem :
    (last missing : ℕ)
    → last < 256
    → missing < 256
    → seq_gap (some last) ((last + 1 + missing) % 256) ≡ (if ltb missing 128 then missing else 0)
unfolding seq_gap
seq_gap_lem last missing h k = ground arith
