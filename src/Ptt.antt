-- ===== src/Ptt.antt =====
-- dmr-wire/src/voice/ptt.rs: the push-to-talk state machine, in parts.
pub mod Machine
pub mod Transcode
pub mod Tx
pub mod Rx
pub mod Handlers
pub mod View
pub mod Steps
pub mod Moves
pub mod Sending
pub mod Receiving
pub mod OnDmrd
pub mod Calls
pub mod Packets
pub mod Runs
pub mod Lost
pub mod Counters
pub mod Accounting
pub mod Gap
