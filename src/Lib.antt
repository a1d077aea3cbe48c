-- ===== src/Lib.antt =====
-- A verification library for asl-dmr-bridge: the bridge between an AllStarLink FM node and a DMR
-- network. Modelled are the wire formats of DMR (crates dmr-types and dmr-wire) and of the FM side
-- (usrp-wire), the voice task of dmr-wire, which is the push-to-talk machine that carries calls
-- both ways, the network client, the audio tasks, the configuration, the provisioning and the
-- statistics of the bridge, the client of the network's API (brandmeister-api), the subscribers
-- (dmr-subscriber), and the vocoders behind a chip or a server (dv3000-wire, ambe, ambeserver).
--
-- How the parts interact. A packet from the network is a `Dmrd` (dmr-wire/src/dmrd.rs). The voice task
-- (dmr-wire/src/voice.rs and voice/ptt.rs) takes packets, audio frames from the FM side, network resets
-- and its own timeout, one at a time, and answers with audio, packets, call metadata and statistics.
-- Towards DMR it builds bursts out of vocoder frames (frame.rs), a sync pattern or an EMB section
-- (sync.rs) with a piece of link control (embedded_lc.rs, talker_alias.rs), and header and terminator
-- bursts (bptc.rs) under the codes of fec.rs and rs.rs. From DMR it extracts the vocoder frames again.
--
-- Which file models what:
--   Base           Booleans, lists, arrays, words and bits that all parts share
--   Ids            dmr-types/src/lib.rs: identifiers and their ranges
--   Dmrd           dmr-wire/src/dmrd.rs: Dmrd::serialize and Dmrd::parse
--   Fec            dmr-wire/src/fec.rs: Hamming, Golay and QR codes with their tables
--   Rs             dmr-wire/src/rs.rs: the code RS(12,9). Rs.Bytes has the field, Rs.Roots the roots of the
--                  generator, Rs.CodeWords words without an error, Rs.Errors and Rs.Correction one error
--   Bptc           dmr-wire/src/bptc.rs: data bursts and the LC in them. Bptc.Product, Entries,
--                  Interleaving, Passes, Correction and Recovery are about the product code, Bptc.Bursts
--                  about the bits of a burst, Bptc.LcBytes and VoiceLc about headers and terminators
--   EmbeddedLc     dmr-wire/src/embedded_lc.rs: LC fragments of voice bursts
--   Sync, Frame    dmr-wire/src/sync.rs and frame.rs: voice bursts
--   TalkerAlias    dmr-wire/src/talker_alias.rs
--   Events         dmr-events/src/lib.rs and dmr-wire/src/audio.rs
--   Voice          dmr-wire/src/voice.rs: the configuration and the helpers without state
--   Ptt            dmr-wire/src/voice/ptt.rs. Ptt.Machine has the state (PttMachine, PttState, RxCall,
--                  TxCall), the outputs and the small methods; Ptt.Transcode the vocoder calls; Ptt.Tx
--                  and Ptt.Rx the two directions; Ptt.Handlers the event handlers and the loop of
--                  voice_task. Ptt.View is the abstract view of the outputs: the call that the
--                  statistics have open, the stream that keys the FM side, and whether metadata is on
--                  display, each event being in or out of place. Ptt.Packets, Ptt.Steps, Ptt.Moves, Ptt.Sending,
--                  Ptt.Receiving, Ptt.OnDmrd, Ptt.Calls and Ptt.Runs relate the machine to that view; Ptt.Lost has
--                  the two events that break it; Ptt.Counters, Ptt.Accounting and Ptt.Gap are about
--                  counters, statistics and sequence gaps.
--   Usrp           usrp-wire/src/lib.rs: Frame::parse and Frame::serialize; Usrp.Fields is about the parts
--                  of a packet, Usrp.RoundTrip about whole ones
--   Homebrew       bridge/src/homebrew_client.rs: packets, delays, KeepaliveTracker, keepalive_loop;
--                  Homebrew.Login has authenticate, Homebrew.Connection connect_once and run;
--                  Homebrew.Ending, Homebrew.Silence, Homebrew.Keepalive and Homebrew.Alive are about how a
--                  session ends and how long it goes on
--   Bridge.Stats   bridge/src/stats.rs: the counters per direction; Bridge.Stats.Totals has them together
--                  with the voice task that reports to them
--   Bridge.Audio   bridge/src/usrp.rs: rx_task and tx_task. Bridge.Audio.Sending is about what one turn
--                  sends, Bridge.Audio.Loopback about two tasks that talk to each other,
--                  Bridge.Audio.Pacing about the times of packets
--   Bridge.Provision  bridge/src/brandmeister_provision.rs: run_once, reconcile_statics, reconcile_slot
--   Bridge.Rptc    bridge/src/network/brandmeister.rs and types.rs: config_packet and what it writes
--   Bridge.Config  bridge/src/config.rs: load, validate, and the secrets from their four sources
--   Dv3000         dv3000-wire/src/lib.rs and rates.rs: packets of AMBE-3000 chips
--   Ambe           ambe/src: the Vocoder trait, SplitVocoder, and the clients of a chip or a server
--   Ambe.Channel   ambe/src/voice_channel.rs: channel_encode and channel_decode
--   AmbeServer     ambeserver/src: SoftBackend and the loop of run that lends it to one client at a time;
--                  AmbeServer.Negotiation is about the rate that a client asks for, AmbeServer.Session
--                  about who may speak, AmbeServer.Client has client and server together
--   BrandmeisterApi  brandmeister-api/src/client.rs and error.rs: bodies and errors; BrandmeisterApi.Calls has
--                  the calls of the client, BrandmeisterApi.Requests is about the token in them,
--                  BrandmeisterApi.Bodies about bodies
--   Subscribers    dmr-subscriber/src/lib.rs: the database of subscribers
--   Tests          the vectors of the repository's own tests, and the theorems at concrete inputs
--
-- How the code is modelled. A method that changes the machine is a function from machine to machine; its
-- outputs are entries of the machine's `log`, the newest first. What is sent by `try_send` to the
-- metadata and statistics channels is logged as handed over. Bytes, bits, dibits and words are natural
-- numbers with the wrap-around written out; fixed arrays are lists. A panic on an identifier of more
-- than 24 bits is `none`, and the output `panicked` in the machine. All loops are structural recursion,
-- so there is no fuel.
--
-- What is not modelled: the vocoder and the pre-encode filter, which are the interface Ptt.Machine.Codec
-- with every answer possible; the clock, the random stream ids and the room in the channels, which each
-- event brings along (Ptt.Machine.Env); logging, level meters and recordings, apart from the calls of
-- them; SHA-256, which is an argument; gain control and limiter (Bridge.Audio.Agc); HTTP, URLs and JSON
-- (BrandmeisterApi.Calls.Web); the formatting of coordinates (Bridge.Rptc.Floats); the sockets, files, CSV and TOML, the tools, and the neural and emulated vocoders.
pub mod Base
pub mod Ids
pub mod Dmrd
pub mod Fec
pub mod Rs
pub mod Bptc
pub mod Sync
pub mod EmbeddedLc
pub mod Frame
pub mod TalkerAlias
pub mod Dv3000
pub mod Ambe
pub mod AmbeServer
pub mod Events
pub mod Voice
pub mod Ptt
pub mod Usrp
pub mod Homebrew
pub mod Bridge
pub mod BrandmeisterApi
pub mod Subscribers
mod Tests
