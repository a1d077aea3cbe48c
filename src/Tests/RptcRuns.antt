-- ===== src/Tests/RptcRuns.antt =====
-- The theorem on the configuration packet at the repository's own test configuration.
use asl_dmr_bridge.Base.{ℕ, ◌≡◌, refl, arith, List, [], ◌∷◌, none, some}
use asl_dmr_bridge.Ids.{Slot}
use asl_dmr_bridge.Bridge.Rptc.{Floats, PeerConfig, zero_padded, callsign, frequency, config_packet}
use asl_dmr_bridge.Bridge.Rptc.Columns.{Formats, Readable, config_packet-Readable}

-- Ten thousandths of a degree, all of them east and north.
abbrev degrees : Floats
degrees = record {
  F = ℕ;
  unset = 0;
  max_latitude = 899_999;
  max_longitude = 1_799_999;
  clamp_to = λ v limit. v;
  format = λ v width. zero_padded width v;
}

degrees-Formats : Formats degrees
unfolding zero_padded
degrees-Formats = record { latitude_width = λ v. refl; longitude_width = λ v. refl }

abbrev n0call : List ℕ
n0call = b'N' ∷ b'0' ∷ b'C' ∷ b'A' ∷ b'L' ∷ b'L' ∷ []

abbrev peer : PeerConfig degrees
peer = record {
  callsign = record { as_str = n0call };
  dmr_id = record { as_u32 = 1_234_567 };
  src_id = record { as_u32 = 1_234_567 };
  rx_freq = record { hz = 434_000_000 };
  tx_freq = record { hz = 439_000_000 };
  tx_power = [];
  color_code = record { value = 1 };
  latitude = none;
  longitude = some 123_456;
  height = some 2000;
  location = b'X' ∷ 0xc3 ∷ 0xa9 ∷ [];
  description = [];
  url = [];
}

n0call-accepted : callsign n0call ≡ some peer.callsign
unfolding callsign
n0call-accepted = refl

rx-accepted : frequency 434_000_000 ≡ some peer.rx_freq
unfolding frequency
rx-accepted = refl

tx-accepted : frequency 439_000_000 ≡ some peer.tx_freq
unfolding frequency
tx-accepted = refl

config_packet_example :
    (packet : List ℕ) × (config_packet peer Slot.one ≡ some packet) × Readable peer Slot.one packet
config_packet_example =
    config_packet-Readable degrees-Formats peer Slot.one n0call 434_000_000 439_000_000
      n0call-accepted rx-accepted tx-accepted (omega arith) (omega arith)
