-- ===== src/Tests/SubscriberRuns.antt =====
-- The theorem on the database of subscribers at concrete rows.
use asl_dmr_bridge.Base.{ℕ, ◌≡◌, List, [], ◌∷◌, Option, none, some}
use asl_dmr_bridge.Ids.{SubscriberId}
use asl_dmr_bridge.Subscribers.{CsvRow, no_subscribers, from_reader, get}
use asl_dmr_bridge.Subscribers.Lookup.{last_row, Capped, from_reader-get}

abbrev row : ℕ → List ℕ → CsvRow
row id name = record {
  radio_id = id;
  callsign = name;
  first_name = [];
  last_name = [];
  city = [];
  state = [];
  country = [];
}

-- An id twice, a malformed row, and an id that is out of range.
abbrev rows : List (Option CsvRow)
rows =
    some (row 1_234_567 (b'A' ∷ []))
    ∷ none
    ∷ some (row 0 (b'B' ∷ []))
    ∷ some (row 1_234_567 (b'C' ∷ []))
    ∷ []

abbrev wanted : SubscriberId
wanted = record { as_u32 = 1_234_567 }

from_reader-get_example :
    (get (from_reader rows no_subscribers).by_id wanted ≡ last_row wanted rows)
    × Capped (last_row wanted rows)
from_reader-get_example = from_reader-get rows wanted
