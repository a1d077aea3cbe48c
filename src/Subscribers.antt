-- ===== src/Subscribers.antt =====
-- dmr-subscriber/src/lib.rs: the database of subscribers. The CSV reader is a parameter: its rows come as
-- a list, a malformed one as `none`. The warnings are left out.
pub mod Lookup
use asl_dmr_bridge.Base.{
  ℕ, ◌+◌, List, [], ◌∷◌, Bool, true, false, ◌||◌, Option, none, some, leb, ◌==◌, if◌then◌else◌,
  length, take,
}
use asl_dmr_bridge.Ids.{SubscriberId, Checked, valid, invalid, subscriber_id}
use asl_dmr_bridge.Bridge.Rptc.{cut_at}

pub record Subscriber : Type 0 where
  pub dmr_id : SubscriberId
  pub callsign : List ℕ
  pub first_name : List ℕ
  pub last_name : List ℕ
  pub city : List ℕ
  pub state : List ℕ
  pub country : List ℕ

pub record CsvRow : Type 0 where
  pub radio_id : ℕ
  pub callsign : List ℕ
  pub first_name : List ℕ
  pub last_name : List ℕ
  pub city : List ℕ
  pub state : List ℕ
  pub country : List ℕ

abbrev pub max_field_len : ℕ
max_field_len = 64

unfoldable pub cap_field : List ℕ → List ℕ × Bool
cap_field s =
    if leb (length s) max_field_len then (s, false) else (take (cut_at s max_field_len) s, true)

unfoldable pub into_subscriber : CsvRow → SubscriberId → Subscriber × Bool
unfolding cap_field
into_subscriber row dmr_id =
    let (callsign, c1) = cap_field row.callsign in
    let (first_name, c2) = cap_field row.first_name in
    let (last_name, c3) = cap_field row.last_name in
    let (city, c4) = cap_field row.city in
    let (state, c5) = cap_field row.state in
    let (country, c6) = cap_field row.country in
    (
      record {
        dmr_id = dmr_id;
        callsign = callsign;
        first_name = first_name;
        last_name = last_name;
        city = city;
        state = state;
        country = country;
      },
      c1 || (c2 || (c3 || (c4 || (c5 || c6)))),
    )

-- The map, its newest entries first, and the rows that were skipped or cut.
pub record Subscribers : Type 0 where
  pub by_id : List (SubscriberId × Subscriber)
  pub bad_rows : ℕ
  pub capped_rows : ℕ

abbrev pub no_subscribers : Subscribers
no_subscribers = record { by_id = []; bad_rows = 0; capped_rows = 0 }

abbrev pub skipped : Subscribers → Subscribers
skipped db = record db { bad_rows = db.bad_rows + 1 }

unfoldable pub insert : SubscriberId → Subscriber × Bool → Subscribers → Subscribers
insert id (sub, capped) db = record {
  by_id = (id, sub) ∷ db.by_id;
  bad_rows = db.bad_rows;
  capped_rows = if capped then db.capped_rows + 1 else db.capped_rows;
}

abbrev pub with_id : CsvRow → Checked SubscriberId → Subscribers → Subscribers
with_id row (invalid e) db = skipped db
with_id row (valid id) db = insert id (into_subscriber row id) db

unfoldable pub add_row : Option CsvRow → Subscribers → Subscribers
unfolding insert into_subscriber subscriber_id
add_row none db = skipped db
add_row (some row) db = with_id row (subscriber_id row.radio_id) db

unfoldable pub from_reader : List (Option CsvRow) → Subscribers → Subscribers
unfolding add_row
from_reader [] db = db
from_reader (row ∷ rows) db = from_reader rows (add_row row db)

unfoldable pub get : List (SubscriberId × Subscriber) → SubscriberId → Option Subscriber
get [] dmr_id = none
get ((id, sub) ∷ by_id) dmr_id = if id.as_u32 == dmr_id.as_u32 then some sub else get by_id dmr_id
