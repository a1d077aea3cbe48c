-- ===== src/Subscribers/Lookup.antt =====
-- dmr-subscriber/src/lib.rs: what a lookup finds after the rows are read.
use asl_dmr_bridge.Base.{
  ℕ, ◌≡◌, ◌≤◌, refl, arith, List, [], ◌∷◌, Bool, true, false, Option, none, some, leb, ◌==◌,
  if◌then◌else◌, length, length-take_le, take, ap, sym, ◌∙◌,
}
use asl_dmr_bridge.Ids.{SubscriberId, Checked, valid, invalid, subscriber_id}
use asl_dmr_bridge.Bridge.Rptc.{cut_at}
use asl_dmr_bridge.Bridge.Rptc.Reading.{cut_at_le}
use asl_dmr_bridge.Subscribers.{
  Subscriber, CsvRow, cap_field, into_subscriber, Subscribers, no_subscribers, with_id, add_row,
  from_reader, get,
}

abbrev pub or_else : Option Subscriber → Option Subscriber → Option Subscriber
or_else none other = other
or_else (some sub) other = some sub

-- The subscriber of a row, if its id is valid and the one that is looked for.
abbrev pub matching : SubscriberId → CsvRow → Checked SubscriberId → Option Subscriber
matching dmr_id row (invalid e) = none
matching dmr_id row (valid id) =
    if id.as_u32 == dmr_id.as_u32 then some (into_subscriber row id).0 else none

abbrev pub row_of : SubscriberId → Option CsvRow → Option Subscriber
row_of dmr_id none = none
row_of dmr_id (some row) = matching dmr_id row (subscriber_id row.radio_id)

-- The last row of an id.
abbrev pub last_row : SubscriberId → List (Option CsvRow) → Option Subscriber
last_row dmr_id [] = none
last_row dmr_id (row ∷ rows) = or_else (last_row dmr_id rows) (row_of dmr_id row)

or_else_assoc : (a b c : Option Subscriber) → or_else (or_else a b) c ≡ or_else a (or_else b c)
or_else_assoc none b c = refl
or_else_assoc (some a) b c = refl

add_row-get :
    (dmr_id : SubscriberId) (row : Option CsvRow) (db : Subscribers)
    → get (add_row row db).by_id dmr_id ≡ or_else (row_of dmr_id row) (get db.by_id dmr_id)
unfolding add_row get
add_row-get dmr_id none db = refl
add_row-get dmr_id (some row) db = by_id (subscriber_id row.radio_id)
  where
    by_id :
        (c : Checked SubscriberId)
        → get (with_id row c db).by_id dmr_id
          ≡ or_else (matching dmr_id row c) (get db.by_id dmr_id)
    by_id (invalid e) = refl
    by_id (valid id) = by_test (id.as_u32 == dmr_id.as_u32) (into_subscriber row id)
      where
        by_test :
            (same : Bool) (r : Subscriber × Bool)
            → (if same then some r.0 else get db.by_id dmr_id)
              ≡ or_else (if same then some r.0 else none) (get db.by_id dmr_id)
        by_test true r = refl
        by_test false r = refl

from_reader-then :
    (dmr_id : SubscriberId) (rows : List (Option CsvRow)) (db : Subscribers)
    → get (from_reader rows db).by_id dmr_id ≡ or_else (last_row dmr_id rows) (get db.by_id dmr_id)
unfolding from_reader
from_reader-then dmr_id [] db = refl
from_reader-then dmr_id (row ∷ rows) db =
    from_reader-then dmr_id rows (add_row row db)
    ∙ ap (or_else (last_row dmr_id rows)) (add_row-get dmr_id row db)
    ∙ sym (or_else_assoc (last_row dmr_id rows) (row_of dmr_id row) (get db.by_id dmr_id))

length-cap_field : (s : List ℕ) → length (cap_field s).0 ≤ 64
unfolding cap_field
length-cap_field s = by_test (leb (length s) 64) refl
  where
    at_most : (n : ℕ) → leb n 64 ≡ true → n ≤ 64
    at_most n e = ground (arith, e)

    longer : (n : ℕ) → leb n 64 ≡ false → 64 ≤ n
    longer n e = ground (arith, e)

    cut_if : Bool → List ℕ × Bool
    cut_if short = if short then (s, false) else (take (cut_at s 64) s, true)

    by_test : (short : Bool) → leb (length s) 64 ≡ short → length (cut_if short).0 ≤ 64
    by_test true e = at_most (length s) e
    by_test false e =
        let cut = cut_at_le s 64 in
        omega (arith, cut, length-take_le (cut_at s 64) s (omega (arith, cut, longer (length s) e)))

abbrev pub Capped : Option Subscriber → Type 0
Capped none = Unit {0}
Capped (some sub) =
    (length sub.callsign ≤ 64)
    × (length sub.first_name ≤ 64)
    × (length sub.last_name ≤ 64)
    × (length sub.city ≤ 64)
    × (length sub.state ≤ 64)
    × (length sub.country ≤ 64)

into_subscriber-Capped :
    (row : CsvRow) (id : SubscriberId) → Capped (some (into_subscriber row id).0)
unfolding into_subscriber
into_subscriber-Capped row id = (
  length-cap_field row.callsign,
  length-cap_field row.first_name,
  length-cap_field row.last_name,
  length-cap_field row.city,
  length-cap_field row.state,
  length-cap_field row.country,
)

row_of-Capped : (dmr_id : SubscriberId) (row : Option CsvRow) → Capped (row_of dmr_id row)
row_of-Capped dmr_id none = tt
row_of-Capped dmr_id (some row) = by_id (subscriber_id row.radio_id)
  where
    by_id : (c : Checked SubscriberId) → Capped (matching dmr_id row c)
    by_id (invalid e) = tt
    by_id (valid id) = by_test (id.as_u32 == dmr_id.as_u32)
      where
        by_test : (same : Bool) → Capped (if same then some (into_subscriber row id).0 else none)
        by_test true = into_subscriber-Capped row id
        by_test false = tt

last_row-Capped :
    (dmr_id : SubscriberId) (rows : List (Option CsvRow)) → Capped (last_row dmr_id rows)
last_row-Capped dmr_id [] = tt
last_row-Capped dmr_id (row ∷ rows) =
    of_two (last_row dmr_id rows) (row_of dmr_id row) (last_row-Capped dmr_id rows)
      (row_of-Capped dmr_id row)
  where
    of_two : (a b : Option Subscriber) → Capped a → Capped b → Capped (or_else a b)
    of_two none b h k = k
    of_two (some a) b h k = h

-- Whatever rows are read, malformed ones among them, a lookup of an id finds the last row that has it, and
-- nothing where no row does; what it finds has no field of more than 64 bytes.
pub from_reader-get :
    (rows : List (Option CsvRow)) (dmr_id : SubscriberId)
    → (get (from_reader rows no_subscribers).by_id dmr_id ≡ last_row dmr_id rows)
      × Capped (last_row dmr_id rows)
unfolding get
from_reader-get rows dmr_id = (
  from_reader-then dmr_id rows no_subscribers ∙ or_none (last_row dmr_id rows),
  last_row-Capped dmr_id rows,
)
  where
    or_none : (a : Option Subscriber) → or_else a none ≡ a
    or_none none = refl
    or_none (some a) = refl
