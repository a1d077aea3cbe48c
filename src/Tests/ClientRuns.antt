-- ===== src/Tests/ClientRuns.antt =====
-- The theorems on the client of the network's API at concrete inputs.
use asl_dmr_bridge.Base.{
  ◌≡◌, ◌≤◌, ◌↔◌, arith, ℕ, List, [], ◌∷◌, ◌++◌, true, false, none, some, length, All,
}
use asl_dmr_bridge.Ids.{Slot}
use asl_dmr_bridge.BrandmeisterApi.{Response, ok, truncate_body, read_capped, announces_more}
use asl_dmr_bridge.BrandmeisterApi.Calls.{Web, Client}
use asl_dmr_bridge.BrandmeisterApi.Bodies.{
  IsPrintable, escaped_all, arrived, truncate_body-Bounded, read_capped_lem,
}
use asl_dmr_bridge.BrandmeisterApi.Requests.{Sends, sent_by, sent_by-Sends, to_add}

-- An escape sequence for a terminal, and a newline.
abbrev hostile : List ℕ
hostile = 27 ∷ 91 ∷ 50 ∷ 74 ∷ 10 ∷ 79 ∷ 75 ∷ []

truncate_body-Bounded_example :
    All IsPrintable (truncate_body hostile 12)
    × ((length (truncate_body hostile 12) ≤ 12)
        × (length (escaped_all hostile) ≤ 12 → truncate_body hostile 12 ≡ escaped_all hostile))
truncate_body-Bounded_example = truncate_body-Bounded hostile 12 (
  omega arith,
  (omega arith, (omega arith, (omega arith, (omega arith, (omega arith, (omega arith, tt)))))),
)

abbrev two_chunks : Response
two_chunks = record {
  status = 200;
  content_length = none;
  chunks = some (1 ∷ 2 ∷ []) ∷ some (3 ∷ []) ∷ [];
  text = none;
}

read_capped_example : (read_capped [] two_chunks 3 ≡ ok (1 ∷ 2 ∷ 3 ∷ [])) ↔ (
    (announces_more two_chunks.content_length 3 ≡ false)
    × ((arrived two_chunks.chunks ≡ some (1 ∷ 2 ∷ 3 ∷ [])) × (3 ≤ 3)))
read_capped_example = read_capped_lem [] 3 two_chunks (1 ∷ 2 ∷ 3 ∷ [])

abbrev web : Web
web = record {
  join = λ base path. some (base ++ path);
  is_header_value = λ text. true;
  network = λ request. some two_chunks;
  Device = Unit;
  DeviceProfile = Unit;
  TalkgroupInfo = Unit;
  Value = Unit;
  device_from = λ body. some tt;
  profile_from = λ body. some tt;
  statics_from = λ body. none;
  value_from = λ body. some tt;
  talkgroup_from = λ body. some tt;
  devices_from = λ body. some (tt ∷ []);
}

abbrev keyed_client : Client
keyed_client = record { base_url = 104 ∷ 47 ∷ []; token = some (107 ∷ []) }

sent_by-Sends_example : Sends web keyed_client true (
    sent_by web keyed_client
      (to_add (record { as_u32 = 312_000 }) Slot.two (record { as_u32 = 91 })))
sent_by-Sends_example =
    sent_by-Sends web keyed_client
      (to_add (record { as_u32 = 312_000 }) Slot.two (record { as_u32 = 91 }))
