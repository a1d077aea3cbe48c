-- ===== src/BrandmeisterApi/Calls.antt =====
-- brandmeister-api/src/client.rs: the calls of the client. The joining of URLs, the test of header values,
-- the parsing of JSON and the network are parameters.
use asl_dmr_bridge.Base.{
  ℕ, zero, suc, ◌+◌, ◌/◌, ◌%◌, List, [], ◌∷◌, ◌++◌, Bool, true, false, Option, none, some, ltb,
  if◌then◌else◌,
}
use asl_dmr_bridge.Ids.{DmrId, Talkgroup, Slot, slot_as_u8}
use asl_dmr_bridge.Bridge.Provision.{StaticTalkgroup}
use asl_dmr_bridge.BrandmeisterApi.{
  Method, AddStaticBody, Request, Response, Result, max_response_bytes, read_capped, http_error,
  is_success, get, post, delete, transport, malformed, unauthenticated, invalid_token, ok, err,
}

-- A `u32` in decimal, of at most `width` digits.
unfoldable pub decimal : ℕ → ℕ → List ℕ
decimal zero n = []
decimal (suc width) n =
    let front = decimal width (n / 10) in
    if ltb n 10 then (48 + n) ∷ [] else front ++ ((48 + n % 10) ∷ [])

abbrev pub shown : ℕ → List ℕ
unfolding decimal
shown n = decimal 10 n

-- The pieces of paths and of the bearer token.
abbrev pub device_path : List ℕ
device_path = 100 ∷ 101 ∷ 118 ∷ 105 ∷ 99 ∷ 101 ∷ 47 ∷ []

abbrev pub profile_path : List ℕ
profile_path = 47 ∷ 112 ∷ 114 ∷ 111 ∷ 102 ∷ 105 ∷ 108 ∷ 101 ∷ []

abbrev pub talkgroup_path : List ℕ
talkgroup_path = 47 ∷ 116 ∷ 97 ∷ 108 ∷ 107 ∷ 103 ∷ 114 ∷ 111 ∷ 117 ∷ 112 ∷ []

abbrev pub get_repeater_path : List ℕ
get_repeater_path =
    47 ∷ 97 ∷ 99 ∷ 116 ∷ 105 ∷ 111 ∷ 110 ∷ 47 ∷ 103 ∷ 101 ∷ 116 ∷ 82 ∷ 101 ∷ 112 ∷ 101 ∷ 97 ∷ 116
    ∷ 101 ∷ 114 ∷ []

abbrev pub drop_dynamic_path : List ℕ
drop_dynamic_path =
    47 ∷ 97 ∷ 99 ∷ 116 ∷ 105 ∷ 111 ∷ 110 ∷ 47 ∷ 100 ∷ 114 ∷ 111 ∷ 112 ∷ 68 ∷ 121 ∷ 110 ∷ 97 ∷ 109
    ∷ 105 ∷ 99 ∷ 71 ∷ 114 ∷ 111 ∷ 117 ∷ 112 ∷ 115 ∷ 47 ∷ []

abbrev pub talkgroup_root : List ℕ
talkgroup_root = 116 ∷ 97 ∷ 108 ∷ 107 ∷ 103 ∷ 114 ∷ 111 ∷ 117 ∷ 112 ∷ 47 ∷ []

abbrev pub devices_path : List ℕ
devices_path = 47 ∷ 100 ∷ 101 ∷ 118 ∷ 105 ∷ 99 ∷ 101 ∷ 115 ∷ []

abbrev pub slash : List ℕ
slash = 47 ∷ []

abbrev pub bearer : List ℕ
bearer = 66 ∷ 101 ∷ 97 ∷ 114 ∷ 101 ∷ 114 ∷ 32 ∷ []

abbrev pub url_join : List ℕ
url_join = 117 ∷ 114 ∷ 108 ∷ 32 ∷ 106 ∷ 111 ∷ 105 ∷ 110 ∷ 32 ∷ []

-- What the client uses of other crates: `Url::join`, `HeaderValue::from_str` and the answers to requests, and
-- the types of the answers with their parsers.
pub record Web : Type 1 where
  pub join : List ℕ → List ℕ → Option (List ℕ)
  pub is_header_value : List ℕ → Bool
  pub network : Request → Option Response
  pub Device : Type 0
  pub DeviceProfile : Type 0
  pub TalkgroupInfo : Type 0
  pub Value : Type 0
  pub device_from : List ℕ → Option Device
  pub profile_from : List ℕ → Option DeviceProfile
  pub statics_from : List ℕ → Option (List StaticTalkgroup)
  pub value_from : List ℕ → Option Value
  pub talkgroup_from : List ℕ → Option TalkgroupInfo
  pub devices_from : List ℕ → Option (List Device)

pub record Client : Type 0 where
  pub base_url : List ℕ
  pub token : Option (List ℕ)

-- The requests that a call sends, and its result.
pub record Call {ℓ} (A : Type ℓ) : Type ℓ where
  pub sent : List Request
  pub result : Result A

module _ (web : Web) (client : Client) where
  -- The header of a request, with the token where the endpoint is protected.
  abbrev pub bearer_of : Option (List ℕ) → Result (Option (List ℕ))
  bearer_of none = err unauthenticated
  bearer_of (some token) =
      if web.is_header_value (bearer ++ token)
      then ok (some (bearer ++ token))
      else err invalid_token

  abbrev pub authorization : Bool → Result (Option (List ℕ))
  authorization auth = if auth then bearer_of client.token else ok none

  unfoldable pub answered : Option Response → Result Response
  unfolding http_error
  answered none = err transport
  answered (some resp) = if is_success resp.status then ok resp else err (http_error resp)

  unfoldable pub send_to :
      Method → List ℕ → Option AddStaticBody → Result (Option (List ℕ)) → Call Response
  unfolding answered
  send_to method url body (err e) = record { sent = []; result = err e }
  send_to method url body (ok header) =
      let req : Request = record {
        method = method;
        url = url;
        authorization = header;
        json = body;
      } in
      record { sent = req ∷ []; result = answered (web.network req) }

  -- With the joined URL, if the path can be joined.
  unfoldable pub send_at :
      Method → List ℕ → Option AddStaticBody → Bool → Option (List ℕ) → Call Response
  unfolding send_to
  send_at method path body auth none = record {
    sent = [];
    result = err (malformed (url_join ++ path));
  }
  send_at method path body auth (some url) = send_to method url body (authorization auth)

  unfoldable pub send : Method → List ℕ → Option AddStaticBody → Bool → Call Response
  unfolding send_at
  send method path body auth = send_at method path body auth (web.join client.base_url path)

  unfoldable pub decode {ℓ} :
      {T : Type ℓ} → (List ℕ → Option T) → List ℕ → Result Response → Result T
  unfolding read_capped
  decode from path (err e) = err e
  decode from path (ok resp) = elim (read_capped path resp max_response_bytes) [
    | err e ↦ err e
    | ok body ↦ elim (from body) [ none ↦ err (malformed path) | some value ↦ ok value ]
  ]

  unfoldable pub get_json {ℓ} : {T : Type ℓ} → (List ℕ → Option T) → List ℕ → Bool → Call T
  unfolding send decode
  get_json from path auth =
      let c = send get path none auth in
      record { sent = c.sent; result = decode from path c.result }

  abbrev pub done : Result Response → Result (Unit {0})
  done (err e) = err e
  done (ok resp) = ok tt

  unfoldable pub post_no_response : List ℕ → AddStaticBody → Bool → Call (Unit {0})
  unfolding send
  post_no_response path body auth =
      let c = send post path (some body) auth in record { sent = c.sent; result = done c.result }

  unfoldable pub send_no_response : Method → List ℕ → Bool → Call (Unit {0})
  unfolding send
  send_no_response method path auth =
      let c = send method path none auth in record { sent = c.sent; result = done c.result }

  unfoldable pub device : DmrId → Call web.Device
  unfolding get_json shown
  device id = get_json web.device_from (device_path ++ shown id.as_u32) false

  unfoldable pub device_profile : DmrId → Call web.DeviceProfile
  unfolding get_json shown
  device_profile id =
      get_json web.profile_from (device_path ++ shown id.as_u32 ++ profile_path) false

  unfoldable pub device_talkgroups : DmrId → Call (List StaticTalkgroup)
  unfolding get_json shown
  device_talkgroups id =
      get_json web.statics_from (device_path ++ shown id.as_u32 ++ talkgroup_path) false

  unfoldable pub add_static_talkgroup : DmrId → Slot → Talkgroup → Call (Unit {0})
  unfolding post_no_response shown
  add_static_talkgroup id slot talkgroup =
      post_no_response (device_path ++ shown id.as_u32 ++ talkgroup_path)
        (record { talkgroup = talkgroup; slot = slot }) true

  unfoldable pub remove_static_talkgroup : DmrId → Slot → Talkgroup → Call (Unit {0})
  unfolding send_no_response shown slot_as_u8
  remove_static_talkgroup id slot talkgroup =
      send_no_response delete
        (device_path
          ++ shown id.as_u32
          ++ talkgroup_path
          ++ slash
          ++ shown (slot_as_u8 slot)
          ++ slash
          ++ shown talkgroup.as_u32)
        true

  unfoldable pub get_repeater : DmrId → Call web.Value
  unfolding get_json shown
  get_repeater id =
      get_json web.value_from (device_path ++ shown id.as_u32 ++ get_repeater_path) true

  unfoldable pub drop_dynamic_groups : DmrId → Slot → Call (Unit {0})
  unfolding send_no_response shown slot_as_u8
  drop_dynamic_groups id slot =
      send_no_response get
        (device_path ++ shown id.as_u32 ++ drop_dynamic_path ++ shown (slot_as_u8 slot)) true

  unfoldable pub talkgroup : Talkgroup → Call web.TalkgroupInfo
  unfolding get_json shown
  talkgroup id = get_json web.talkgroup_from (talkgroup_root ++ shown id.as_u32) false

  unfoldable pub talkgroup_devices : Talkgroup → Call (List web.Device)
  unfolding get_json shown
  talkgroup_devices id =
      get_json web.devices_from (talkgroup_root ++ shown id.as_u32 ++ devices_path) false
