-- ===== src/BrandmeisterApi/Requests.antt =====
-- brandmeister-api/src/client.rs: which calls send a request, and which requests carry the token.
use asl_dmr_bridge.Base.{
  ℕ, ◌≤◌, ◌≡◌, refl, arith, List, ◌++◌, Bool, true, false, Option, none, some, if◌then◌else◌,
  length, All,
}
use asl_dmr_bridge.Ids.{DmrId, Talkgroup, Slot}
use asl_dmr_bridge.BrandmeisterApi.{
  Request, Method, get, post, delete, AddStaticBody, Result, ok, err, invalid_token,
}
use asl_dmr_bridge.BrandmeisterApi.Calls.{
  Web, Client, send_at, bearer, bearer_of, authorization, send, send_to, get_json, send_no_response,
  post_no_response, device, device_profile, device_talkgroups, add_static_talkgroup,
  remove_static_talkgroup, get_repeater, drop_dynamic_groups, talkgroup, talkgroup_devices,
}

-- The calls of the client.
pub data Operation : Type 0 where
  of_device of_profile of_statics of_repeater : DmrId → Operation
  to_add to_remove : DmrId → Slot → Talkgroup → Operation
  to_drop : DmrId → Slot → Operation
  of_talkgroup of_devices : Talkgroup → Operation

-- What the API protects: changes, and what it asks the master of the device.
abbrev pub is_protected : Operation → Bool
is_protected (of_repeater id) = true
is_protected (to_add id slot tg) = true
is_protected (to_remove id slot tg) = true
is_protected (to_drop id slot) = true
is_protected _ = false

module _ (web : Web) (client : Client) where
  unfoldable pub sent_by : Operation → List Request
  unfolding device device_profile device_talkgroups add_static_talkgroup remove_static_talkgroup
      get_repeater drop_dynamic_groups talkgroup talkgroup_devices
  sent_by (of_device id) = (device web client id).sent
  sent_by (of_profile id) = (device_profile web client id).sent
  sent_by (of_statics id) = (device_talkgroups web client id).sent
  sent_by (of_repeater id) = (get_repeater web client id).sent
  sent_by (to_add id slot tg) = (add_static_talkgroup web client id slot tg).sent
  sent_by (to_remove id slot tg) = (remove_static_talkgroup web client id slot tg).sent
  sent_by (to_drop id slot) = (drop_dynamic_groups web client id slot).sent
  sent_by (of_talkgroup id) = (talkgroup web client id).sent
  sent_by (of_devices id) = (talkgroup_devices web client id).sent

  -- The header that a call may have: the client's token where the endpoint is protected, else none.
  abbrev pub Authorized : Bool → Option (List ℕ) → Type 0
  Authorized true header =
      (token : List ℕ) × ((client.token ≡ some token) × (header ≡ some (bearer ++ token)))
  Authorized false header = header ≡ none

  abbrev Allowed : Bool → Result (Option (List ℕ)) → Type 0
  Allowed auth (err e) = Unit
  Allowed auth (ok header) = Authorized auth header

  authorization-Allowed : (auth : Bool) → Allowed auth (authorization web client auth)
  authorization-Allowed false = refl
  authorization-Allowed true = with_token client.token refl
    where
      with_header :
          (token : List ℕ) (accepted : Bool)
          → client.token ≡ some token
          → Allowed true (if accepted then ok (some (bearer ++ token)) else err invalid_token)
      with_header token true e = (token, (e, refl))
      with_header token false e = tt

      with_token :
          (token : Option (List ℕ))
          → client.token ≡ token
          → Allowed true (bearer_of web client token)
      with_token none e = tt
      with_token (some token) e = with_header token (web.is_header_value (bearer ++ token)) e

  abbrev pub Sends : Bool → List Request → Type 0
  Sends auth sent = (length sent ≤ 1) × All (λ req. Authorized auth req.authorization) sent

  send_to-Sends :
      (method : Method) (url : List ℕ) (body : Option AddStaticBody) (auth : Bool)
      (header : Result (Option (List ℕ)))
      → Allowed auth header
      → Sends auth (send_to web client method url body header).sent
  unfolding send_to
  send_to-Sends method url body auth (err e) h = (omega arith, tt)
  send_to-Sends method url body auth (ok header) h = (omega arith, (h, tt))

  send-Sends :
      (method : Method) (path : List ℕ) (body : Option AddStaticBody) (auth : Bool)
      → Sends auth (send web client method path body auth).sent
  unfolding send send_at
  send-Sends method path body auth = joined (web.join client.base_url path)
    where
      joined :
          (url : Option (List ℕ)) → Sends auth (send_at web client method path body auth url).sent
      joined none = (omega arith, tt)
      joined (some url) =
          send_to-Sends method url body auth (authorization web client auth)
            (authorization-Allowed auth)

  -- Each call sends at most one request; on a protected endpoint it carries the client's token, so none is sent
  -- without one, and no other request shows the token.
  pub sent_by-Sends : (op : Operation) → Sends (is_protected op) (sent_by op)
  unfolding sent_by device device_profile device_talkgroups add_static_talkgroup
      remove_static_talkgroup get_repeater drop_dynamic_groups talkgroup talkgroup_devices get_json
      send_no_response post_no_response
  sent_by-Sends (of_device id) = send-Sends get _ none false
  sent_by-Sends (of_profile id) = send-Sends get _ none false
  sent_by-Sends (of_statics id) = send-Sends get _ none false
  sent_by-Sends (of_repeater id) = send-Sends get _ none true
  sent_by-Sends (to_add id slot tg) =
      send-Sends post _ (some (record { talkgroup = tg; slot = slot })) true
  sent_by-Sends (to_remove id slot tg) = send-Sends delete _ none true
  sent_by-Sends (to_drop id slot) = send-Sends get _ none true
  sent_by-Sends (of_talkgroup id) = send-Sends get _ none false
  sent_by-Sends (of_devices id) = send-Sends get _ none false
