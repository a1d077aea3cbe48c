-- ===== src/BrandmeisterApi.antt =====
-- brandmeister-api/src/client.rs and error.rs: requests, responses and errors of the network's API, the cap on
-- bodies and what errors show of them. Text is a list of bytes.
pub mod Bodies
pub mod Calls
pub mod Requests
use asl_dmr_bridge.Base.{
  ℕ, zero, suc, ◌+◌, ◌-◌, ◌/◌, ◌%◌, List, [], ◌∷◌, ◌++◌, Bool, true, false, ◌&&◌, Option, none,
  some, ltb, leb, if◌then◌else◌, length, take,
}
use asl_dmr_bridge.Ids.{DmrId, Talkgroup, Slot, slot_as_u8}
use asl_dmr_bridge.Bridge.Provision.{StaticTalkgroup}

pub data Method : Type 0 where
  get post delete : Method

pub record AddStaticBody : Type 0 where
  pub talkgroup : Talkgroup
  pub slot : Slot

-- `reqwest::Request` as far as the client fills it.
pub record Request : Type 0 where
  pub method : Method
  pub url : List ℕ
  pub authorization : Option (List ℕ)
  pub json : Option AddStaticBody

-- A response; `none` among the chunks and for the text is a failure of the transport.
pub record Response : Type 0 where
  pub status : ℕ
  pub content_length : Option ℕ
  pub chunks : List (Option (List ℕ))
  pub text : Option (List ℕ)

-- `Decode` without the message of the parser.
pub data ApiError : Type 0 where
  transport : ApiError
  http : ℕ → List ℕ → ApiError
  malformed : List ℕ → ApiError
  unauthenticated : ApiError
  invalid_token : ApiError
  body_too_large : List ℕ → ℕ → ApiError

pub data Result {ℓ} (A : Type ℓ) : Type ℓ where
  ok : A → Result A
  err : ApiError → Result A

abbrev pub http_body_cap_bytes : ℕ
http_body_cap_bytes = 256

abbrev pub max_response_bytes : ℕ
max_response_bytes = 16_777_216

abbrev pub is_printable : ℕ → Bool
is_printable b = leb 0x20 b && leb b 0x7e

-- An upper-case hexadecimal digit.
abbrev pub hex : ℕ → ℕ
hex d = if ltb d 10 then 48 + d else 55 + d

-- A printable byte as it is, any other as `\xHH`.
abbrev pub escaped : ℕ → List ℕ
escaped b = if is_printable b then b ∷ [] else 92 ∷ 120 ∷ hex (b / 16) ∷ hex (b % 16) ∷ []

abbrev pub needs : ℕ → ℕ
needs b = if is_printable b then 1 else 4

-- The loop of `truncate_body` with what is written so far.
unfoldable pub truncate_from : ℕ → List ℕ → List ℕ → List ℕ
truncate_from max out [] = out
truncate_from max out (b ∷ bytes) =
    let rest = truncate_from max (out ++ escaped b) bytes in
    if ltb max (length out + needs b)
    then if leb 3 max then take (max - 3) out ++ (46 ∷ 46 ∷ 46 ∷ []) else out
    else rest

unfoldable pub truncate_body : List ℕ → ℕ → List ℕ
unfolding truncate_from
truncate_body s max = truncate_from max [] s

-- The loop of `read_capped` with the buffer so far.
unfoldable pub read_chunks : List ℕ → ℕ → List ℕ → List (Option (List ℕ)) → Result (List ℕ)
read_chunks context max buf [] = ok buf
read_chunks context max buf (none ∷ chunks) = err transport
read_chunks context max buf (some chunk ∷ chunks) =
    let rest = read_chunks context max (buf ++ chunk) chunks in
    if ltb max (length buf + length chunk) then err (body_too_large context max) else rest

-- Whether the announced length, if there is one, is over the cap.
abbrev pub announces_more : Option ℕ → ℕ → Bool
announces_more none max = false
announces_more (some len) max = ltb max len

unfoldable pub read_capped : List ℕ → Response → ℕ → Result (List ℕ)
unfolding read_chunks
read_capped context resp max =
    if announces_more resp.content_length max
    then err (body_too_large context max)
    else read_chunks context max [] resp.chunks

abbrev pub text_or_default : Option (List ℕ) → List ℕ
text_or_default none = []
text_or_default (some text) = text

unfoldable pub http_error : Response → ApiError
unfolding truncate_body
http_error resp = http resp.status (truncate_body (text_or_default resp.text) http_body_cap_bytes)

abbrev pub is_success : ℕ → Bool
is_success status = leb 200 status && ltb status 300
