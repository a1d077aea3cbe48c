-- ===== src/Bridge/Provision.antt =====
-- bridge/src/brandmeister_provision.rs: the static talkgroups of the device at the network's API. The API
-- is a parameter, as the answers to requests for this device; what is only logged is left out.
pub mod InForce
pub mod Swaps
pub mod Requests
use asl_dmr_bridge.Base.{
  ℕ, List, [], ◌∷◌, Bool, true, false, ◌&&◌, not, Option, none, some, ◌==◌, if◌then◌else◌,
}
use asl_dmr_bridge.Ids.{Slot, Talkgroup, DmrId}
use asl_dmr_bridge.Voice.{slot_eq}

pub record StaticTalkgroup : Type 0 where
  pub talkgroup : Talkgroup
  pub repeaterid : Option DmrId
  pub slot : Slot

-- The requests; `none` and `false` are failures.
pub record Client : Type 1 where
  pub State : Type 0
  pub device_talkgroups : State → Option (List StaticTalkgroup) × State
  pub add_static_talkgroup : Slot → Talkgroup → State → Bool × State
  pub remove_static_talkgroup : Slot → Talkgroup → State → Bool × State

abbrev pub has_key : Option (List ℕ) → Bool
has_key none = false
has_key (some key) = true

pub record ResolvedBrandmeisterApiConfig : Type 0 where
  pub api_key : Option (List ℕ)
  pub static_talkgroups_ts1 : Option (List Talkgroup)
  pub static_talkgroups_ts2 : Option (List Talkgroup)
  pub reconcile_interval : ℕ

unfoldable pub contains : List Talkgroup → Talkgroup → Bool
contains [] tg = false
contains (t ∷ tgs) tg = if t.as_u32 == tg.as_u32 then true else contains tgs tg

unfoldable pub filter : (Talkgroup → Bool) → List Talkgroup → List Talkgroup
filter keep [] = []
filter keep (t ∷ tgs) = let rest = filter keep tgs in if keep t then t ∷ rest else rest

-- The talkgroups of a slot.
unfoldable pub of_slot : Slot → List StaticTalkgroup → List Talkgroup
unfolding slot_eq
of_slot slot [] = []
of_slot slot (s ∷ all) =
    let rest = of_slot slot all in if slot_eq s.slot slot then s.talkgroup ∷ rest else rest

module _ (client : Client) where
  -- One request after the other, each for a talkgroup; a failure is logged.
  unfoldable pub each :
      (Slot → Talkgroup → client.State → Bool × client.State)
      → Slot
      → List Talkgroup
      → client.State
      → client.State
  each request slot [] s = s
  each request slot (tg ∷ tgs) s = each request slot tgs (request slot tg s).1

  unfoldable pub reconcile_slot :
      Slot → List Talkgroup → List StaticTalkgroup → client.State → client.State
  unfolding contains filter of_slot each
  reconcile_slot slot desired current_all_slots s =
      let current = of_slot slot current_all_slots in
      let to_add = filter (λ tg. not (contains current tg)) desired in
      let to_remove = filter (λ tg. not (contains desired tg)) current in
      each client.add_static_talkgroup slot to_add
        (each client.remove_static_talkgroup slot to_remove s)

  abbrev pub reconcile_declared :
      Slot → Option (List Talkgroup) → List StaticTalkgroup → client.State → client.State
  reconcile_declared slot none current s = s
  reconcile_declared slot (some desired) current s = reconcile_slot slot desired current s

  abbrev pub reconcile_listed :
      ResolvedBrandmeisterApiConfig → Option (List StaticTalkgroup) × client.State → client.State
  reconcile_listed config (none, s) = s
  reconcile_listed config (some current, s) =
      reconcile_declared Slot.two config.static_talkgroups_ts2 current
        (reconcile_declared Slot.one config.static_talkgroups_ts1 current s)

  unfoldable pub reconcile_statics : ResolvedBrandmeisterApiConfig → client.State → client.State
  unfolding reconcile_slot
  reconcile_statics config s = reconcile_listed config (client.device_talkgroups s)

  -- Without a key nothing is written.
  unfoldable pub run_once : Option ResolvedBrandmeisterApiConfig → client.State → client.State
  unfolding reconcile_statics
  run_once none s = s
  run_once (some config) s = if has_key config.api_key then reconcile_statics config s else s
