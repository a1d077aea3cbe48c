-- ===== src/Bridge/Provision/InForce.antt =====
-- bridge/src/brandmeister_provision.rs: which talkgroups are subscribed once the device is reconciled.
use asl_dmr_bridge.Base.{
  ◌≡◌, refl, arith, List, Bool, true, false, ◌&&◌, not, Option, none, some, if◌then◌else◌, ap, ap₂,
  sym, ◌∙◌,
}
use asl_dmr_bridge.Ids.{Slot, Talkgroup}
use asl_dmr_bridge.Voice.{slot_eq}
use asl_dmr_bridge.Bridge.Provision.Swaps.{Documented, Reachable, not_itself}
use asl_dmr_bridge.Bridge.Provision.Requests.{to_remove_contains, swap-kept, swap-reached}
use asl_dmr_bridge.Bridge.Provision.{
  StaticTalkgroup, Client, ResolvedBrandmeisterApiConfig, contains, filter, of_slot, reconcile_slot,
  reconcile_declared, reconcile_listed, reconcile_statics, run_once, has_key,
}

-- What the configuration asks of a talkgroup, where it is subscribed so far or not.
abbrev pub wanted : Option (List Talkgroup) → Talkgroup → Bool → Bool
wanted none tg so_far = so_far
wanted (some desired) tg so_far = contains desired tg

abbrev pub declared : ResolvedBrandmeisterApiConfig → Slot → Option (List Talkgroup)
declared config Slot.one = config.static_talkgroups_ts1
declared config Slot.two = config.static_talkgroups_ts2

module _ (client : Client) where
  module _ (d : Documented client) where
    -- A slot of which the list is up to date.
    module _ (slot : Slot) (desired : List Talkgroup) (all : List StaticTalkgroup)
        (s : client.State) (tg : Talkgroup) where
      reconcile_slot-other :
          (slot' : Slot)
          → slot_eq slot slot' ≡ false
          → d.subscribed (reconcile_slot client slot desired all s) slot' tg
            ≡ d.subscribed s slot' tg
      unfolding reconcile_slot
      reconcile_slot-other slot' other =
          let removes = filter (λ t. not (contains desired t)) (of_slot slot all) in
          let adds = filter (λ t. not (contains (of_slot slot all) t)) desired in
          swap-kept client d slot removes adds s slot' tg (ap (λ b. b && contains removes tg) other)
            (ap (λ b. b && contains adds tg) other)

      reconcile_slot-reached :
          contains (of_slot slot all) tg ≡ d.subscribed s slot tg
          → Reachable client
          → slot_eq slot slot ≡ true
          → d.subscribed (reconcile_slot client slot desired all s) slot tg ≡ contains desired tg
      unfolding reconcile_slot
      reconcile_slot-reached listed r same =
          swap-reached client d slot _ _ s slot tg r same (contains desired tg)
            (to_remove_contains client d desired (of_slot slot all) tg
              ∙ ap (λ b. b && not (contains desired tg)) listed)
            (to_remove_contains client d (of_slot slot all) desired tg
              ∙ ap (λ b. contains desired tg && not b) listed)

      reconcile_slot-kept :
          contains (of_slot slot all) tg ≡ d.subscribed s slot tg
          → contains desired tg ≡ d.subscribed s slot tg
          → slot_eq slot slot ≡ true
          → d.subscribed (reconcile_slot client slot desired all s) slot tg ≡ d.subscribed s slot tg
      unfolding reconcile_slot
      reconcile_slot-kept listed wanted same =
          swap-kept client d slot _ _ s slot tg
            (ap₂ (λ a b. a && b) same
              (to_remove_contains client d desired (of_slot slot all) tg
                ∙ ap₂ (λ c w. c && not w) listed wanted
                ∙ not_itself (d.subscribed s slot tg)))
            (ap₂ (λ a b. a && b) same
              (to_remove_contains client d (of_slot slot all) desired tg
                ∙ ap₂ (λ w c. w && not c) wanted listed
                ∙ not_itself (d.subscribed s slot tg)))

    -- The slots one after the other, for a talkgroup of either.
    module _ (config : ResolvedBrandmeisterApiConfig) (all : List StaticTalkgroup)
        (s : client.State) (tg : Talkgroup) where
      abbrev one_done : client.State
      one_done = reconcile_declared client Slot.one config.static_talkgroups_ts1 all s

      abbrev both_done : client.State
      both_done = reconcile_declared client Slot.two config.static_talkgroups_ts2 all one_done

      two_waits :
          (ts1 : Option (List Talkgroup))
          → d.subscribed (reconcile_declared client Slot.one ts1 all s) Slot.two tg
            ≡ d.subscribed s Slot.two tg
      unfolding slot_eq
      two_waits none = refl
      two_waits (some desired) = reconcile_slot-other Slot.one desired all s tg Slot.two refl

      one_stays :
          (ts2 : Option (List Talkgroup)) (s' : client.State)
          → d.subscribed (reconcile_declared client Slot.two ts2 all s') Slot.one tg
            ≡ d.subscribed s' Slot.one tg
      unfolding slot_eq
      one_stays none s' = refl
      one_stays (some desired) s' = reconcile_slot-other Slot.two desired all s' tg Slot.one refl

      declared-reached :
          Reachable client
          → (slot : Slot) → slot_eq slot slot ≡ true
          → (ts : Option (List Talkgroup)) (s' : client.State)
          → contains (of_slot slot all) tg ≡ d.subscribed s' slot tg
          → d.subscribed (reconcile_declared client slot ts all s') slot tg
            ≡ wanted ts tg (d.subscribed s' slot tg)
      declared-reached r slot same none s' listed = refl
      declared-reached r slot same (some desired) s' listed =
          reconcile_slot-reached slot desired all s' tg listed r same

      declared-kept :
          (slot : Slot)
          → slot_eq slot slot ≡ true
          → (ts : Option (List Talkgroup)) (s' : client.State)
          → contains (of_slot slot all) tg ≡ d.subscribed s' slot tg
          → wanted ts tg (d.subscribed s' slot tg) ≡ d.subscribed s' slot tg
          → d.subscribed (reconcile_declared client slot ts all s') slot tg
            ≡ d.subscribed s' slot tg
      declared-kept slot same none s' listed agrees = refl
      declared-kept slot same (some desired) s' listed agrees =
          reconcile_slot-kept slot desired all s' tg listed agrees same

      both-reached :
          Reachable client
          → ((slot : Slot) → contains (of_slot slot all) tg ≡ d.subscribed s slot tg)
          → (slot : Slot)
          → d.subscribed both_done slot tg
            ≡ wanted (declared config slot) tg (d.subscribed s slot tg)
      unfolding slot_eq
      both-reached r listed Slot.one =
          one_stays config.static_talkgroups_ts2 one_done
          ∙ declared-reached r Slot.one refl config.static_talkgroups_ts1 s (listed Slot.one)
      both-reached r listed Slot.two =
          let waits = two_waits config.static_talkgroups_ts1 in
          declared-reached r Slot.two refl config.static_talkgroups_ts2 one_done
            (listed Slot.two ∙ sym waits)
          ∙ ap (wanted config.static_talkgroups_ts2 tg) waits

      both-kept :
          ((slot : Slot) → contains (of_slot slot all) tg ≡ d.subscribed s slot tg)
          → (slot : Slot)
          → wanted (declared config slot) tg (d.subscribed s slot tg) ≡ d.subscribed s slot tg
          → d.subscribed both_done slot tg ≡ d.subscribed s slot tg
      unfolding slot_eq
      both-kept listed Slot.one agrees =
          one_stays config.static_talkgroups_ts2 one_done
          ∙ declared-kept Slot.one refl config.static_talkgroups_ts1 s (listed Slot.one) agrees
      both-kept listed Slot.two agrees =
          let waits = two_waits config.static_talkgroups_ts1 in
          declared-kept Slot.two refl config.static_talkgroups_ts2 one_done
            (listed Slot.two ∙ sym waits)
            (ap (wanted config.static_talkgroups_ts2 tg) waits ∙ agrees ∙ sym waits)
          ∙ waits

    listed_then :
        (config : ResolvedBrandmeisterApiConfig) (s : client.State) (slot : Slot) (tg : Talkgroup)
        (b : Bool)
        → ((all : List StaticTalkgroup)
            → (client.device_talkgroups s).0 ≡ some all
            → d.subscribed (both_done config all (client.device_talkgroups s).1 tg) slot tg ≡ b)
        → ((client.device_talkgroups s).0 ≡ none
            → d.subscribed (client.device_talkgroups s).1 slot tg ≡ b)
        → d.subscribed (reconcile_statics client config s) slot tg ≡ b
    unfolding reconcile_statics
    listed_then config s slot tg b on_list on_failure =
        by_list (client.device_talkgroups s) on_list on_failure
      where
        by_list :
            (r : Option (List StaticTalkgroup) × client.State)
            → ((all : List StaticTalkgroup)
                → r.0 ≡ some all
                → d.subscribed (both_done config all r.1 tg) slot tg ≡ b)
            → (r.0 ≡ none → d.subscribed r.1 slot tg ≡ b)
            → d.subscribed (reconcile_listed client config r) slot tg ≡ b
        by_list (none, s') l f = f refl
        by_list (some all, s') l f = l all refl

    module _ (config : ResolvedBrandmeisterApiConfig) (s : client.State) (slot : Slot)
        (tg : Talkgroup) where
      abbrev after_list : client.State
      after_list = (client.device_talkgroups s).1

      still_listed :
          (all : List StaticTalkgroup)
          → (client.device_talkgroups s).0 ≡ some all
          → (slot : Slot) → contains (of_slot slot all) tg ≡ d.subscribed after_list slot tg
      still_listed all e slot = d.lists s all e slot tg ∙ sym (d.list_keeps s slot tg)

      -- Where there is a key and every request succeeds, a run leaves a slot that the configuration
      -- declares subscribed to the declared talkgroups and no other, and another slot as it was.
      pub run_once-reached :
          has_key config.api_key ≡ true
          → Reachable client
          → d.subscribed (run_once client (some config) s) slot tg
            ≡ wanted (declared config slot) tg (d.subscribed s slot tg)
      unfolding run_once
      run_once-reached key r =
          ap (λ k. d.subscribed (if k then reconcile_statics client config s else s) slot tg) key
          ∙ listed_then config s slot tg _
              (λ all e.
                both-reached config all after_list tg r (still_listed all e) slot
                ∙ ap (wanted (declared config slot) tg) (d.list_keeps s slot tg))
              (λ e. absurd (listing (r.listing s) e))
        where
          listing :
              ((all : List StaticTalkgroup) × ((client.device_talkgroups s).0 ≡ some all))
              → (client.device_talkgroups s).0 ≡ none
              → ⊥
          listing (all, e) n = ground (arith, e, n)

      -- Whichever requests fail, a talkgroup that is subscribed in a slot just where the configuration
      -- asks for it stays as it is.
      pub run_once-keeps :
          wanted (declared config slot) tg (d.subscribed s slot tg) ≡ d.subscribed s slot tg
          → d.subscribed (run_once client (some config) s) slot tg ≡ d.subscribed s slot tg
      unfolding run_once
      run_once-keeps agrees = by_key (has_key config.api_key)
        where
          keeps : d.subscribed after_list slot tg ≡ d.subscribed s slot tg
          keeps = d.list_keeps s slot tg

          reconciled :
              d.subscribed (reconcile_statics client config s) slot tg ≡ d.subscribed s slot tg
          reconciled =
              listed_then config s slot tg _
                (λ all e.
                  both-kept config all after_list tg (still_listed all e) slot
                    (ap (wanted (declared config slot) tg) keeps ∙ agrees ∙ sym keeps)
                  ∙ keeps)
                (λ e. keeps)

          by_key :
              (key : Bool)
              → d.subscribed (if key then reconcile_statics client config s else s) slot tg
                ≡ d.subscribed s slot tg
          by_key true = reconciled
          by_key false = refl
