-- ===== src/Bridge/Provision/Requests.antt =====
-- bridge/src/brandmeister_provision.rs: what the requests of a reconciliation come to.
use asl_dmr_bridge.Base.{
  ◌≡◌, refl, List, [], ◌∷◌, Bool, true, false, ◌&&◌, ◌||◌, not, ◌==◌, if◌then◌else◌, ==_iff, ap,
  ap₂, sym, ◌∙◌,
}
use asl_dmr_bridge.Ids.{Slot, Talkgroup}
use asl_dmr_bridge.Voice.{slot_eq}
use asl_dmr_bridge.Bridge.Provision.{Client, contains, filter, each}
use asl_dmr_bridge.Bridge.Provision.Swaps.{
  kept_or_not, hit_named, hit_all, and_not_twice, or_twice, and_true, or_false, swapped, left_alone,
  Documented, Reachable,
}

contains-filter :
    (keep : Talkgroup → Bool) (tgs : List Talkgroup) (tg : Talkgroup)
    → ((t : Talkgroup) → (t.as_u32 == tg.as_u32) ≡ true → keep t ≡ keep tg)
    → contains (filter keep tgs) tg ≡ contains tgs tg && keep tg
unfolding contains filter
contains-filter keep [] tg same = refl
contains-filter keep (t ∷ tgs) tg same =
    first (keep t)
    ∙ kept_or_not (t.as_u32 == tg.as_u32) (keep t) (keep tg) (contains (filter keep tgs) tg)
        (contains tgs tg) (same t) (contains-filter keep tgs tg same)
  where
    first :
        (kept : Bool)
        → contains (if kept then t ∷ filter keep tgs else filter keep tgs) tg ≡ (
            if kept
            then (if t.as_u32 == tg.as_u32 then true else contains (filter keep tgs) tg)
            else contains (filter keep tgs) tg)
    first true = refl
    first false = refl

contains-same :
    (tgs : List Talkgroup) (a b : Talkgroup)
    → (a.as_u32 == b.as_u32) ≡ true
    → contains tgs a ≡ contains tgs b
unfolding contains
contains-same [] a b e = refl
contains-same (t ∷ tgs) a b e =
    ap₂ (λ n rest. if t.as_u32 == n then true else rest) ((==_iff a.as_u32 b.as_u32).0 e)
      (contains-same tgs a b e)

module _ (client : Client) where
  -- Whether a request that names a talkgroup of a slot succeeds.
  unfoldable hits :
      (Slot → Talkgroup → client.State → Bool × client.State)
      → Slot
      → List Talkgroup
      → client.State
      → Slot
      → Talkgroup
      → Bool
  hits request slot [] s slot' tg = false
  hits request slot (t ∷ tgs) s slot' tg =
      ((request slot t s).0 && (slot_eq slot slot' && (t.as_u32 == tg.as_u32)))
      || hits request slot tgs (request slot t s).1 slot' tg

  hits-named :
      (request : Slot → Talkgroup → client.State → Bool × client.State) (slot : Slot)
      (tgs : List Talkgroup) (s : client.State) (slot' : Slot) (tg : Talkgroup)
      → hits request slot tgs s slot' tg
        ≡ hits request slot tgs s slot' tg && (slot_eq slot slot' && contains tgs tg)
  unfolding hits contains
  hits-named request slot [] s slot' tg = refl
  hits-named request slot (t ∷ tgs) s slot' tg =
      hit_named (request slot t s).0 (slot_eq slot slot') (t.as_u32 == tg.as_u32) _
        (contains tgs tg) (hits-named request slot tgs (request slot t s).1 slot' tg)

  hits-all :
      (request : Slot → Talkgroup → client.State → Bool × client.State) (slot : Slot)
      (tgs : List Talkgroup) (s : client.State) (slot' : Slot) (tg : Talkgroup)
      → ((slot : Slot) (tg : Talkgroup) (s : client.State) → (request slot tg s).0 ≡ true)
      → hits request slot tgs s slot' tg ≡ slot_eq slot slot' && contains tgs tg
  unfolding hits contains
  hits-all request slot [] s slot' tg works = none_named (slot_eq slot slot')
    where
      none_named : (b : Bool) → false ≡ b && false
      none_named true = refl
      none_named false = refl
  hits-all request slot (t ∷ tgs) s slot' tg works =
      ap
        (λ b.
          (b && (slot_eq slot slot' && (t.as_u32 == tg.as_u32)))
          || hits request slot tgs (request slot t s).1 slot' tg)
        (works slot t s)
      ∙ hit_all (slot_eq slot slot') (t.as_u32 == tg.as_u32) _ (contains tgs tg)
          (hits-all request slot tgs (request slot t s).1 slot' tg works)

  module _ (d : Documented client) where
    each_remove-subscribed :
        (slot : Slot) (tgs : List Talkgroup) (s : client.State) (slot' : Slot) (tg : Talkgroup)
        → d.subscribed (each client client.remove_static_talkgroup slot tgs s) slot' tg
          ≡ d.subscribed s slot' tg && not (hits client.remove_static_talkgroup slot tgs s slot' tg)
    unfolding each hits
    each_remove-subscribed slot [] s slot' tg = sym (and_true _)
    each_remove-subscribed slot (t ∷ tgs) s slot' tg =
        each_remove-subscribed slot tgs (client.remove_static_talkgroup slot t s).1 slot' tg
        ∙ ap
            (λ b.
              b
              && not (
                  hits client.remove_static_talkgroup slot tgs
                    (client.remove_static_talkgroup slot t s).1 slot' tg))
            (d.removes slot t s slot' tg)
        ∙ and_not_twice (d.subscribed s slot' tg) _ _

    each_add-subscribed :
        (slot : Slot) (tgs : List Talkgroup) (s : client.State) (slot' : Slot) (tg : Talkgroup)
        → d.subscribed (each client client.add_static_talkgroup slot tgs s) slot' tg
          ≡ d.subscribed s slot' tg || hits client.add_static_talkgroup slot tgs s slot' tg
    unfolding each hits
    each_add-subscribed slot [] s slot' tg = sym (or_false _)
    each_add-subscribed slot (t ∷ tgs) s slot' tg =
        each_add-subscribed slot tgs (client.add_static_talkgroup slot t s).1 slot' tg
        ∙ ap
            (λ b.
              b
              || hits client.add_static_talkgroup slot tgs (client.add_static_talkgroup slot t s).1
                  slot' tg)
            (d.adds slot t s slot' tg)
        ∙ or_twice (d.subscribed s slot' tg) _ _

    -- The lists of what is to be removed and added, for one talkgroup.
    pub to_remove_contains :
        (desired current : List Talkgroup) (tg : Talkgroup)
        → contains (filter (λ t. not (contains desired t)) current) tg
          ≡ contains current tg && not (contains desired tg)
    to_remove_contains desired current tg =
        contains-filter (λ t. not (contains desired t)) current tg
          (λ t e. ap not (contains-same desired t tg e))

    -- Some talkgroups of a slot are removed, and then others added.
    module _ (slot : Slot) (removes adds : List Talkgroup) (s : client.State) (slot' : Slot)
        (tg : Talkgroup) where
      abbrev between : client.State
      between = each client client.remove_static_talkgroup slot removes s

      abbrev taken : Bool
      taken = hits client.remove_static_talkgroup slot removes s slot' tg

      abbrev given : Bool
      given = hits client.add_static_talkgroup slot adds between slot' tg

      swap-subscribed :
          d.subscribed (each client client.add_static_talkgroup slot adds between) slot' tg
          ≡ (d.subscribed s slot' tg && not taken) || given
      swap-subscribed =
          each_add-subscribed slot adds between slot' tg
          ∙ ap (λ b. b || given) (each_remove-subscribed slot removes s slot' tg)

      pub swap-kept :
          slot_eq slot slot' && contains removes tg ≡ false
          → slot_eq slot slot' && contains adds tg ≡ false
          → d.subscribed (each client client.add_static_talkgroup slot adds between) slot' tg
            ≡ d.subscribed s slot' tg
      swap-kept no_remove no_add =
          swap-subscribed
          ∙ left_alone (d.subscribed s slot' tg) taken given
              (hits-named client.remove_static_talkgroup slot removes s slot' tg
                ∙ ap (λ b. taken && b) no_remove)
              (hits-named client.add_static_talkgroup slot adds between slot' tg
                ∙ ap (λ b. given && b) no_add)

      pub swap-reached :
          Reachable client
          → slot_eq slot slot' ≡ true
          → (desired : Bool) → contains removes tg ≡ d.subscribed s slot' tg && not desired
          → contains adds tg ≡ desired && not (d.subscribed s slot' tg)
          → d.subscribed (each client client.add_static_talkgroup slot adds between) slot' tg
            ≡ desired
      swap-reached r same desired is_removed is_added =
          swap-subscribed
          ∙ swapped desired (d.subscribed s slot' tg) taken given
              (hits-all client.remove_static_talkgroup slot removes s slot' tg r.removing
                ∙ ap₂ (λ a b. a && b) same is_removed)
              (hits-all client.add_static_talkgroup slot adds between slot' tg r.adding
                ∙ ap₂ (λ a b. a && b) same is_added)
