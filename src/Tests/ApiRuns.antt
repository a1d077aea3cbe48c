-- ===== src/Tests/ApiRuns.antt =====
-- The theorems on the network's API at a concrete server.
use asl_dmr_bridge.Base.{
  ℕ, ap₂, ◌≡◌, refl, arith, List, [], ◌∷◌, Bool, true, false, ◌&&◌, ◌||◌, not, Option, none, some,
  ◌==◌, if◌then◌else◌, ==_iff, ap, sym, ◌∙◌,
}
use asl_dmr_bridge.Ids.{Slot, Talkgroup}
use asl_dmr_bridge.Voice.{slot_eq}
use asl_dmr_bridge.Bridge.Provision.{
  StaticTalkgroup, Client, ResolvedBrandmeisterApiConfig, contains, of_slot, run_once,
}
use asl_dmr_bridge.Bridge.Provision.Swaps.{Documented, Reachable}
use asl_dmr_bridge.Bridge.Provision.InForce.{wanted, declared, run_once-reached, run_once-keeps}

abbrev entry : Slot → Talkgroup → StaticTalkgroup
entry slot tg = record { talkgroup = tg; repeaterid = none; slot = slot }

unfoldable without : Slot → Talkgroup → List StaticTalkgroup → List StaticTalkgroup
without slot tg [] = []
without slot tg (x ∷ xs) =
    let rest = without slot tg xs in
    if slot_eq slot x.slot && (tg.as_u32 == x.talkgroup.as_u32) then rest else x ∷ rest

-- A server that keeps a list, and adds to it or refuses to.
abbrev server : Bool → Client
server adds = record {
  State = List StaticTalkgroup;
  device_talkgroups = λ s. (some s, s);
  add_static_talkgroup = λ slot tg s. (adds, if adds then entry slot tg ∷ s else s);
  remove_static_talkgroup = λ slot tg s. (true, without slot tg s);
}

of_slot-first :
    (slot : Slot) (x : StaticTalkgroup) (xs : List StaticTalkgroup) (tg : Talkgroup)
    → contains (of_slot slot (x ∷ xs)) tg ≡ (
        if slot_eq x.slot slot && (x.talkgroup.as_u32 == tg.as_u32)
        then true
        else contains (of_slot slot xs) tg)
unfolding of_slot contains
of_slot-first slot x xs tg = by_slot (slot_eq x.slot slot)
  where
    by_slot :
        (here : Bool)
        → contains (if here then x.talkgroup ∷ of_slot slot xs else of_slot slot xs) tg ≡ (
            if here && (x.talkgroup.as_u32 == tg.as_u32)
            then true
            else contains (of_slot slot xs) tg)
    by_slot true = refl
    by_slot false = refl

slot_eq_lem : (a b : Slot) → slot_eq a b ≡ true → a ≡ b
unfolding slot_eq
slot_eq_lem Slot.one Slot.one e = refl
slot_eq_lem Slot.two Slot.two e = refl
slot_eq_lem Slot.one Slot.two e = ground arith
slot_eq_lem Slot.two Slot.one e = ground arith

same_entry :
    (slot a b : Slot) (n x y : ℕ)
    → slot_eq a b && (x == y) ≡ true
    → slot_eq slot a && (n == x) ≡ slot_eq slot b && (n == y)
same_entry slot a b n x y e =
    let both = and_both (slot_eq a b) (x == y) e in
    ap₂ (λ sl z. slot_eq slot sl && (n == z)) (slot_eq_lem a b both.0) ((==_iff x y).0 both.1)
  where
    and_both : (p q : Bool) → p && q ≡ true → (p ≡ true) × (q ≡ true)
    and_both true q e = (refl, e)
    and_both false q e = ground arith

dropped :
    (drop hit named rest member : Bool)
    → (hit ≡ true → drop ≡ named)
    → rest ≡ member && not named
    → (if drop then rest else if hit then true else rest)
      ≡ (if hit then true else member) && not named
dropped true true named rest member same r =
    r ∙ ap (λ n. member && not n) (sym (same refl)) ∙ and_false member ∙ ap not (same refl)
  where
    and_false : (b : Bool) → b && false ≡ false
    and_false true = refl
    and_false false = refl
dropped true false named rest member same r = r
dropped false true named rest member same r = ap not (same refl)
dropped false false named rest member same r = r

without-contains :
    (slot : Slot) (tg : Talkgroup) (xs : List StaticTalkgroup) (slot' : Slot) (tg' : Talkgroup)
    → contains (of_slot slot' (without slot tg xs)) tg'
      ≡ contains (of_slot slot' xs) tg' && not (slot_eq slot slot' && (tg.as_u32 == tg'.as_u32))
unfolding without contains of_slot
without-contains slot tg [] slot' tg' = refl
without-contains slot tg (x ∷ xs) slot' tg' =
    by_drop (slot_eq slot x.slot && (tg.as_u32 == x.talkgroup.as_u32))
    ∙ dropped (slot_eq slot x.slot && (tg.as_u32 == x.talkgroup.as_u32)) _ _ _ _
        (same_entry slot x.slot slot' tg.as_u32 x.talkgroup.as_u32 tg'.as_u32)
        (without-contains slot tg xs slot' tg')
    ∙ ap (λ b. b && not (slot_eq slot slot' && (tg.as_u32 == tg'.as_u32)))
        (sym (of_slot-first slot' x xs tg'))
  where
    by_drop :
        (drop : Bool)
        → contains (of_slot slot' (if drop then without slot tg xs else x ∷ without slot tg xs)) tg'
          ≡ (if drop
              then contains (of_slot slot' (without slot tg xs)) tg'
              else if slot_eq x.slot slot' && (x.talkgroup.as_u32 == tg'.as_u32)
              then true
              else contains (of_slot slot' (without slot tg xs)) tg')
    by_drop true = refl
    by_drop false = of_slot-first slot' x (without slot tg xs) tg'

abbrev listed : Option (List StaticTalkgroup) → List StaticTalkgroup
listed none = []
listed (some all) = all

with_entry :
    (works : Bool) (slot : Slot) (tg : Talkgroup) (s : List StaticTalkgroup) (slot' : Slot)
    (tg' : Talkgroup)
    → contains (of_slot slot' (if works then entry slot tg ∷ s else s)) tg'
      ≡ contains (of_slot slot' s) tg'
        || (works && (slot_eq slot slot' && (tg.as_u32 == tg'.as_u32)))
with_entry true slot tg s slot' tg' =
    of_slot-first slot' (entry slot tg) s tg'
    ∙ either (slot_eq slot slot' && (tg.as_u32 == tg'.as_u32)) _
  where
    either : (here rest : Bool) → (if here then true else rest) ≡ rest || here
    either true true = refl
    either true false = refl
    either false true = refl
    either false false = refl
with_entry false slot tg s slot' tg' = sym (or_false (contains (of_slot slot' s) tg'))
  where
    or_false : (b : Bool) → b || false ≡ b
    or_false true = refl
    or_false false = refl

abbrev server-Documented : (adds : Bool) → Documented (server adds)
server-Documented adds = record {
  subscribed = λ s slot tg. contains (of_slot slot s) tg;
  list_keeps = λ s slot tg. refl;
  lists = λ s all e slot tg. ap (λ o. contains (of_slot slot (listed o)) tg) (sym e);
  removes = λ slot tg s slot' tg'. without-contains slot tg s slot' tg';
  adds = λ slot tg s slot' tg'. with_entry adds slot tg s slot' tg';
}

abbrev tg_91 : Talkgroup
tg_91 = record { as_u32 = 91 }

abbrev tg_3100 : Talkgroup
tg_3100 = record { as_u32 = 3100 }

-- A swap in the first slot; the second one is not declared.
abbrev swap : ResolvedBrandmeisterApiConfig
swap = record {
  api_key = some (b'k' ∷ []);
  static_talkgroups_ts1 = some (tg_3100 ∷ []);
  static_talkgroups_ts2 = none;
  reconcile_interval = 0;
}

abbrev subscriptions : List StaticTalkgroup
subscriptions = entry Slot.one tg_91 ∷ entry Slot.two tg_91 ∷ []

server-Reachable : Reachable (server true)
server-Reachable = record {
  listing = λ s. (s, refl);
  removing = λ slot tg s. refl;
  adding = λ slot tg s. refl;
}

run_once-reached_example :
    contains (of_slot Slot.one (run_once (server true) (some swap) subscriptions)) tg_91
    ≡ wanted (declared swap Slot.one) tg_91 (contains (of_slot Slot.one subscriptions) tg_91)
run_once-reached_example =
    run_once-reached (server true) (server-Documented true) swap subscriptions Slot.one tg_91 refl
      server-Reachable

run_once-keeps_example :
    contains (of_slot Slot.two (run_once (server false) (some swap) subscriptions)) tg_91
    ≡ contains (of_slot Slot.two subscriptions) tg_91
run_once-keeps_example =
    run_once-keeps (server false) (server-Documented false) swap subscriptions Slot.two tg_91 refl
