-- ===== src/Bridge/Provision/Swaps.antt =====
-- bridge/src/brandmeister_provision.rs: facts on Booleans that the lists and the requests come to.
use asl_dmr_bridge.Base.{
  ◌≡◌, refl, arith, List, Bool, true, false, ◌&&◌, ◌||◌, not, some, ◌==◌, if◌then◌else◌, ap₂, ◌∙◌,
}
use asl_dmr_bridge.Ids.{Slot, Talkgroup}
use asl_dmr_bridge.Voice.{slot_eq}
use asl_dmr_bridge.Bridge.Provision.{StaticTalkgroup, Client, contains, of_slot}

-- What the API documents of a device: its subscriptions, which the list reports and which a request that
-- succeeds changes for one talkgroup of one slot; a request that fails changes nothing.
pub record Documented (client : Client) : Type 0 where
  pub subscribed : client.State → Slot → Talkgroup → Bool
  pub list_keeps :
      (s : client.State) (slot : Slot) (tg : Talkgroup)
      → subscribed (client.device_talkgroups s).1 slot tg ≡ subscribed s slot tg
  pub lists :
      (s : client.State) (all : List StaticTalkgroup)
      → (client.device_talkgroups s).0 ≡ some all
      → (slot : Slot) (tg : Talkgroup) → contains (of_slot slot all) tg ≡ subscribed s slot tg
  pub removes :
      (slot : Slot) (tg : Talkgroup) (s : client.State) (slot' : Slot) (tg' : Talkgroup)
      → subscribed (client.remove_static_talkgroup slot tg s).1 slot' tg'
        ≡ subscribed s slot' tg'
          && not (
              (client.remove_static_talkgroup slot tg s).0
              && (slot_eq slot slot' && (tg.as_u32 == tg'.as_u32)))
  pub adds :
      (slot : Slot) (tg : Talkgroup) (s : client.State) (slot' : Slot) (tg' : Talkgroup)
      → subscribed (client.add_static_talkgroup slot tg s).1 slot' tg'
        ≡ subscribed s slot' tg'
          || ((client.add_static_talkgroup slot tg s).0
              && (slot_eq slot slot' && (tg.as_u32 == tg'.as_u32)))

-- Every request succeeds.
pub record Reachable (client : Client) : Type 0 where
  pub listing :
      (s : client.State)
      → (all : List StaticTalkgroup) × ((client.device_talkgroups s).0 ≡ some all)
  pub removing :
      (slot : Slot) (tg : Talkgroup) (s : client.State)
      → (client.remove_static_talkgroup slot tg s).0 ≡ true
  pub adding :
      (slot : Slot) (tg : Talkgroup) (s : client.State)
      → (client.add_static_talkgroup slot tg s).0 ≡ true

-- Facts on Booleans that `contains` and the requests come to.
pub kept_or_not :
    (here kept keep rest member : Bool)
    → (here ≡ true → kept ≡ keep)
    → rest ≡ member && keep
    → (if kept then (if here then true else rest) else rest)
      ≡ (if here then true else member) && keep
kept_or_not true true keep rest member same r = same refl
kept_or_not true false true rest member same r = absurd (wrong (same refl))
  where
    wrong : false ≡ true → ⊥
    wrong e = ground arith
kept_or_not true false false true member same r = ground (arith, r)
kept_or_not true false false false member same r = refl
kept_or_not false true keep rest member same r = r
kept_or_not false false keep rest member same r = r

pub hit_named :
    (done slot here rest member : Bool)
    → rest ≡ rest && (slot && member)
    → (done && (slot && here)) || rest
      ≡ ((done && (slot && here)) || rest) && (slot && (if here then true else member))
hit_named true true true rest member r = refl
hit_named true true false rest member r = r
hit_named true false here true member r = r
hit_named true false here false member r = refl
hit_named false slot here false member r = refl
hit_named false true true true member r = refl
hit_named false true false true member r = r
hit_named false false here true member r = r

pub hit_all :
    (slot here rest member : Bool)
    → rest ≡ slot && member
    → (true && (slot && here)) || rest ≡ slot && (if here then true else member)
hit_all true true rest member r = refl
hit_all true false rest member r = r
hit_all false here rest member r = r

pub and_not_twice : (a b c : Bool) → (a && not b) && not c ≡ a && not (b || c)
and_not_twice true true c = refl
and_not_twice true false c = refl
and_not_twice false b c = refl

pub or_twice : (a b c : Bool) → (a || b) || c ≡ a || (b || c)
or_twice true b c = refl
or_twice false b c = refl

pub and_true : (a : Bool) → a && true ≡ a
and_true true = refl
and_true false = refl

pub or_false : (a : Bool) → a || false ≡ a
or_false true = refl
or_false false = refl

-- What removing C without D and then adding D without C come to, all of it or less.
pub swapped :
    (d c taken given : Bool)
    → taken ≡ c && not d
    → given ≡ d && not c
    → (c && not taken) || given ≡ d
swapped d c taken given r a = ap₂ (λ x y. (c && not x) || y) r a ∙ table d c
  where
    table : (d c : Bool) → (c && not (c && not d)) || (d && not c) ≡ d
    table true true = refl
    table true false = refl
    table false true = refl
    table false false = refl

pub left_alone :
    (s taken given : Bool)
    → taken ≡ taken && false
    → given ≡ given && false
    → (s && not taken) || given ≡ s
left_alone s taken given r a =
    ap₂ (λ x y. (s && not x) || y) (r ∙ never taken) (a ∙ never given)
    ∙ or_false (s && true)
    ∙ and_true s
  where
    never : (b : Bool) → b && false ≡ false
    never true = refl
    never false = refl

pub not_itself : (b : Bool) → b && not b ≡ false
not_itself true = refl
not_itself false = refl
