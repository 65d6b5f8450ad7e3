-- ===== src/System/Changes.antt =====
-- The changes that keep the invariant of the context because they issue no identifier.
use Prim.Native.String.{String}
use free5gc_udr.Base.{
  ℕ, suc, ◌≡◌, inl, inr, ◌≢◌, ==_cases, List, Option, none, some, arith, GoMap, entries, lookup,
  lookup-insert,
}
use free5gc_udr.Models.{SdmSubscription, EeSubscription, SubscriptionDataSubscriptions}
use free5gc_udr.Context.{UdrContext, UeSubsData, EeSubscriptionCollection, InfluEntry}
use free5gc_udr.Models.{PolicyDataSubscription}
use free5gc_udr.Sdm.{store_ue}
use free5gc_udr.Sdm.Spec.{sdm_at}
use free5gc_udr.Ee.Laws.{collection_at}
use free5gc_udr.EeGroup.{store_group}
use free5gc_udr.EeGroup.Laws.{group_at}
use free5gc_udr.Counters.{Counted-sub}
use free5gc_udr.System.Soundness.{AllSubscribed, IsSound, subscribed-store_ue, later}

-- Every key of the first map is a key of the second.
abbrev pub KeysWithin : {V W : Type 0} → List (String × V) → List (String × W) → Type 0
KeysWithin {V} {W} m n =
    (id : String) (v : V) → lookup id m ≡ some v → (w : W) × (lookup id n ≡ some w)

-- The changes of the context that issue no identifier.
pub data Change (c : UdrContext) : UdrContext → Type 0 where
  same : Change c c
  sdm_map :
      (ue : String) (subs : UeSubsData) (m : List (String × SdmSubscription))
      → lookup ue c.ue_subs_collection ≡ some subs
      → KeysWithin m (entries subs.sdm_subscriptions)
      → Change c (store_ue ue (record subs { sdm_subscriptions = some m }) c)
  ee_map :
      (ue : String) (subs : UeSubsData) (m : List (String × EeSubscriptionCollection))
      → lookup ue c.ue_subs_collection ≡ some subs
      → KeysWithin m (entries subs.ee_subscription_collection)
      → (AllSubscribed (entries subs.ee_subscription_collection) → AllSubscribed m)
      → Change c (store_ue ue (record subs { ee_subscription_collection = some m }) c)
  group_map :
      (group : String) (n : List (String × EeSubscription))
      → ((id : String) (v : EeSubscription)
          → lookup id n ≡ some v
          → (w : EeSubscription) × (group_at c group id ≡ some w))
      → Change c (store_group group (some n) c)
  data_map :
      (m : List (String × SubscriptionDataSubscriptions))
      → KeysWithin m (entries c.subscription_data_subscriptions)
      → Change c (record c { subscription_data_subscriptions = some m })
  policy_map :
      (m : GoMap PolicyDataSubscription)
      → (c.policy_data_subscriptions ≢ none → m ≢ none)
      → Change c (record c { policy_data_subscriptions = m })
  influence_map :
      (m : List (String × InfluEntry)) → Change c (record c { influence_data_subscriptions = m })

-- What stays in a table after a change was in it before.
abbrev Within :
    {V W : Type 0} → (String → String → Option V) → (String → String → Option W) → Type 0
Within {V} {W} at' at = (a id : String) (v : V) → at' a id ≡ some v → (w : W) × (at a id ≡ some w)

module _ (c : UdrContext) (ue : String) (subs subs' : UeSubsData)
    (known : lookup ue c.ue_subs_collection ≡ some subs) where
  sdm-Within :
      KeysWithin (entries subs'.sdm_subscriptions) (entries subs.sdm_subscriptions)
      → Within (sdm_at (store_ue ue subs' c)) (sdm_at c)
  unfolding store_ue
  sdm-Within h a id v e = elim (==_cases ue a) [
    | inl (same_ue, t) ↦
        let e' : lookup id (entries subs'.sdm_subscriptions) ≡ some v =
          ground (arith, lookup-insert ue a subs' c.ue_subs_collection) in
        let (w, f) = h id v e' in (w, ground arith)
    | inr (_, t) ↦ (v, ground (arith, lookup-insert ue a subs' c.ue_subs_collection))
  ]

  ee-Within :
      KeysWithin
        (entries subs'.ee_subscription_collection)
        (entries subs.ee_subscription_collection)
      → Within (collection_at (store_ue ue subs' c)) (collection_at c)
  unfolding store_ue
  ee-Within h a id v e = elim (==_cases ue a) [
    | inl (same_ue, t) ↦
        let e' : lookup id (entries subs'.ee_subscription_collection) ≡ some v =
          ground (arith, lookup-insert ue a subs' c.ue_subs_collection) in
        let (w, f) = h id v e' in (w, ground arith)
    | inr (_, t) ↦ (v, ground (arith, lookup-insert ue a subs' c.ue_subs_collection))
  ]

pub KeysWithin-self : {V : Type 0} (m : List (String × V)) → KeysWithin m m
KeysWithin-self m id v e = (v, e)

group-Within :
    (c : UdrContext) (group : String) (n : List (String × EeSubscription))
    → ((id : String) (v : EeSubscription)
        → lookup id n ≡ some v
        → (w : EeSubscription) × (group_at c group id ≡ some w))
    → Within (group_at (store_group group (some n) c)) (group_at c)
unfolding store_group
group-Within c group n h a id v e = elim (==_cases group a) [
  | inl (same_group, t) ↦
      let stored =
        lookup-insert group a (record { ee_subscriptions = some n }) c.ue_group_collection in
      let e' : lookup id n ≡ some v = ground (arith, stored) in
      let (w, f) = h id v e' in (w, ground arith)
  | inr (_, t) ↦ (
    v,
    ground
        (arith, lookup-insert group a (record { ee_subscriptions = some n }) c.ue_group_collection),
  )
]

pub Change-IsSound : {k : ℕ} {c c' : UdrContext} → Change c c' → IsSound k c → IsSound (suc k) c'
unfolding store_ue store_group
Change-IsSound same s = later s
Change-IsSound {c} (sdm_map ue subs m known h) s =
    let subs' : UeSubsData = record subs { sdm_subscriptions = some m } in
    let l = later s in
    record {
      sdm = Counted-sub s.sdm (sdm-Within c ue subs subs' known h);
      ee = Counted-sub s.ee (ee-Within c ue subs subs' known (KeysWithin-self _));
      group = l.group;
      subscription_data = l.subscription_data;
      data_made = l.data_made;
      policy_made = l.policy_made;
      subscribed = subscribed-store_ue c ue subs' s.subscribed (s.subscribed ue subs known);
    }
Change-IsSound {c} (ee_map ue subs m known h all) s =
    let subs' : UeSubsData = record subs { ee_subscription_collection = some m } in
    let l = later s in
    record {
      sdm = Counted-sub s.sdm (sdm-Within c ue subs subs' known (KeysWithin-self _));
      ee = Counted-sub s.ee (ee-Within c ue subs subs' known h);
      group = l.group;
      subscription_data = l.subscription_data;
      data_made = l.data_made;
      policy_made = l.policy_made;
      subscribed = subscribed-store_ue c ue subs' s.subscribed (all (s.subscribed ue subs known));
    }
Change-IsSound {c} (group_map group n h) s =
    let l = later s in
    record {
      sdm = l.sdm;
      ee = l.ee;
      group = Counted-sub s.group (group-Within c group n h);
      subscription_data = l.subscription_data;
      data_made = l.data_made;
      policy_made = l.policy_made;
      subscribed = l.subscribed;
    }
Change-IsSound (data_map m h) s =
    let l = later s in
    record {
      sdm = l.sdm;
      ee = l.ee;
      group = l.group;
      subscription_data = Counted-sub s.subscription_data (λ a id v e. h id v e);
      data_made = λ e. cc;
      policy_made = l.policy_made;
      subscribed = l.subscribed;
    }
Change-IsSound (policy_map m h) s =
    let l = later s in
    record {
      sdm = l.sdm;
      ee = l.ee;
      group = l.group;
      subscription_data = l.subscription_data;
      data_made = l.data_made;
      policy_made = h s.policy_made;
      subscribed = l.subscribed;
    }
Change-IsSound (influence_map m) s =
    let l = later s in
    record {
      sdm = l.sdm;
      ee = l.ee;
      group = l.group;
      subscription_data = l.subscription_data;
      data_made = l.data_made;
      policy_made = l.policy_made;
      subscribed = l.subscribed;
    }
