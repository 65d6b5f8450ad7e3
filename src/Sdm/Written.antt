-- ===== src/Sdm/Written.antt =====
-- What the writes of the handlers of the SDM subscriptions are in the registry of Sdm.Spec.
use Prim.Native.String.{String}
use free5gc_udr.Base.{
  ◌≡◌, true, ◌==◌, if◌then◌else◌, ==_iff, List, Option, none, some, arith, entries, lookup,
  lookup-insert, assign,
}
use free5gc_udr.Models.{SdmSubscription}
use free5gc_udr.Context.{UdrContext, UeSubsData}
use free5gc_udr.Sdm.{load_or_new, store_ue, put_sdm}
use free5gc_udr.Sdm.Spec.{no_user, no_subscription, changed, is_known, sdm_at, view, outcome}

-- After a store, the UE's entry is the new one and every other entry is as it was.
pub sdm_at-store_ue :
    (c : UdrContext) (ue ue' id : String) (subs : UeSubsData)
    → sdm_at (store_ue ue subs c) ue' id
      ≡ (if ue == ue' then lookup id (entries subs.sdm_subscriptions) else sdm_at c ue' id)
unfolding store_ue
sdm_at-store_ue c ue ue' id subs = ground (arith, lookup-insert ue ue' subs c.ue_subs_collection)

pub is_known-store_ue :
    (c : UdrContext) (ue ue' : String) (subs : UeSubsData)
    → is_known (store_ue ue subs c) ue' ≡ (if ue == ue' then true else is_known c ue')
unfolding store_ue
is_known-store_ue c ue ue' subs = ground (arith, lookup-insert ue ue' subs c.ue_subs_collection)

pub sdm_at-put_sdm :
    (c : UdrContext) (ue id ue' id' : String) (sub : SdmSubscription)
    → sdm_at (store_ue ue (put_sdm id sub (load_or_new ue c)) c) ue' id'
      ≡ assign (sdm_at c) ue id (some sub) ue' id'
unfolding store_ue put_sdm load_or_new lookup
sdm_at-put_sdm c ue id ue' id' sub = ground (
  arith,
  ==_iff ue ue',
  lookup-insert ue ue' (put_sdm id sub (load_or_new ue c)) c.ue_subs_collection,
  lookup-insert id id' sub (entries (load_or_new ue c).sdm_subscriptions),
)

-- A lookup that found something, in the terms of the registry.
module _ (c : UdrContext) (ue id : String) where
  sdm_at-written :
      (subs : UeSubsData) (m : List (String × SdmSubscription)) (v : Option SdmSubscription)
      (ue' id' : String)
      → lookup ue c.ue_subs_collection ≡ some subs
      → ((j : String)
          → lookup j m ≡ (if id == j then v else lookup j (entries subs.sdm_subscriptions)))
      → sdm_at (store_ue ue (record subs { sdm_subscriptions = some m }) c) ue' id'
        ≡ assign (sdm_at c) ue id v ue' id'
  unfolding store_ue
  sdm_at-written subs m v ue' id' e h = ground (
    arith,
    ==_iff ue ue',
    lookup-insert ue ue' (record subs { sdm_subscriptions = some m }) c.ue_subs_collection,
    h id',
  )

  -- The view after a write to the map of a known UE.
  pub view-written :
      (subs : UeSubsData) (m : List (String × SdmSubscription)) (v : Option SdmSubscription)
      → lookup ue c.ue_subs_collection ≡ some subs
      → ((j : String)
          → lookup j m ≡ (if id == j then v else lookup j (entries subs.sdm_subscriptions)))
      → view (store_ue ue (record subs { sdm_subscriptions = some m }) c) ≡ record {
        known = is_known c;
        at = assign (sdm_at c) ue id v;
        next = c.sdm_subscription_id_generator;
      }
  unfolding store_ue
  view-written subs m v e h = λ i. record {
    known = λ ue'. known ue' i;
    at = λ ue' id'. sdm_at-written subs m v ue' id' e h i;
    next = c.sdm_subscription_id_generator;
  }
    where
      known :
          (ue' : String)
          → is_known (store_ue ue (record subs { sdm_subscriptions = some m }) c) ue'
            ≡ is_known c ue'
      known ue' = ground (
        arith,
        ==_iff ue ue',
        is_known-store_ue c ue ue' (record subs { sdm_subscriptions = some m }),
      )

  module _ (subs : UeSubsData) (known : lookup ue c.ue_subs_collection ≡ some subs) where
    pub outcome_found :
        (s : SdmSubscription)
        → lookup id (entries subs.sdm_subscriptions) ≡ some s
        → outcome (view c) ue id ≡ changed
    unfolding outcome
    outcome_found s found = ground arith

    pub outcome_missing :
        lookup id (entries subs.sdm_subscriptions) ≡ none → outcome (view c) ue id ≡ no_subscription
    unfolding outcome
    outcome_missing missing = ground arith

  pub outcome_unknown : lookup ue c.ue_subs_collection ≡ none → outcome (view c) ue id ≡ no_user
  unfolding outcome
  outcome_unknown unknown = ground arith
