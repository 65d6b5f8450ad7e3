-- ===== src/System/Soundness.antt =====
-- The invariant of the context.
use Prim.Native.String.{String}
use free5gc_udr.Base.{
  ℕ, suc, ◌≡◌, inl, inr, ◌≢◌, ==_cases, List, [], ◌∷◌, Option, none, some, arith, entries, lookup,
  insert, delete, lookup-insert, subst,
}
use free5gc_udr.Models.{SubscriptionDataSubscriptions}
use free5gc_udr.Context.{UdrContext, UeSubsData, EeSubscriptionCollection}
use free5gc_udr.Sdm.{store_ue}
use free5gc_udr.Sdm.Spec.{sdm_at}
use free5gc_udr.Ee.Laws.{collection_at}
use free5gc_udr.EeGroup.Laws.{group_at}
use free5gc_udr.Counters.{Counted, Counted-sub}

-- Every collection of a map points to a subscription.
abbrev pub AllSubscribed : List (String × EeSubscriptionCollection) → Type 0
AllSubscribed [] = Unit
AllSubscribed ((id, col) ∷ m) = (col.ee_subscriptions ≢ none) × AllSubscribed m

pub AllSubscribed-insert :
    (id : String) (col : EeSubscriptionCollection) (m : List (String × EeSubscriptionCollection))
    → AllSubscribed m
    → col.ee_subscriptions ≢ none
    → AllSubscribed (insert id col m)
unfolding insert
AllSubscribed-insert id col [] h p = (p, tt)
AllSubscribed-insert id col ((j, w) ∷ m) h p = ground (arith, AllSubscribed-insert id col m h.1 p)

pub AllSubscribed-delete :
    (id : String) (m : List (String × EeSubscriptionCollection))
    → AllSubscribed m
    → AllSubscribed (delete id m)
unfolding delete
AllSubscribed-delete id [] h = tt
AllSubscribed-delete id ((j, w) ∷ m) h = ground (arith, AllSubscribed-delete id m h.1)

pub subscribed_of_lookup :
    (id : String) (col : EeSubscriptionCollection) (m : List (String × EeSubscriptionCollection))
    → AllSubscribed m
    → lookup id m ≡ some col
    → col.ee_subscriptions ≢ none
unfolding lookup
subscribed_of_lookup id col [] h e = cc
subscribed_of_lookup id col ((j, w) ∷ m) h e = ground (arith, subscribed_of_lookup id col m h.1)

-- The subscription to changes of subscription data under an identifier; the table has one key.
abbrev pub data_at : UdrContext → String → String → Option SubscriptionDataSubscriptions
data_at c _ id = lookup id (entries c.subscription_data_subscriptions)

-- After at most `k` requests: every identifier under which an SDM, event exposure, group or
-- subscription data subscription is stored was issued by its counter, which has not overflowed; the
-- maps that `Init` makes are not nil, and every event exposure collection has its subscription.
pub record IsSound (k : ℕ) (c : UdrContext) : Type 0 where
  pub sdm : Counted k c.sdm_subscription_id_generator (sdm_at c)
  pub ee : Counted k c.ee_subscription_id_generator (collection_at c)
  pub group : Counted k c.ee_subscription_id_generator (group_at c)
  pub subscription_data : Counted k c.subscription_data_subscription_id_generator (data_at c)
  pub data_made : c.subscription_data_subscriptions ≢ none
  pub policy_made : c.policy_data_subscriptions ≢ none
  pub subscribed :
      (ue : String) (subs : UeSubsData)
      → lookup ue c.ue_subs_collection ≡ some subs
      → AllSubscribed (entries subs.ee_subscription_collection)

-- A UE's entry that is stored keeps the subscriptions of all collections, if its own are kept.
pub subscribed-store_ue :
    (c : UdrContext) (ue : String) (subs' : UeSubsData)
    → ((a : String) (subs : UeSubsData)
        → lookup a c.ue_subs_collection ≡ some subs
        → AllSubscribed (entries subs.ee_subscription_collection))
    → AllSubscribed (entries subs'.ee_subscription_collection)
    → (a : String) (subs : UeSubsData)
    → lookup a (store_ue ue subs' c).ue_subs_collection ≡ some subs
    → AllSubscribed (entries subs.ee_subscription_collection)
unfolding store_ue
subscribed-store_ue c ue subs' old new a subs e = elim (==_cases ue a) [
  | inl (same_ue, t) ↦
      let e' : subs' ≡ subs = ground (arith, lookup-insert ue a subs' c.ue_subs_collection) in
      subst (λ s. AllSubscribed (entries s.ee_subscription_collection)) e' new
  | inr (_, t) ↦ old a subs (ground (arith, lookup-insert ue a subs' c.ue_subs_collection))
]

-- A sound context stays sound as a request is counted that changes nothing.
pub later : {k : ℕ} {c : UdrContext} → IsSound k c → IsSound (suc k) c
later s = record {
  sdm = Counted-sub s.sdm (λ a id v e. (v, e));
  ee = Counted-sub s.ee (λ a id v e. (v, e));
  group = Counted-sub s.group (λ a id v e. (v, e));
  subscription_data = Counted-sub s.subscription_data (λ a id v e. (v, e));
  data_made = s.data_made;
  policy_made = s.policy_made;
  subscribed = s.subscribed;
}
