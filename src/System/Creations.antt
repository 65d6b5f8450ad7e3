-- ===== src/System/Creations.antt =====
-- The procedures that issue an identifier keep the invariant, as long as no counter overflows.
use Prim.Native.String.{String}
use free5gc_udr.Base.{
  ℕ, suc, ◌^◌, ◌<◌, ◌≡◌, sym, ◌⊎◌, inl, inr, ==_iff, ==_cases, List, none, some, arith, entries,
  lookup, insert, lookup-insert, Option-cases,
}
use free5gc_udr.Base.Int.{itoa, increment}
use free5gc_udr.Models.{
  SdmSubscription, EeSubscription, SubscriptionDataSubscriptions, PolicyDataSubscription,
}
use free5gc_udr.Context.{UdrContext, EeSubscriptionCollection}
use free5gc_udr.Sdm.{load_or_new, store_ue, put_sdm, create_sdm_subscriptions_procedure}
use free5gc_udr.Sdm.Spec.{sdm_at}
use free5gc_udr.Sdm.Written.{sdm_at-put_sdm}
use free5gc_udr.Ee.{put_collection, create_ee_subscriptions_procedure}
use free5gc_udr.Ee.Laws.{collection_at, create-collection_at}
use free5gc_udr.EeGroup.{create_ee_group_subscriptions_procedure}
use free5gc_udr.EeGroup.Laws.{group_at, create-group_at}
use free5gc_udr.Notify.{
  post_subscription_data_subscriptions_procedure, policy_data_subs_to_notify_post_procedure,
}
use free5gc_udr.Counters.{Counted-sub, Counted-next, next_of_assigned}
use free5gc_udr.System.Soundness.{
  IsSound, AllSubscribed, AllSubscribed-insert, subscribed-store_ue, data_at, later,
}

module _ (c : UdrContext) (ue a id : String) where
  -- A write to one map of a UE leaves the other map alone.
  collection_at-put_sdm :
      (new : String) (sub : SdmSubscription)
      → collection_at (store_ue ue (put_sdm new sub (load_or_new ue c)) c) a id
        ≡ collection_at c a id
  unfolding store_ue put_sdm load_or_new lookup
  collection_at-put_sdm new sub = ground (
    arith,
    ==_iff ue a,
    lookup-insert ue a (put_sdm new sub (load_or_new ue c)) c.ue_subs_collection,
  )

  sdm_at-put_collection :
      (new : String) (col : EeSubscriptionCollection)
      → sdm_at (store_ue ue (put_collection new col (load_or_new ue c)) c) a id ≡ sdm_at c a id
  unfolding store_ue put_collection load_or_new lookup
  sdm_at-put_collection new col = ground (
    arith,
    ==_iff ue a,
    lookup-insert ue a (put_collection new col (load_or_new ue c)) c.ue_subs_collection,
  )

-- What is in the table of subscriptions to subscription data after a posting.
data_grown :
    (c : UdrContext) (sub : SubscriptionDataSubscriptions)
    (m : List (String × SubscriptionDataSubscriptions))
    → c.subscription_data_subscriptions ≡ some m
    → (id a j : String) (v : SubscriptionDataSubscriptions) → lookup j (insert id sub m) ≡ some v
    → (j ≡ id) ⊎ ((w : SubscriptionDataSubscriptions) × (data_at c a j ≡ some w))
data_grown c sub m made id a j v e = elim (==_cases id j) [
  | inl (same, t) ↦ inl (sym same)
  | inr (_, t) ↦ inr (v, ground (arith, lookup-insert id j sub m))
]

module _ {k : ℕ} {c : UdrContext} (s : IsSound k c) where
  subscribed-load_or_new :
      (ue : String) → AllSubscribed (entries (load_or_new ue c).ee_subscription_collection)
  unfolding load_or_new
  subscribed-load_or_new ue = elim (Option-cases (lookup ue c.ue_subs_collection)) [
    | inl unknown ↦ rw (unknown, load_or_new) tt
    | inr (subs, known) ↦ rw (known, load_or_new) (s.subscribed ue subs known)
  ]

  module _ (room : suc (suc k) < 2 ^ 63) where
    pub create_sdm-IsSound :
        (sub : SdmSubscription) (coll ue : String)
        → IsSound (suc k) (create_sdm_subscriptions_procedure sub coll ue c).state
    unfolding create_sdm_subscriptions_procedure
    create_sdm-IsSound sub coll ue =
        let id = itoa c.sdm_subscription_id_generator in
        let new : SdmSubscription = record sub { subscription_id = id } in
        let subs' = put_sdm id new (load_or_new ue c) in
        let l = later s in
        record {
          sdm = Counted-next room s.sdm (
              next_of_assigned (sdm_at c) (sdm_at (store_ue ue subs' c)) ue id new
                (λ a j. sdm_at-put_sdm c ue id a j new));
          ee =
              Counted-sub s.ee
                (λ a j v e. (v, ground (arith, collection_at-put_sdm c ue a j id new)));
          group = l.group;
          subscription_data = l.subscription_data;
          data_made = s.data_made;
          policy_made = s.policy_made;
          subscribed = subscribed-store_ue c ue subs' s.subscribed (subscribed-load_or_new ue);
        }

    pub create_ee-IsSound :
        (ue : String) (ee : EeSubscription)
        → IsSound (suc k) (create_ee_subscriptions_procedure ue ee c).state
    unfolding create_ee_subscriptions_procedure
    create_ee-IsSound ue ee =
        let id = itoa c.ee_subscription_id_generator in
        let new : EeSubscriptionCollection = record {
          ee_subscriptions = some ee;
          amf_subscription_infos = none;
        } in
        let subs' = put_collection id new (load_or_new ue c) in
        let l = later s in
        record {
          sdm =
              Counted-sub s.sdm
                (λ a j v e. (v, ground (arith, sdm_at-put_collection c ue a j id new)));
          ee = Counted-next room s.ee (
              next_of_assigned (collection_at c) (collection_at (store_ue ue subs' c)) ue id new
                (λ a j. create-collection_at c ue a j ee));
          group = Counted-next room s.group (λ a j v e. inr (v, e));
          subscription_data = l.subscription_data;
          data_made = s.data_made;
          policy_made = s.policy_made;
          subscribed = subscribed-store_ue c ue subs' s.subscribed (
              AllSubscribed-insert id new (entries (load_or_new ue c).ee_subscription_collection)
                (subscribed-load_or_new ue) (λ e. cc));
        }

    pub create_group-IsSound :
        (group : String) (ee : EeSubscription)
        → IsSound (suc k) (create_ee_group_subscriptions_procedure group ee c).state
    unfolding create_ee_group_subscriptions_procedure
    create_group-IsSound group ee =
        let id = itoa c.ee_subscription_id_generator in
        let l = later s in
        record {
          sdm = l.sdm;
          ee = Counted-next room s.ee (λ a j v e. inr (v, e));
          group = Counted-next room s.group (
              next_of_assigned (group_at c)
                (group_at (create_ee_group_subscriptions_procedure group ee c).state) group id ee
                (λ a j. create-group_at c group a j ee));
          subscription_data = l.subscription_data;
          data_made = s.data_made;
          policy_made = s.policy_made;
          subscribed = s.subscribed;
        }

    -- The state after the two postings, whose map is not nil.
    posted_data :
        (sub : SubscriptionDataSubscriptions) (m : List (String × SubscriptionDataSubscriptions))
        → c.subscription_data_subscriptions ≡ some m
        → (post_subscription_data_subscriptions_procedure sub c).state ≡ record c {
          subscription_data_subscriptions =
              some (insert (itoa c.subscription_data_subscription_id_generator) sub m);
          subscription_data_subscription_id_generator =
              increment c.subscription_data_subscription_id_generator;
        }
    unfolding post_subscription_data_subscriptions_procedure
    posted_data sub m e = ground arith

    pub post_data-IsSound :
        (sub : SubscriptionDataSubscriptions)
        → IsSound (suc k) (post_subscription_data_subscriptions_procedure sub c).state
    post_data-IsSound sub = elim (Option-cases c.subscription_data_subscriptions) [
      | inl nil ↦ absurd (s.data_made nil)
      | inr (m, made) ↦
          let id = itoa c.subscription_data_subscription_id_generator in
          let l = later s in
          rw (posted_data sub m made) (record {
            sdm = l.sdm;
            ee = l.ee;
            group = l.group;
            subscription_data =
                Counted-next room s.subscription_data
                  (λ a j v e. data_grown c sub m made id a j v e);
            data_made = λ e. cc;
            policy_made = s.policy_made;
            subscribed = s.subscribed;
          })
    ]

    posted_policy :
        (sub : PolicyDataSubscription) (m : List (String × PolicyDataSubscription))
        → c.policy_data_subscriptions ≡ some m
        → (policy_data_subs_to_notify_post_procedure sub c).state ≡ record c {
          policy_data_subscriptions =
              some (insert (itoa c.policy_data_subscription_id_generator) sub m);
          policy_data_subscription_id_generator = increment c.policy_data_subscription_id_generator;
        }
    unfolding policy_data_subs_to_notify_post_procedure
    posted_policy sub m e = ground arith

    pub post_policy-IsSound :
        (sub : PolicyDataSubscription)
        → IsSound (suc k) (policy_data_subs_to_notify_post_procedure sub c).state
    post_policy-IsSound sub = elim (Option-cases c.policy_data_subscriptions) [
      | inl nil ↦ absurd (s.policy_made nil)
      | inr (m, made) ↦
          let l = later s in
          rw (posted_policy sub m made) (record {
            sdm = l.sdm;
            ee = l.ee;
            group = l.group;
            subscription_data = l.subscription_data;
            data_made = s.data_made;
            policy_made = λ e. cc;
            subscribed = s.subscribed;
          })
    ]
