-- ===== src/System/Tables.antt =====
-- Each procedure on groups, on subscriptions to changes and on influence subscriptions that issues
-- no identifier makes a change of System/Changes.antt; so does every query.
use Prim.Native.String.{String}
use free5gc_udr.Base.{
  inl, inr, Bool, Bool-cases, List, Option, some, arith, entries, lookup, insert, delete,
  Option-cases,
}
use free5gc_udr.Models.{EeSubscription, PolicyDataSubscription, TrafficInfluSub, Snssai}
use free5gc_udr.Context.{UdrContext, EeSubscriptionCollection, InfluEntry}
use free5gc_udr.Ee.{query_ee_subscriptions_procedure}
use free5gc_udr.EeGroup.{
  store_group, query_ee_group_subscriptions_procedure, remove_ee_group_subscriptions_procedure,
  update_ee_group_subscriptions_procedure,
}
use free5gc_udr.Notify.{
  delete_map, remove_subscription_data_subscriptions_procedure,
  policy_data_subs_to_notify_subs_id_delete_procedure,
  policy_data_subs_to_notify_subs_id_put_procedure,
}
use free5gc_udr.Influence.{
  store_sub, rejection, unchanged, influence_data_subs_to_notify_get_procedure,
  influence_data_subs_to_notify_put_procedure, influence_data_subs_to_notify_post_procedure,
  influence_data_subs_to_notify_id_get_procedure, influence_data_subs_to_notify_delete_procedure,
}
use free5gc_udr.System.Changes.{Change}
use free5gc_udr.System.Handlers.{change_of, keys_of_delete, keys_of_insert}

module _ (c : UdrContext) (group id : String) where
  pub remove_group-Change : Change c (remove_ee_group_subscriptions_procedure group id c).state
  unfolding remove_ee_group_subscriptions_procedure
  remove_group-Change = elim (Option-cases (lookup group c.ue_group_collection)) [
    | inl unknown ↦ change_of (ground arith) Change.same
    | inr (subs, known) ↦ elim (Option-cases (lookup id (entries subs.ee_subscriptions))) [
      | inl missing ↦ change_of (ground arith) Change.same
      | inr (s, found) ↦
          change_of {t = store_group group (some (delete id (entries subs.ee_subscriptions))) c}
            (ground arith)
            (Change.group_map group _ λ j v e.
              let (w, f) = keys_of_delete id (entries subs.ee_subscriptions) j v e in
              (w, ground arith))
    ]
  ]

  pub update_group-Change :
      (ee : EeSubscription) → Change c (update_ee_group_subscriptions_procedure group id ee c).state
  unfolding update_ee_group_subscriptions_procedure lookup
  update_group-Change ee = elim (Option-cases (lookup group c.ue_group_collection)) [
    | inl unknown ↦ change_of (ground arith) Change.same
    | inr (subs, known) ↦ elim (Option-cases (lookup id (entries subs.ee_subscriptions))) [
      | inl missing ↦ change_of (ground arith) Change.same
      | inr (s, found) ↦
          change_of {t = store_group group (some (insert id ee (entries subs.ee_subscriptions))) c}
            (ground arith)
            (Change.group_map group _ λ j v e.
              let (w, f) = keys_of_insert id ee s (entries subs.ee_subscriptions) found j v e in
              (w, ground arith))
    ]
  ]

module _ (c : UdrContext) where
  pub query_group-Change :
      (visit : List (String × EeSubscription) → List (String × EeSubscription)) (group : String)
      → Change c (query_ee_group_subscriptions_procedure visit group c).state
  unfolding query_ee_group_subscriptions_procedure
  query_group-Change visit group = change_of (ground arith) Change.same

  pub query_ee-Change :
      (visit : List (String × EeSubscriptionCollection) → List (String × EeSubscriptionCollection))
      (ue : String)
      → Change c (query_ee_subscriptions_procedure visit ue c).state
  unfolding query_ee_subscriptions_procedure
  query_ee-Change visit ue = change_of (ground arith) Change.same

  pub remove_data-Change :
      (id : String) → Change c (remove_subscription_data_subscriptions_procedure id c).state
  unfolding remove_subscription_data_subscriptions_procedure delete_map lookup
  remove_data-Change id =
      elim (Option-cases (lookup id (entries c.subscription_data_subscriptions))) [
        | inl missing ↦ change_of (ground arith) Change.same
        | inr (s, found) ↦
            change_of
              {t = record c {
                subscription_data_subscriptions =
                    some (delete id (entries c.subscription_data_subscriptions));
              }}
              (ground arith)
              (Change.data_map _ (keys_of_delete id (entries c.subscription_data_subscriptions)))
      ]

  pub delete_policy-Change :
      (id : String) → Change c (policy_data_subs_to_notify_subs_id_delete_procedure id c).state
  unfolding policy_data_subs_to_notify_subs_id_delete_procedure delete_map
  delete_policy-Change id =
      change_of
        {t = record c { policy_data_subscriptions = delete_map id c.policy_data_subscriptions }}
        (ground arith) (Change.policy_map _ (λ h e. ground arith))

  pub put_policy-Change :
      (id : String) (sub : PolicyDataSubscription)
      → Change c (policy_data_subs_to_notify_subs_id_put_procedure id sub c).state
  unfolding policy_data_subs_to_notify_subs_id_put_procedure
  put_policy-Change id sub = elim (Option-cases c.policy_data_subscriptions) [
    | inl nil ↦ change_of (ground arith) Change.same
    | inr (m, made) ↦
        change_of {t = record c { policy_data_subscriptions = some (insert id sub m) }}
          (ground arith) (Change.policy_map _ (λ h e. cc))
  ]

  pub list_influence-Change :
      (visit : List (String × InfluEntry) → List (String × InfluEntry)) (dnn : String)
      (snssai : Option Snssai) (group supi : String)
      → Change c (influence_data_subs_to_notify_get_procedure visit dnn snssai group supi c).state
  unfolding influence_data_subs_to_notify_get_procedure
  list_influence-Change visit dnn snssai group supi = Change.same

  pub get_influence-Change :
      (id : String) → Change c (influence_data_subs_to_notify_id_get_procedure id c).state
  unfolding influence_data_subs_to_notify_id_get_procedure
  get_influence-Change id = change_of (ground arith) Change.same

  pub delete_influence-Change :
      (id : String) → Change c (influence_data_subs_to_notify_delete_procedure id c).state
  unfolding influence_data_subs_to_notify_delete_procedure
  delete_influence-Change id = Change.influence_map _

  module _ (eq : TrafficInfluSub → TrafficInfluSub → Bool) (id : String)
      (sub : TrafficInfluSub) where
    pub put_influence-Change :
        Change c (influence_data_subs_to_notify_put_procedure eq id sub c).state
    unfolding influence_data_subs_to_notify_put_procedure
    put_influence-Change = elim (Option-cases (rejection sub)) [
      | inr (detail, e) ↦ change_of (ground arith) Change.same
      | inl fine ↦ elim (Bool-cases (unchanged eq sub (lookup id c.influence_data_subscriptions))) [
        | inl e ↦ change_of (ground arith) Change.same
        | inr e ↦ change_of {t = store_sub id sub c} (ground arith) (Change.influence_map _)
      ]
    ]

    pub post_influence-Change :
        Change c (influence_data_subs_to_notify_post_procedure eq id sub c).state
    unfolding influence_data_subs_to_notify_post_procedure
    post_influence-Change = elim (Option-cases (rejection sub)) [
      | inr (detail, e) ↦ change_of (ground arith) Change.same
      | inl fine ↦ elim (Bool-cases (unchanged eq sub (lookup id c.influence_data_subscriptions))) [
        | inl e ↦ change_of (ground arith) Change.same
        | inr e ↦ change_of {t = store_sub id sub c} (ground arith) (Change.influence_map _)
      ]
    ]
