-- ===== src/System.antt =====
-- The procedures of internal/sbi/processor that work on the context, as one machine: a request is a
-- call of one of them with its arguments.
pub mod Soundness
pub mod Changes
pub mod Handlers
pub mod Tables
pub mod Creations
pub mod Invariant
pub mod Panics
pub mod Pointers
use Prim.Native.String.{String}
use free5gc_udr.Base.{Bool, List, [], ◌∷◌, Option}
use free5gc_udr.Models.{
  SdmSubscription, EeSubscription, AmfSubscriptionInfo, PatchItem, SubscriptionDataSubscriptions,
  PolicyDataSubscription, TrafficInfluSub, Snssai,
}
use free5gc_udr.Context.{UdrContext, EeSubscriptionCollection, InfluEntry}
use free5gc_udr.Gin.{M}
use free5gc_udr.Sdm.{
  create_sdm_subscriptions_procedure, query_sdm_subscriptions_procedure,
  remove_sdm_subscriptions_procedure, update_sdm_subscriptions_procedure,
}
use free5gc_udr.Ee.{
  create_ee_subscriptions_procedure, query_ee_subscriptions_procedure,
  remove_ee_subscriptions_procedure, update_ee_subscriptions_procedure,
}
use free5gc_udr.AmfInfo.{
  create_amf_subscriptions_procedure, remove_amf_subscriptions_info_procedure,
  get_amf_subscription_info_procedure, modify_amf_subscription_info_procedure, Patched,
}
use free5gc_udr.EeGroup.{
  create_ee_group_subscriptions_procedure, query_ee_group_subscriptions_procedure,
  remove_ee_group_subscriptions_procedure, update_ee_group_subscriptions_procedure,
}
use free5gc_udr.Notify.{
  post_subscription_data_subscriptions_procedure, remove_subscription_data_subscriptions_procedure,
  policy_data_subs_to_notify_post_procedure, policy_data_subs_to_notify_subs_id_delete_procedure,
  policy_data_subs_to_notify_subs_id_put_procedure,
}
use free5gc_udr.Influence.{
  influence_data_subs_to_notify_get_procedure, influence_data_subs_to_notify_post_procedure,
  influence_data_subs_to_notify_put_procedure, influence_data_subs_to_notify_id_get_procedure,
  influence_data_subs_to_notify_delete_procedure,
}

-- What the runtime and the JSON packages decide: the orders of the ranges over maps, the result of a
-- JSON patch, and the comparison of two subscriptions of one type.
pub record Environment : Type 0 where
  pub visit_sdm : List (String × SdmSubscription) → List (String × SdmSubscription)
  pub visit_ee : List (String × EeSubscriptionCollection) → List (String × EeSubscriptionCollection)
  pub visit_group : List (String × EeSubscription) → List (String × EeSubscription)
  pub visit_influence : List (String × InfluEntry) → List (String × InfluEntry)
  pub patch : List PatchItem → List AmfSubscriptionInfo → Patched
  pub same : TrafficInfluSub → TrafficInfluSub → Bool

pub data Request : Type 0 where
  create_sdm : SdmSubscription → String → String → Request
  query_sdm : String → Request
  remove_sdm : String → String → Request
  update_sdm : String → String → SdmSubscription → Request
  create_ee : String → EeSubscription → Request
  query_ee : String → Request
  remove_ee : String → String → Request
  update_ee : String → String → EeSubscription → Request
  create_infos : String → String → Option (List AmfSubscriptionInfo) → Request
  remove_infos : String → String → Request
  get_infos : String → String → Request
  modify_infos : String → String → List PatchItem → Request
  create_group : String → EeSubscription → Request
  query_group : String → Request
  remove_group : String → String → Request
  update_group : String → String → EeSubscription → Request
  post_data : SubscriptionDataSubscriptions → Request
  remove_data : String → Request
  post_policy : PolicyDataSubscription → Request
  delete_policy : String → Request
  put_policy : String → PolicyDataSubscription → Request
  list_influence : String → Option Snssai → String → String → Request
  post_influence : String → TrafficInfluSub → Request
  put_influence : String → TrafficInfluSub → Request
  get_influence : String → Request
  delete_influence : String → Request

unfoldable pub handle : Environment → Request → M UdrContext (Unit {0})
handle env (create_sdm sub coll ue) = create_sdm_subscriptions_procedure sub coll ue
handle env (query_sdm ue) = query_sdm_subscriptions_procedure env.visit_sdm ue
handle env (remove_sdm ue id) = remove_sdm_subscriptions_procedure ue id
handle env (update_sdm ue id sub) = update_sdm_subscriptions_procedure ue id sub
handle env (create_ee ue ee) = create_ee_subscriptions_procedure ue ee
handle env (query_ee ue) = query_ee_subscriptions_procedure env.visit_ee ue
handle env (remove_ee ue id) = remove_ee_subscriptions_procedure ue id
handle env (update_ee ue id ee) = update_ee_subscriptions_procedure ue id ee
handle env (create_infos id ue infos) = create_amf_subscriptions_procedure id ue infos
handle env (remove_infos id ue) = remove_amf_subscriptions_info_procedure id ue
handle env (get_infos id ue) = get_amf_subscription_info_procedure id ue
handle env (modify_infos ue id items) = modify_amf_subscription_info_procedure env.patch ue id items
handle env (create_group group ee) = create_ee_group_subscriptions_procedure group ee
handle env (query_group group) = query_ee_group_subscriptions_procedure env.visit_group group
handle env (remove_group group id) = remove_ee_group_subscriptions_procedure group id
handle env (update_group group id ee) = update_ee_group_subscriptions_procedure group id ee
handle env (post_data sub) = post_subscription_data_subscriptions_procedure sub
handle env (remove_data id) = remove_subscription_data_subscriptions_procedure id
handle env (post_policy sub) = policy_data_subs_to_notify_post_procedure sub
handle env (delete_policy id) = policy_data_subs_to_notify_subs_id_delete_procedure id
handle env (put_policy id sub) = policy_data_subs_to_notify_subs_id_put_procedure id sub
handle env (list_influence dnn snssai group supi) =
    influence_data_subs_to_notify_get_procedure env.visit_influence dnn snssai group supi
handle env (post_influence id sub) = influence_data_subs_to_notify_post_procedure env.same id sub
handle env (put_influence id sub) = influence_data_subs_to_notify_put_procedure env.same id sub
handle env (get_influence id) = influence_data_subs_to_notify_id_get_procedure id
handle env (delete_influence id) = influence_data_subs_to_notify_delete_procedure id

-- The context after the requests of a list, one after another.
unfoldable pub serve : Environment → List Request → UdrContext → UdrContext
serve env [] c = c
serve env (r ∷ rs) c = serve env rs (handle env r c).state
