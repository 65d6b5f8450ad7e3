-- ===== src/Sbi/Contexts.antt =====
-- internal/sbi/api_datarepository.go: the handlers of the subscriptions that the context holds.
use Prim.Native.String.{String}
use free5gc_udr.Base.{if◌then◌else◌}
use free5gc_udr.Gin.{M, emit, json, set_problem, problem, ◌>>◌}
use free5gc_udr.Sbi.Patterns.{is_ue_id, is_ue_group_id}
use free5gc_udr.Sbi.{Incoming, Outside, World, on_context, with_body, with_ue}
use free5gc_udr.Notify.{
  post_subscription_data_subscriptions_procedure, remove_subscription_data_subscriptions_procedure,
}
use free5gc_udr.EeGroup.{
  remove_ee_group_subscriptions_procedure, query_ee_group_subscriptions_procedure,
  update_ee_group_subscriptions_procedure, create_ee_group_subscriptions_procedure,
}
use free5gc_udr.Ee.{
  query_ee_subscriptions_procedure, create_ee_subscriptions_procedure,
  remove_ee_subscriptions_procedure, update_ee_subscriptions_procedure,
}
use free5gc_udr.Sdm.{
  update_sdm_subscriptions_procedure, create_sdm_subscriptions_procedure,
  remove_sdm_subscriptions_procedure, query_sdm_subscriptions_procedure,
}
use free5gc_udr.AmfInfo.{
  get_amf_subscription_info_procedure, remove_amf_subscriptions_info_procedure,
  modify_amf_subscription_info_procedure, create_amf_subscriptions_procedure,
}

module _ {Db : Type 0} where
  -- The answer 400 to an identifier that does not match its pattern.
  unfoldable pub invalid_parameter : String → M (World Db) (Unit {0})
  invalid_parameter detail = do
    emit (set_problem "INVALID_PARAMETER")
    emit (
        json 400 (
          problem (record {
            title = "Invalid parameter";
            status = 400;
            detail = detail;
            cause = "INVALID_PARAMETER";
          })))

module _ {Db : Type 0} (o : Outside Db) where
  unfoldable pub handle_create_sdm_subscriptions : Incoming → M (World Db) (Unit {0})
  handle_create_sdm_subscriptions req = with_body o.decode.sdm_subscription req (λ sub.
      with_ue req (λ ue_id. on_context (
        create_sdm_subscriptions_procedure sub "subscriptionData.contextData.amfNon3gppAccess"
          ue_id)))

  unfoldable pub handle_query_sdm_subscriptions : Incoming → M (World Db) (Unit {0})
  handle_query_sdm_subscriptions req =
      with_ue req (λ ue_id. on_context (query_sdm_subscriptions_procedure o.env.visit_sdm ue_id))

  unfoldable pub handle_remove_sdm_subscriptions : Incoming → M (World Db) (Unit {0})
  handle_remove_sdm_subscriptions req =
      with_ue req
        (λ ue_id. on_context (remove_sdm_subscriptions_procedure ue_id (req.param "subsId")))

  unfoldable pub handle_update_sdm_subscriptions : Incoming → M (World Db) (Unit {0})
  handle_update_sdm_subscriptions req = with_body o.decode.sdm_subscription req (λ sub.
      with_ue req
        (λ ue_id. on_context (update_sdm_subscriptions_procedure ue_id (req.param "subsId") sub)))

  unfoldable pub handle_create_ee_subscriptions : Incoming → M (World Db) (Unit {0})
  handle_create_ee_subscriptions req = with_body o.decode.ee_subscription req (λ sub.
      with_ue req (λ ue_id.
        if is_ue_id ue_id
        then on_context (create_ee_subscriptions_procedure ue_id sub)
        else invalid_parameter "Invalid ueId"))

  unfoldable pub handle_query_ee_subscriptions : Incoming → M (World Db) (Unit {0})
  handle_query_ee_subscriptions req = with_ue req (λ ue_id.
      if is_ue_id ue_id
      then on_context (query_ee_subscriptions_procedure o.env.visit_ee ue_id)
      else invalid_parameter "Invalid ueId")

  unfoldable pub handle_remove_ee_subscriptions : Incoming → M (World Db) (Unit {0})
  handle_remove_ee_subscriptions req =
      with_ue req
        (λ ue_id. on_context (remove_ee_subscriptions_procedure ue_id (req.param "subsId")))

  unfoldable pub handle_update_ee_subscriptions : Incoming → M (World Db) (Unit {0})
  handle_update_ee_subscriptions req = with_body o.decode.ee_subscription req (λ sub.
      with_ue req
        (λ ue_id. on_context (update_ee_subscriptions_procedure ue_id (req.param "subsId") sub)))

  unfoldable pub handle_create_amf_subscriptions : Incoming → M (World Db) (Unit {0})
  handle_create_amf_subscriptions req = with_body o.decode.amf_subscription_infos req (λ infos.
      with_ue req
        (λ ue_id. on_context (create_amf_subscriptions_procedure (req.param "subsId") ue_id infos)))

  unfoldable pub handle_remove_amf_subscriptions_info : Incoming → M (World Db) (Unit {0})
  handle_remove_amf_subscriptions_info req =
      with_ue req
        (λ ue_id. on_context (remove_amf_subscriptions_info_procedure (req.param "subsId") ue_id))

  unfoldable pub handle_modify_amf_subscription_info : Incoming → M (World Db) (Unit {0})
  handle_modify_amf_subscription_info req = with_body o.decode.patch_items req (λ items.
      with_ue req (λ ue_id.
        on_context
          (modify_amf_subscription_info_procedure o.env.patch ue_id (req.param "subsId") items)))

  unfoldable pub handle_get_amf_subscription_info : Incoming → M (World Db) (Unit {0})
  handle_get_amf_subscription_info req =
      with_ue req
        (λ ue_id. on_context (get_amf_subscription_info_procedure (req.param "subsId") ue_id))

  unfoldable pub handle_create_ee_group_subscriptions : Incoming → M (World Db) (Unit {0})
  handle_create_ee_group_subscriptions req = with_body o.decode.ee_subscription req (λ sub.
      if is_ue_group_id (req.param "ueGroupId")
      then on_context (create_ee_group_subscriptions_procedure (req.param "ueGroupId") sub)
      else invalid_parameter "Invalid ueGroupId")

  unfoldable pub handle_query_ee_group_subscriptions : Incoming → M (World Db) (Unit {0})
  handle_query_ee_group_subscriptions req =
      if is_ue_group_id (req.param "ueGroupId")
      then on_context
          (query_ee_group_subscriptions_procedure o.env.visit_group (req.param "ueGroupId"))
      else invalid_parameter "Invalid ueGroupId"

  unfoldable pub handle_remove_ee_group_subscriptions : Incoming → M (World Db) (Unit {0})
  handle_remove_ee_group_subscriptions req =
      on_context
        (remove_ee_group_subscriptions_procedure (req.param "ueGroupId") (req.param "subsId"))

  unfoldable pub handle_update_ee_group_subscriptions : Incoming → M (World Db) (Unit {0})
  handle_update_ee_group_subscriptions req = with_body o.decode.ee_subscription req (λ sub.
      on_context
        (update_ee_group_subscriptions_procedure (req.param "ueGroupId") (req.param "subsId") sub))

  unfoldable pub handle_post_subscription_data_subscriptions : Incoming → M (World Db) (Unit {0})
  handle_post_subscription_data_subscriptions req =
      with_body o.decode.data_subscription req
        (λ sub. on_context (post_subscription_data_subscriptions_procedure sub))

  unfoldable pub handle_remove_subscription_data_subscriptions : Incoming → M (World Db) (Unit {0})
  handle_remove_subscription_data_subscriptions req =
      on_context (remove_subscription_data_subscriptions_procedure (req.param "subsId"))
