-- ===== src/Sbi/Server/Requests/Subscriptions.antt =====
-- The handlers of the routes of subscription data, as requests of the processor.
use free5gc_udr.System.{
  handle, create_sdm, query_sdm, remove_sdm, update_sdm, create_infos, remove_infos, get_infos,
  modify_infos, post_data, remove_data,
}
use free5gc_udr.Sbi.{Outside}
use free5gc_udr.Context.{udr_dr_res_uri_prefix}
use free5gc_udr.Sbi.Expected.{expected}
use free5gc_udr.Sbi.Routes.{to_upper, join_paths}
use free5gc_udr.Sbi.Steps.{
  EachOneRequest, finished, ◌also◌, on_db-IsOneRequest, on_context-IsOneRequest, emit-IsOneRequest,
  with_ue-IsOneRequest, with_body-IsOneRequest, ue_db, body_ue_db,
}
use free5gc_udr.Sbi.Routes.{index}
use free5gc_udr.Sbi.Writes.{
  handle_amf_context_3gpp, handle_create_amf_context_3gpp, handle_amf_context_non_3gpp,
  handle_create_amf_context_non_3gpp, handle_create_authentication_status,
  handle_modify_authentication, handle_create_authentication_so_r,
  handle_create_smf_context_non_3gpp, handle_delete_smf_context, handle_create_smsf_context_3gpp,
  handle_delete_smsf_context_3gpp, handle_create_smsf_context_non_3gpp,
  handle_delete_smsf_context_non_3gpp, handle_patch_oper_spec_data, handle_modify_pp_data,
}
use free5gc_udr.Sbi.Queries.{
  handle_query_amf_context_3gpp, handle_query_amf_context_non_3gpp, handle_query_am_data,
  handle_query_authentication_status, handle_query_auth_subs_data, handle_query_auth_so_r,
  handle_query_provisioned_data, handle_query_smf_registration, handle_query_smf_reg_list,
  handle_query_smf_select_data, handle_query_smsf_context_3gpp, handle_query_smsf_context_non_3gpp,
  handle_query_sms_mng_data, handle_query_sms_data, handle_query_sm_data, handle_query_trace_data,
  handle_query_ee_data, handle_query_oper_spec_data, handle_get_pp_data, handle_get_identity_data,
  handle_get_odb_data,
}
use free5gc_udr.Sbi.Contexts.{
  handle_remove_sdm_subscriptions, handle_update_sdm_subscriptions, handle_create_sdm_subscriptions,
  handle_query_sdm_subscriptions, handle_create_amf_subscriptions,
  handle_modify_amf_subscription_info, handle_remove_amf_subscriptions_info,
  handle_get_amf_subscription_info, handle_post_subscription_data_subscriptions,
  handle_remove_subscription_data_subscriptions,
}
use free5gc_udr.Sbi.Applications.{handle_get_shared_data}
use free5gc_udr.Sbi.Routes.Subscriptions.{access_routes, context_routes, subscription_routes}

module _ {Db : Type 0} (o : Outside Db) where
  pub access_routes-EachOneRequest : EachOneRequest o udr_dr_res_uri_prefix (access_routes o)
  unfolding access_routes to_upper join_paths expected handle index handle_amf_context_3gpp
      handle_create_amf_context_3gpp handle_query_amf_context_3gpp handle_amf_context_non_3gpp
      handle_create_amf_context_non_3gpp handle_query_amf_context_non_3gpp handle_query_am_data
      handle_query_authentication_status handle_create_authentication_status
      handle_modify_authentication handle_query_auth_subs_data handle_create_authentication_so_r
      handle_query_auth_so_r
  access_routes-EachOneRequest =
      (λ req. emit-IsOneRequest _)
      also (λ req. body_ue_db o.decode.patch_items req _)
      also (λ req. body_ue_db (o.decode.value "Amf3GppAccessRegistration") req _)
      also (λ req. ue_db req _)
      also (λ req. body_ue_db o.decode.patch_items req _)
      also (λ req. body_ue_db (o.decode.value "AmfNon3GppAccessRegistration") req _)
      also (λ req. ue_db req _)
      also (λ req. ue_db req _)
      also (λ req. ue_db req _)
      also (λ req. body_ue_db (o.decode.value "AuthEvent") req _)
      also (λ req. body_ue_db o.decode.patch_items req _)
      also (λ req. ue_db req _)
      also (λ req. body_ue_db (o.decode.value "SorData") req _)
      also (λ req. ue_db req _)
      also finished

  pub context_routes-EachOneRequest : EachOneRequest o udr_dr_res_uri_prefix (context_routes o)
  unfolding context_routes to_upper join_paths expected handle handle_query_provisioned_data
      handle_remove_sdm_subscriptions handle_update_sdm_subscriptions
      handle_create_sdm_subscriptions handle_query_sdm_subscriptions
      handle_create_smf_context_non_3gpp handle_delete_smf_context handle_query_smf_registration
      handle_query_smf_reg_list handle_query_smf_select_data handle_create_smsf_context_3gpp
      handle_delete_smsf_context_3gpp handle_query_smsf_context_3gpp
      handle_create_smsf_context_non_3gpp handle_delete_smsf_context_non_3gpp
      handle_query_smsf_context_non_3gpp handle_query_sms_mng_data handle_query_sms_data
      handle_query_sm_data handle_query_trace_data
  context_routes-EachOneRequest =
      (λ req. ue_db req _)
      also (λ req.
          with_ue-IsOneRequest req
            (λ ue_id. on_context-IsOneRequest (remove_sdm ue_id (req.param "subsId"))))
      also (λ req. with_body-IsOneRequest o.decode.sdm_subscription req (λ sub.
          with_ue-IsOneRequest req
            (λ ue_id. on_context-IsOneRequest (update_sdm ue_id (req.param "subsId") sub))))
      also (λ req. with_body-IsOneRequest o.decode.sdm_subscription req (λ sub.
          with_ue-IsOneRequest req (λ ue_id.
            on_context-IsOneRequest
              (create_sdm sub "subscriptionData.contextData.amfNon3gppAccess" ue_id))))
      also (λ req. with_ue-IsOneRequest req (λ ue_id. on_context-IsOneRequest (query_sdm ue_id)))
      also (λ req. body_ue_db (o.decode.value "SmfRegistration") req _)
      also (λ req. ue_db req _)
      also (λ req. ue_db req _)
      also (λ req. ue_db req _)
      also (λ req. ue_db req _)
      also (λ req. body_ue_db (o.decode.value "SmsfRegistration") req _)
      also (λ req. ue_db req _)
      also (λ req. ue_db req _)
      also (λ req. body_ue_db (o.decode.value "SmsfRegistration") req _)
      also (λ req. ue_db req _)
      also (λ req. ue_db req _)
      also (λ req. ue_db req _)
      also (λ req. ue_db req _)
      also (λ req. ue_db req _)
      also (λ req. ue_db req _)
      also finished

  pub subscription_routes-EachOneRequest :
      EachOneRequest o udr_dr_res_uri_prefix (subscription_routes o)
  unfolding subscription_routes to_upper join_paths expected handle handle_create_amf_subscriptions
      handle_modify_amf_subscription_info handle_remove_amf_subscriptions_info
      handle_get_amf_subscription_info handle_get_shared_data
      handle_post_subscription_data_subscriptions handle_remove_subscription_data_subscriptions
      handle_query_ee_data handle_patch_oper_spec_data handle_query_oper_spec_data
      handle_get_pp_data handle_modify_pp_data handle_get_identity_data handle_get_odb_data
  subscription_routes-EachOneRequest =
      (λ req. with_body-IsOneRequest o.decode.amf_subscription_infos req (λ infos.
        with_ue-IsOneRequest req
          (λ ue_id. on_context-IsOneRequest (create_infos (req.param "subsId") ue_id infos))))
      also (λ req. with_body-IsOneRequest o.decode.patch_items req (λ items.
          with_ue-IsOneRequest req
            (λ ue_id. on_context-IsOneRequest (modify_infos ue_id (req.param "subsId") items))))
      also (λ req.
          with_ue-IsOneRequest req
            (λ ue_id. on_context-IsOneRequest (remove_infos (req.param "subsId") ue_id)))
      also (λ req.
          with_ue-IsOneRequest req
            (λ ue_id. on_context-IsOneRequest (get_infos (req.param "subsId") ue_id)))
      also (λ req. on_db-IsOneRequest _)
      also (λ req.
          with_body-IsOneRequest o.decode.data_subscription req
            (λ sub. on_context-IsOneRequest (post_data sub)))
      also (λ req. on_context-IsOneRequest (remove_data (req.param "subsId")))
      also (λ req. ue_db req _)
      also (λ req. body_ue_db o.decode.patch_items req _)
      also (λ req. ue_db req _)
      also (λ req. ue_db req _)
      also (λ req. body_ue_db o.decode.patch_items req _)
      also (λ req. ue_db req _)
      also (λ req. ue_db req _)
      also finished
