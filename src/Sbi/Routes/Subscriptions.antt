-- ===== src/Sbi/Routes/Subscriptions.antt =====
-- internal/sbi/api_datarepository.go: the routes of subscription data.
use free5gc_udr.Base.{List, [], ◌∷◌}
use free5gc_udr.Sbi.Writes.{
  handle_amf_context_3gpp, handle_create_amf_context_3gpp, handle_amf_context_non_3gpp,
  handle_create_amf_context_non_3gpp, handle_create_authentication_status,
  handle_modify_authentication, handle_create_authentication_so_r,
  handle_create_smf_context_non_3gpp, handle_delete_smf_context, handle_create_smsf_context_3gpp,
  handle_delete_smsf_context_3gpp, handle_create_smsf_context_non_3gpp,
  handle_delete_smsf_context_non_3gpp, handle_patch_oper_spec_data, handle_modify_pp_data,
}
use free5gc_udr.Sbi.Queries.{
  handle_query_amf_context_3gpp, handle_query_amf_context_non_3gpp, handle_query_am_data,
  handle_query_authentication_status, handle_query_auth_subs_data, handle_query_auth_so_r,
  handle_query_provisioned_data, handle_query_smf_registration, handle_query_smf_reg_list,
  handle_query_smf_select_data, handle_query_smsf_context_3gpp, handle_query_smsf_context_non_3gpp,
  handle_query_sms_mng_data, handle_query_sms_data, handle_query_sm_data, handle_query_trace_data,
  handle_query_ee_data, handle_query_oper_spec_data, handle_get_pp_data, handle_get_identity_data,
  handle_get_odb_data,
}
use free5gc_udr.Sbi.Contexts.{
  handle_remove_sdm_subscriptions, handle_update_sdm_subscriptions, handle_create_sdm_subscriptions,
  handle_query_sdm_subscriptions, handle_create_amf_subscriptions,
  handle_modify_amf_subscription_info, handle_remove_amf_subscriptions_info,
  handle_get_amf_subscription_info, handle_post_subscription_data_subscriptions,
  handle_remove_subscription_data_subscriptions,
}
use free5gc_udr.Sbi.Applications.{handle_get_shared_data}
use free5gc_udr.Sbi.{Outside}
use free5gc_udr.Sbi.Routes.{Route, route, to_upper, index}

module _ {Db : Type 0} (o : Outside Db) where
  -- The index, and the registrations and the authentication of a UE.
  unfoldable pub access_routes : List (Route Db)
  access_routes =
      route "Index" "GET" "/" index
      ∷ route "AmfContext3gpp" (to_upper "Patch")
          "/subscription-data/:ueId/:servingPlmnId/amf-3gpp-access" (handle_amf_context_3gpp o)
      ∷ route "CreateAmfContext3gpp" (to_upper "Put")
          "/subscription-data/:ueId/:servingPlmnId/amf-3gpp-access"
          (handle_create_amf_context_3gpp o)
      ∷ route "QueryAmfContext3gpp" (to_upper "Get")
          "/subscription-data/:ueId/:servingPlmnId/amf-3gpp-access"
          (handle_query_amf_context_3gpp o)
      ∷ route "AmfContextNon3gpp" (to_upper "Patch")
          "/subscription-data/:ueId/:servingPlmnId/amf-non-3gpp-access"
          (handle_amf_context_non_3gpp o)
      ∷ route "CreateAmfContextNon3gpp" (to_upper "Put")
          "/subscription-data/:ueId/:servingPlmnId/amf-non-3gpp-access"
          (handle_create_amf_context_non_3gpp o)
      ∷ route "QueryAmfContextNon3gpp" (to_upper "Get")
          "/subscription-data/:ueId/:servingPlmnId/amf-non-3gpp-access"
          (handle_query_amf_context_non_3gpp o)
      ∷ route "QueryAmData" (to_upper "Get")
          "/subscription-data/:ueId/:servingPlmnId/provisioned-data/am-data"
          (handle_query_am_data o)
      ∷ route "QueryAuthenticationStatus" (to_upper "Get")
          "/subscription-data/:ueId/:servingPlmnId/authentication-status"
          (handle_query_authentication_status o)
      ∷ route "CreateAuthenticationStatus" (to_upper "Put")
          "/subscription-data/:ueId/:servingPlmnId/authentication-status"
          (handle_create_authentication_status o)
      ∷ route "ModifyAuthentication" (to_upper "Patch")
          "/subscription-data/:ueId/:servingPlmnId/authentication-subscription"
          (handle_modify_authentication o)
      ∷ route "QueryAuthSubsData" (to_upper "Get")
          "/subscription-data/:ueId/:servingPlmnId/authentication-subscription"
          (handle_query_auth_subs_data o)
      ∷ route "CreateAuthenticationSoR" (to_upper "Put")
          "/subscription-data/:ueId/:servingPlmnId/sor-data" (handle_create_authentication_so_r o)
      ∷ route "QueryAuthSoR" (to_upper "Get") "/subscription-data/:ueId/:servingPlmnId/sor-data"
          (handle_query_auth_so_r o)
      ∷ []

  -- Provisioned data, SDM subscriptions and registrations of a UE.
  unfoldable pub context_routes : List (Route Db)
  context_routes =
      route "QueryProvisionedData" (to_upper "Get")
        "/subscription-data/:ueId/:servingPlmnId/provisioned-data" (handle_query_provisioned_data o)
      ∷ route "RemovesdmSubscriptions" (to_upper "Delete")
          "/subscription-data/:ueId/:servingPlmnId/sdm-subscriptions/:subsId"
          (handle_remove_sdm_subscriptions o)
      ∷ route "Updatesdmsubscriptions" (to_upper "Put")
          "/subscription-data/:ueId/:servingPlmnId/sdm-subscriptions/:subsId"
          (handle_update_sdm_subscriptions o)
      ∷ route "CreateSdmSubscriptions" (to_upper "Post")
          "/subscription-data/:ueId/:servingPlmnId/sdm-subscriptions"
          (handle_create_sdm_subscriptions o)
      ∷ route "Querysdmsubscriptions" (to_upper "Get")
          "/subscription-data/:ueId/:servingPlmnId/sdm-subscriptions"
          (handle_query_sdm_subscriptions o)
      ∷ route "CreateSmfContextNon3gpp" (to_upper "Put")
          "/subscription-data/:ueId/:servingPlmnId/smf-registrations/:pduSessionId"
          (handle_create_smf_context_non_3gpp o)
      ∷ route "DeleteSmfContext" (to_upper "Delete")
          "/subscription-data/:ueId/:servingPlmnId/smf-registrations/:pduSessionId"
          (handle_delete_smf_context o)
      ∷ route "QuerySmfRegistration" (to_upper "Get")
          "/subscription-data/:ueId/:servingPlmnId/smf-registrations/:pduSessionId"
          (handle_query_smf_registration o)
      ∷ route "QuerySmfRegList" (to_upper "Get")
          "/subscription-data/:ueId/:servingPlmnId/smf-registrations" (handle_query_smf_reg_list o)
      ∷ route "QuerySmfSelectData" (to_upper "Get")
          "/subscription-data/:ueId/:servingPlmnId/provisioned-data/smf-selection-subscription-data"
          (handle_query_smf_select_data o)
      ∷ route "CreateSmsfContext3gpp" (to_upper "Put")
          "/subscription-data/:ueId/:servingPlmnId/smsf-3gpp-access"
          (handle_create_smsf_context_3gpp o)
      ∷ route "DeleteSmsfContext3gpp" (to_upper "Delete")
          "/subscription-data/:ueId/:servingPlmnId/smsf-3gpp-access"
          (handle_delete_smsf_context_3gpp o)
      ∷ route "QuerySmsfContext3gpp" (to_upper "Get")
          "/subscription-data/:ueId/:servingPlmnId/smsf-3gpp-access"
          (handle_query_smsf_context_3gpp o)
      ∷ route "CreateSmsfContextNon3gpp" (to_upper "Put")
          "/subscription-data/:ueId/:servingPlmnId/smsf-non-3gpp-access"
          (handle_create_smsf_context_non_3gpp o)
      ∷ route "DeleteSmsfContextNon3gpp" (to_upper "Delete")
          "/subscription-data/:ueId/:servingPlmnId/smsf-non-3gpp-access"
          (handle_delete_smsf_context_non_3gpp o)
      ∷ route "QuerySmsfContextNon3gpp" (to_upper "Get")
          "/subscription-data/:ueId/:servingPlmnId/smsf-non-3gpp-access"
          (handle_query_smsf_context_non_3gpp o)
      ∷ route "QuerySmsMngData" (to_upper "Get")
          "/subscription-data/:ueId/:servingPlmnId/provisioned-data/sms-mng-data"
          (handle_query_sms_mng_data o)
      ∷ route "QuerySmsData" (to_upper "Get")
          "/subscription-data/:ueId/:servingPlmnId/provisioned-data/sms-data"
          (handle_query_sms_data o)
      ∷ route "QuerySmData" (to_upper "Get")
          "/subscription-data/:ueId/:servingPlmnId/provisioned-data/sm-data"
          (handle_query_sm_data o)
      ∷ route "QueryTraceData" (to_upper "Get")
          "/subscription-data/:ueId/:servingPlmnId/provisioned-data/trace-data"
          (handle_query_trace_data o)
      ∷ []

  -- AMF subscription infos, shared data and the data of a UE.
  unfoldable pub subscription_routes : List (Route Db)
  subscription_routes =
      route "CreateAMFSubscriptions" (to_upper "Put")
        "/subscription-data/:ueId/:servingPlmnId/ee-subscriptions/:subsId/amf-subscriptions"
        (handle_create_amf_subscriptions o)
      ∷ route "ModifyAmfSubscriptionInfo" (to_upper "Patch")
          "/subscription-data/:ueId/:servingPlmnId/ee-subscriptions/:subsId/amf-subscriptions"
          (handle_modify_amf_subscription_info o)
      ∷ route "RemoveAmfSubscriptionsInfo" (to_upper "Delete")
          "/subscription-data/:ueId/:servingPlmnId/ee-subscriptions/:subsId/amf-subscriptions"
          (handle_remove_amf_subscriptions_info o)
      ∷ route "GetAmfSubscriptionInfo" (to_upper "Get")
          "/subscription-data/:ueId/:servingPlmnId/ee-subscriptions/:subsId/amf-subscriptions"
          (handle_get_amf_subscription_info o)
      ∷ route "GetSharedData" (to_upper "Get") "/subscription-data/shared-data"
          (handle_get_shared_data o)
      ∷ route "PostSubscriptionDataSubscriptions" (to_upper "Post")
          "/subscription-data/subs-to-notify" (handle_post_subscription_data_subscriptions o)
      ∷ route "RemovesubscriptionDataSubscriptions" (to_upper "Delete")
          "/subscription-data/subs-to-notify/:subsId"
          (handle_remove_subscription_data_subscriptions o)
      ∷ route "QueryEEData" (to_upper "Get") "/subscription-data/:ueId/ee-profile-data"
          (handle_query_ee_data o)
      ∷ route "PatchOperSpecData" (to_upper "Patch")
          "/subscription-data/:ueId/operator-specific-data" (handle_patch_oper_spec_data o)
      ∷ route "QueryOperSpecData" (to_upper "Get") "/subscription-data/:ueId/operator-specific-data"
          (handle_query_oper_spec_data o)
      ∷ route "GetppData" (to_upper "Get") "/subscription-data/:ueId/pp-data" (handle_get_pp_data o)
      ∷ route "ModifyPpData" (to_upper "Patch") "/subscription-data/:ueId/pp-data"
          (handle_modify_pp_data o)
      ∷ route "GetIdentityData" (to_upper "Get") "/subscription-data/:ueId/identity-data"
          (handle_get_identity_data o)
      ∷ route "GetOdbData" (to_upper "Get")
          "/subscription-data/:ueId/operator-determined-barring-data" (handle_get_odb_data o)
      ∷ []
