-- ===== src/Sbi/Routes/Policies.antt =====
-- internal/sbi/api_datarepository.go: the routes of policy data, influence data and PFDs.
use free5gc_udr.Base.{List, [], ◌∷◌}
use free5gc_udr.Sbi.Applications.{
  handle_application_data_influence_data_get,
  handle_application_data_influence_data_subs_to_notify_subscription_id_delete,
  handle_application_data_influence_data_subs_to_notify_subscription_id_get,
  handle_application_data_influence_data_subs_to_notify_subscription_id_put,
  handle_application_data_pfds_app_id_delete, handle_application_data_pfds_app_id_get,
  handle_application_data_pfds_app_id_put, handle_application_data_pfds_get,
}
use free5gc_udr.Sbi.Policies.{
  handle_policy_data_bdt_data_bdt_reference_id_delete,
  handle_policy_data_bdt_data_bdt_reference_id_get,
  handle_policy_data_bdt_data_bdt_reference_id_put, handle_policy_data_bdt_data_get,
  handle_policy_data_plmns_plmn_id_ue_policy_set_get,
  handle_policy_data_sponsor_connectivity_data_sponsor_id_get,
  handle_policy_data_subs_to_notify_post, handle_policy_data_subs_to_notify_subs_id_delete,
  handle_policy_data_subs_to_notify_subs_id_put, handle_policy_data_ues_ue_id_am_data_get,
  handle_policy_data_ues_ue_id_operator_specific_data_get,
  handle_policy_data_ues_ue_id_operator_specific_data_patch,
  handle_policy_data_ues_ue_id_operator_specific_data_put, handle_policy_data_ues_ue_id_sm_data_get,
  handle_policy_data_ues_ue_id_sm_data_patch,
  handle_policy_data_ues_ue_id_sm_data_usage_mon_id_delete,
  handle_policy_data_ues_ue_id_sm_data_usage_mon_id_get,
  handle_policy_data_ues_ue_id_sm_data_usage_mon_id_put,
  handle_policy_data_ues_ue_id_ue_policy_set_get, handle_policy_data_ues_ue_id_ue_policy_set_patch,
  handle_policy_data_ues_ue_id_ue_policy_set_put,
}
use free5gc_udr.Sbi.{Outside}
use free5gc_udr.Sbi.Routes.{Route, route, to_upper}

module _ {Db : Type 0} (o : Outside Db) where
  -- Influence data and PFDs. The path of a subscription has its fixed segment as a parameter.
  unfoldable pub influence_data_routes : List (Route Db)
  influence_data_routes =
      route "ApplicationDataInfluenceDataGet" (to_upper "Get") "/application-data/influenceData"
        (handle_application_data_influence_data_get o)
      ∷ route "ApplicationDataInfluenceDataSubsToNotifySubscriptionIdDelete" (to_upper "Delete")
          "/application-data/influenceData/:influenceId/:subscriptionId"
          (handle_application_data_influence_data_subs_to_notify_subscription_id_delete o)
      ∷ route "ApplicationDataInfluenceDataSubsToNotifySubscriptionIdGet" (to_upper "Get")
          "/application-data/influenceData/:influenceId/:subscriptionId"
          (handle_application_data_influence_data_subs_to_notify_subscription_id_get o)
      ∷ route "ApplicationDataInfluenceDataSubsToNotifySubscriptionIdPut" (to_upper "Put")
          "/application-data/influenceData/:influenceId/:subscriptionId"
          (handle_application_data_influence_data_subs_to_notify_subscription_id_put o)
      ∷ route "ApplicationDataPfdsAppIdDelete" (to_upper "Delete") "/application-data/pfds/:appId"
          (handle_application_data_pfds_app_id_delete o)
      ∷ route "ApplicationDataPfdsAppIdGet" (to_upper "Get") "/application-data/pfds/:appId"
          (handle_application_data_pfds_app_id_get o)
      ∷ route "ApplicationDataPfdsAppIdPut" (to_upper "Put") "/application-data/pfds/:appId"
          (handle_application_data_pfds_app_id_put o)
      ∷ route "ApplicationDataPfdsGet" (to_upper "Get") "/application-data/pfds"
          (handle_application_data_pfds_get o)
      ∷ []

  -- Policy data.
  unfoldable pub policy_data_routes : List (Route Db)
  policy_data_routes =
      route "PolicyDataBdtDataBdtReferenceIdDelete" (to_upper "Delete")
        "/policy-data/bdt-data/:bdtReferenceId"
        (handle_policy_data_bdt_data_bdt_reference_id_delete o)
      ∷ route "PolicyDataBdtDataBdtReferenceIdGet" (to_upper "Get")
          "/policy-data/bdt-data/:bdtReferenceId"
          (handle_policy_data_bdt_data_bdt_reference_id_get o)
      ∷ route "PolicyDataBdtDataBdtReferenceIdPut" (to_upper "Put")
          "/policy-data/bdt-data/:bdtReferenceId"
          (handle_policy_data_bdt_data_bdt_reference_id_put o)
      ∷ route "PolicyDataBdtDataGet" (to_upper "Get") "/policy-data/bdt-data"
          (handle_policy_data_bdt_data_get o)
      ∷ route "PolicyDataPlmnsPlmnIdUePolicySetGet" (to_upper "Get")
          "/policy-data/plmns/:plmnId/ue-policy-set"
          (handle_policy_data_plmns_plmn_id_ue_policy_set_get o)
      ∷ route "PolicyDataSponsorConnectivityDataSponsorIdGet" (to_upper "Get")
          "/policy-data/sponsor-connectivity-data/:sponsorId"
          (handle_policy_data_sponsor_connectivity_data_sponsor_id_get o)
      ∷ route "PolicyDataSubsToNotifyPost" (to_upper "Post") "/policy-data/subs-to-notify"
          (handle_policy_data_subs_to_notify_post o)
      ∷ route "PolicyDataSubsToNotifySubsIdDelete" (to_upper "Delete")
          "/policy-data/subs-to-notify/:subsId" (handle_policy_data_subs_to_notify_subs_id_delete o)
      ∷ route "PolicyDataSubsToNotifySubsIdPut" (to_upper "Put")
          "/policy-data/subs-to-notify/:subsId" (handle_policy_data_subs_to_notify_subs_id_put o)
      ∷ route "PolicyDataUesUeIdAmDataGet" (to_upper "Get") "/policy-data/ues/:ueId/am-data"
          (handle_policy_data_ues_ue_id_am_data_get o)
      ∷ route "PolicyDataUesUeIdOperatorSpecificDataGet" (to_upper "Get")
          "/policy-data/ues/:ueId/operator-specific-data"
          (handle_policy_data_ues_ue_id_operator_specific_data_get o)
      ∷ route "PolicyDataUesUeIdOperatorSpecificDataPatch" (to_upper "Patch")
          "/policy-data/ues/:ueId/operator-specific-data"
          (handle_policy_data_ues_ue_id_operator_specific_data_patch o)
      ∷ route "PolicyDataUesUeIdOperatorSpecificDataPut" (to_upper "Put")
          "/policy-data/ues/:ueId/operator-specific-data"
          (handle_policy_data_ues_ue_id_operator_specific_data_put o)
      ∷ route "PolicyDataUesUeIdSmDataGet" (to_upper "Get") "/policy-data/ues/:ueId/sm-data"
          (handle_policy_data_ues_ue_id_sm_data_get o)
      ∷ route "PolicyDataUesUeIdSmDataPatch" (to_upper "Patch") "/policy-data/ues/:ueId/sm-data"
          (handle_policy_data_ues_ue_id_sm_data_patch o)
      ∷ route "PolicyDataUesUeIdSmDataUsageMonIdDelete" (to_upper "Delete")
          "/policy-data/ues/:ueId/sm-data/:usageMonId"
          (handle_policy_data_ues_ue_id_sm_data_usage_mon_id_delete o)
      ∷ route "PolicyDataUesUeIdSmDataUsageMonIdGet" (to_upper "Get")
          "/policy-data/ues/:ueId/sm-data/:usageMonId"
          (handle_policy_data_ues_ue_id_sm_data_usage_mon_id_get o)
      ∷ route "PolicyDataUesUeIdSmDataUsageMonIdPut" (to_upper "Put")
          "/policy-data/ues/:ueId/sm-data/:usageMonId"
          (handle_policy_data_ues_ue_id_sm_data_usage_mon_id_put o)
      ∷ route "PolicyDataUesUeIdUePolicySetGet" (to_upper "Get")
          "/policy-data/ues/:ueId/ue-policy-set" (handle_policy_data_ues_ue_id_ue_policy_set_get o)
      ∷ route "PolicyDataUesUeIdUePolicySetPatch" (to_upper "Patch")
          "/policy-data/ues/:ueId/ue-policy-set"
          (handle_policy_data_ues_ue_id_ue_policy_set_patch o)
      ∷ route "PolicyDataUesUeIdUePolicySetPut" (to_upper "Put")
          "/policy-data/ues/:ueId/ue-policy-set" (handle_policy_data_ues_ue_id_ue_policy_set_put o)
      ∷ []
