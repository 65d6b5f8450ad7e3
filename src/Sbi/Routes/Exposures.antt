-- ===== src/Sbi/Routes/Exposures.antt =====
-- internal/sbi/api_datarepository.go: the routes of event exposure, of exposure data and of
-- subscriptions to influence data.
use free5gc_udr.Base.{List, [], ◌∷◌}
use free5gc_udr.Sbi.Contexts.{
  handle_create_ee_group_subscriptions, handle_query_ee_group_subscriptions,
  handle_create_ee_subscriptions, handle_query_ee_subscriptions, handle_remove_ee_subscriptions,
  handle_update_ee_subscriptions, handle_update_ee_group_subscriptions,
  handle_remove_ee_group_subscriptions,
}
use free5gc_udr.Sbi.Applications.{
  handle_create_session_management_data, handle_delete_session_management_data,
  handle_query_session_management_data, handle_create_access_and_mobility_data,
  handle_delete_access_and_mobility_data, handle_query_access_and_mobility_data,
  handle_exposure_data_subs_to_notify_post, handle_exposure_data_subs_to_notify_sub_id_delete,
  handle_exposure_data_subs_to_notify_sub_id_put,
  handle_application_data_influence_data_subs_to_notify_get,
  handle_application_data_influence_data_subs_to_notify_post,
  handle_application_data_influence_data_influence_id_delete,
  handle_application_data_influence_data_influence_id_patch,
  handle_application_data_influence_data_influence_id_put,
  handle_application_data_influence_data_influence_id_post,
}
use free5gc_udr.Sbi.{Outside}
use free5gc_udr.Sbi.Routes.{Route, route, to_upper}

module _ {Db : Type 0} (o : Outside Db) where
  -- Event exposure subscriptions.
  unfoldable pub ee_routes : List (Route Db)
  ee_routes =
      route "CreateEeGroupSubscriptions" (to_upper "Post")
        "/subscription-data/group-data/:ueGroupId/ee-subscriptions"
        (handle_create_ee_group_subscriptions o)
      ∷ route "QueryEeGroupSubscriptions" (to_upper "Get")
          "/subscription-data/group-data/:ueGroupId/ee-subscriptions"
          (handle_query_ee_group_subscriptions o)
      ∷ route "CreateEeSubscriptions" (to_upper "Post")
          "/subscription-data/:ueId/context-data/ee-subscriptions"
          (handle_create_ee_subscriptions o)
      ∷ route "Queryeesubscriptions" (to_upper "Get")
          "/subscription-data/:ueId/context-data/ee-subscriptions" (handle_query_ee_subscriptions o)
      ∷ route "RemoveeeSubscriptions" (to_upper "Delete")
          "/subscription-data/:ueId/context-data/ee-subscriptions/:subsId"
          (handle_remove_ee_subscriptions o)
      ∷ route "UpdateEesubscriptions" (to_upper "Put")
          "/subscription-data/:ueId/context-data/ee-subscriptions/:subsId"
          (handle_update_ee_subscriptions o)
      ∷ route "UpdateEeGroupSubscriptions" (to_upper "Put")
          "/subscription-data/group-data/:ueGroupId/ee-subscriptions/:subsId"
          (handle_update_ee_group_subscriptions o)
      ∷ route "RemoveEeGroupSubscriptions" (to_upper "Delete")
          "/subscription-data/group-data/:ueGroupId/ee-subscriptions/:subsId"
          (handle_remove_ee_group_subscriptions o)
      ∷ []

  -- Exposure data.
  unfoldable pub exposure_data_routes : List (Route Db)
  exposure_data_routes =
      route "CreateSessionManagementData" (to_upper "Put")
        "/exposure-data/:ueId/session-management-data/:pduSessionId"
        (handle_create_session_management_data o)
      ∷ route "DeleteSessionManagementData" (to_upper "Delete")
          "/exposure-data/:ueId/session-management-data/:pduSessionId"
          (handle_delete_session_management_data o)
      ∷ route "QuerySessionManagementData" (to_upper "Get")
          "/exposure-data/:ueId/session-management-data/:pduSessionId"
          (handle_query_session_management_data o)
      ∷ route "CreateAccessAndMobilityData" (to_upper "Put")
          "/exposure-data/:ueId/access-and-mobility-data" (handle_create_access_and_mobility_data o)
      ∷ route "DeleteAccessAndMobilityData" (to_upper "Delete")
          "/exposure-data/:ueId/access-and-mobility-data" (handle_delete_access_and_mobility_data o)
      ∷ route "QueryAccessAndMobilityData" (to_upper "Get")
          "/exposure-data/:ueId/access-and-mobility-data" (handle_query_access_and_mobility_data o)
      ∷ route "ExposureDataSubsToNotifyPost" (to_upper "Post") "/exposure-data/subs-to-notify"
          (handle_exposure_data_subs_to_notify_post o)
      ∷ route "ExposureDataSubsToNotifySubIdDelete" (to_upper "Delete")
          "/exposure-data/subs-to-notify/:subId"
          (handle_exposure_data_subs_to_notify_sub_id_delete o)
      ∷ route "ExposureDataSubsToNotifySubIdPut" (to_upper "Put")
          "/exposure-data/subs-to-notify/:subId" (handle_exposure_data_subs_to_notify_sub_id_put o)
      ∷ []

  -- Influence data and its subscriptions.
  unfoldable pub application_data_routes : List (Route Db)
  application_data_routes =
      route "ApplicationDataInfluenceDataSubsToNotifyGet" (to_upper "Get")
        "/application-data/influenceData/subs-to-notify"
        (handle_application_data_influence_data_subs_to_notify_get o)
      ∷ route "ApplicationDataInfluenceDataSubsToNotifyPost" (to_upper "Post")
          "/application-data/influenceData/subs-to-notify"
          (handle_application_data_influence_data_subs_to_notify_post o)
      ∷ route "ApplicationDataInfluenceDataInfluenceIdDelete" (to_upper "Delete")
          "/application-data/influenceData/:influenceId"
          (handle_application_data_influence_data_influence_id_delete o)
      ∷ route "ApplicationDataInfluenceDataInfluenceIdPatch" (to_upper "Patch")
          "/application-data/influenceData/:influenceId"
          (handle_application_data_influence_data_influence_id_patch o)
      ∷ route "ApplicationDataInfluenceDataInfluenceIdPut" (to_upper "Put")
          "/application-data/influenceData/:influenceId"
          (handle_application_data_influence_data_influence_id_put o)
      ∷ route "ApplicationDataInfluenceDataInfluenceIdPut" (to_upper "Post")
          "/application-data/influenceData/:influenceId"
          (handle_application_data_influence_data_influence_id_post o)
      ∷ []
