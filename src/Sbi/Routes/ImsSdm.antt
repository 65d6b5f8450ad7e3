-- ===== src/Sbi/Routes/ImsSdm.antt =====
-- internal/sbi/api_imsSDM.go and api_groupIdMap.go: the routes of two services that answer that they
-- are not implemented.
use free5gc_udr.Base.{List, [], ◌∷◌, ◌++◌}
use free5gc_udr.Models.{end}
use free5gc_udr.Gin.{M, emit, json, document}
use free5gc_udr.Sbi.{Incoming, World}
use free5gc_udr.Sbi.Routes.{Route, route, index}

module _ {Db : Type 0} where
  -- The handler of every route of the service but the index: they have the same body.
  unfoldable pub http_ims_sdm : Incoming → M (World Db) (Unit {0})
  http_ims_sdm req = emit (json 501 (document end))

  unfoldable pub http_get_nf_group_ids : Incoming → M (World Db) (Unit {0})
  http_get_nf_group_ids req = emit (json 501 (document end))

  unfoldable pub first_ims_routes : List (Route Db)
  first_ims_routes =
      route "Index" "GET" "/" index
      ∷ route "DeleteRepositoryDataServInd" "Delete" "/:imsUeId/repository-data/:serviceIndication"
          http_ims_sdm
      ∷ route "DeleteSmsRegistrationInfo" "Delete" "/:imsUeId/service-data/sms-registration-info"
          http_ims_sdm
      ∷ route "GetChargingInfo" "Get" "/:imsUeId/ims-data/profile-data/charging-info" http_ims_sdm
      ∷ route "GetCsUserStateInfo" "Get" "/:imsUeId/access-data/cs-domain/user-state" http_ims_sdm
      ∷ route "GetCsrn" "Get" "/:imsUeId/access-data/cs-domain/csrn" http_ims_sdm
      ∷ route "GetDsaiInfo" "Get" "/:imsUeId/service-data/dsai" http_ims_sdm
      ∷ route "GetIMEISVInfo" "Get" "/:imsUeId/identities/imeisv" http_ims_sdm
      ∷ route "GetIfcs" "Get" "/:imsUeId/ims-data/profile-data/ifcs" http_ims_sdm
      ∷ route "GetImsAssocIds" "Get" "/:imsUeId/identities/ims-associated-identities" http_ims_sdm
      ∷ route "GetImsPrivateIds" "Get" "/:imsUeId/identities/private-identities" http_ims_sdm
      ∷ route "GetIpAddressInfo" "Get" "/:imsUeId/access-data/ps-domain/ip-address" http_ims_sdm
      ∷ route "GetLocCsDomain" "Get" "/:imsUeId/access-data/cs-domain/location-data" http_ims_sdm
      ∷ route "GetLocPsDomain" "Get" "/:imsUeId/access-data/ps-domain/location-data" http_ims_sdm
      ∷ route "GetMsisdns" "Get" "/:imsUeId/identities/msisdns" http_ims_sdm
      ∷ []

  unfoldable pub middle_ims_routes : List (Route Db)
  middle_ims_routes =
      route "GetPriorityInfo" "Get" "/:imsUeId/ims-data/profile-data/priority-levels" http_ims_sdm
      ∷ route "GetProfileData" "Get" "/:imsUeId/ims-data/profile-data" http_ims_sdm
      ∷ route "GetPsUserStateInfo" "Get" "/:imsUeId/access-data/ps-domain/user-state" http_ims_sdm
      ∷ route "GetPsiState" "Get" "/:imsUeId/service-data/psi-status" http_ims_sdm
      ∷ route "GetReferenceLocationInfo" "Get"
          "/:imsUeId/access-data/wireline-domain/reference-location" http_ims_sdm
      ∷ route "GetRegistrationStatus" "Get" "/:imsUeId/ims-data/registration-status" http_ims_sdm
      ∷ route "GetRepositoryDataServInd" "Get" "/:imsUeId/repository-data/:serviceIndication"
          http_ims_sdm
      ∷ route "GetRepositoryDataServIndList" "Get" "/:imsUeId/repository-data" http_ims_sdm
      ∷ route "GetScscfCapabilities" "Get" "/:imsUeId/ims-data/location-data/scscf-capabilities"
          http_ims_sdm
      ∷ route "GetScscfSelectionAssistanceInfo" "Get"
          "/:imsUeId/ims-data/location-data/scscf-selection-assistance-info" http_ims_sdm
      ∷ route "GetServerName" "Get" "/:imsUeId/ims-data/location-data/server-name" http_ims_sdm
      ∷ route "GetServiceTraceInfo" "Get"
          "/:imsUeId/ims-data/profile-data/service-level-trace-information" http_ims_sdm
      ∷ route "GetSharedData" "Get" "/shared-data" http_ims_sdm
      ∷ route "GetSmsRegistrationInfo" "Get" "/:imsUeId/service-data/sms-registration-info"
          http_ims_sdm
      ∷ route "GetSrvccData" "Get" "/:imsUeId/srvcc-data" http_ims_sdm
      ∷ []

  unfoldable pub last_ims_routes : List (Route Db)
  last_ims_routes =
      route "GetTadsInfo" "Get" "/:imsUeId/access-data/ps-domain/tads-info" http_ims_sdm
      ∷ route "ImsSdmSubsModify" "Patch" "/:imsUeId/subscriptions/:subscriptionId" http_ims_sdm
      ∷ route "ImsSdmSubscribe" "Post" "/:imsUeId/subscriptions" http_ims_sdm
      ∷ route "ImsSdmUnsubscribe" "Delete" "/:imsUeId/subscriptions/:subscriptionId" http_ims_sdm
      ∷ route "ModifySharedDataSubs" "Patch" "/shared-data-subscriptions/:subscriptionId"
          http_ims_sdm
      ∷ route "SubscribeToSharedData" "Post" "/shared-data-subscriptions" http_ims_sdm
      ∷ route "UeReachIpSubscribe" "Post" "/:imsUeId/access-data/ps-domain/ue-reach-subscriptions"
          http_ims_sdm
      ∷ route "UeReachSubsModify" "Patch"
          "/:imsUeId/access-data/ps-domain/ue-reach-subscriptions/:subscriptionId" http_ims_sdm
      ∷ route "UeReachUnsubscribe" "Delete"
          "/:imsUeId/access-data/ps-domain/ue-reach-subscriptions/:subscriptionId" http_ims_sdm
      ∷ route "UnsubscribeForSharedData" "Delete" "/shared-data-subscriptions/:subscriptionId"
          http_ims_sdm
      ∷ route "UpdateDsaiState" "Patch" "/:imsUeId/service-data/dsai" http_ims_sdm
      ∷ route "UpdatePsiState" "Patch" "/:imsUeId/service-data/psi-status" http_ims_sdm
      ∷ route "UpdateRepositoryDataServInd" "Put" "/:imsUeId/repository-data/:serviceIndication"
          http_ims_sdm
      ∷ route "UpdateSmsRegistrationInfo" "Put" "/:imsUeId/service-data/sms-registration-info"
          http_ims_sdm
      ∷ route "UpdateSrvccData" "Patch" "/:imsUeId/srvcc-data" http_ims_sdm
      ∷ []

  unfoldable pub get_ims_sdm_routes : List (Route Db)
  get_ims_sdm_routes = first_ims_routes ++ middle_ims_routes ++ last_ims_routes

  unfoldable pub get_group_id_map : List (Route Db)
  get_group_id_map =
      route "Index" "GET" "/" index
      ∷ route "GetNfGroupIDs" "GET" "/nf-group-ids" http_get_nf_group_ids
      ∷ []
