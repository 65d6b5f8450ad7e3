-- ===== src/Sbi/Queries.antt =====
-- internal/sbi/api_datarepository.go: the handlers of the queries of subscription data.
use free5gc_udr.Gin.{M}
use free5gc_udr.Provisioned.{no_data, query_sm_data_procedure, query_provisioned_data_procedure}
use free5gc_udr.Sbi.{Incoming, query_value, Outside, World, on_db, with_ue}
use free5gc_udr.Documents.{
  query_trace_data_procedure, query_amf_context_non_3gpp_procedure, query_ee_data_procedure,
  query_am_data_procedure, query_smsf_context_3gpp_procedure, query_authentication_status_procedure,
  get_odb_data_procedure, get_pp_data_procedure, query_amf_context_3gpp_procedure,
  query_sms_mng_data_procedure, query_auth_so_r_procedure, query_smf_select_data_procedure,
  query_oper_spec_data_procedure, query_sms_data_procedure, query_auth_subs_data_procedure,
  query_smsf_context_non_3gpp_procedure,
}
use free5gc_udr.Registrations.{query_smf_registration_procedure}
use free5gc_udr.Collections.{query_smf_reg_list_procedure, get_identity_data_procedure}

module _ {Db : Type 0} (o : Outside Db) where
  unfoldable pub handle_query_amf_context_3gpp : Incoming → M (World Db) (Unit {0})
  handle_query_amf_context_3gpp req = with_ue req (λ ue_id. on_db (λ _.
      query_amf_context_3gpp_procedure o.mongo "subscriptionData.contextData.amf3gppAccess" ue_id))

  unfoldable pub handle_query_amf_context_non_3gpp : Incoming → M (World Db) (Unit {0})
  handle_query_amf_context_non_3gpp req = with_ue req (λ ue_id. on_db (λ _.
      query_amf_context_non_3gpp_procedure o.mongo "subscriptionData.contextData.amfNon3gppAccess"
        ue_id))

  unfoldable pub handle_query_am_data : Incoming → M (World Db) (Unit {0})
  handle_query_am_data req = with_ue req (λ ue_id. on_db (λ _.
      query_am_data_procedure o.mongo "subscriptionData.provisionedData.amData" ue_id
        (req.param "servingPlmnId")))

  unfoldable pub handle_query_authentication_status : Incoming → M (World Db) (Unit {0})
  handle_query_authentication_status req = with_ue req (λ ue_id. on_db (λ _.
      query_authentication_status_procedure o.mongo
        "subscriptionData.authenticationData.authenticationStatus" ue_id))

  unfoldable pub handle_query_auth_subs_data : Incoming → M (World Db) (Unit {0})
  handle_query_auth_subs_data req = with_ue req (λ ue_id. on_db (λ _.
      query_auth_subs_data_procedure o.mongo
        "subscriptionData.authenticationData.authenticationSubscription" ue_id))

  unfoldable pub handle_query_auth_so_r : Incoming → M (World Db) (Unit {0})
  handle_query_auth_so_r req = with_ue req (λ ue_id. on_db (λ _.
      query_auth_so_r_procedure o.mongo "subscriptionData.ueUpdateConfirmationData.sorData" ue_id))

  unfoldable pub handle_query_smf_registration : Incoming → M (World Db) (Unit {0})
  handle_query_smf_registration req = with_ue req (λ ue_id. on_db (λ _.
      query_smf_registration_procedure o.mongo "subscriptionData.contextData.smfRegistrations" ue_id
        (req.param "pduSessionId")))

  unfoldable pub handle_query_smf_reg_list : Incoming → M (World Db) (Unit {0})
  handle_query_smf_reg_list req = with_ue req (λ ue_id. on_db (λ _.
      query_smf_reg_list_procedure o.mongo "subscriptionData.contextData.smfRegistrations" ue_id))

  unfoldable pub handle_query_smf_select_data : Incoming → M (World Db) (Unit {0})
  handle_query_smf_select_data req = with_ue req (λ ue_id. on_db (λ _.
      query_smf_select_data_procedure o.mongo
        "subscriptionData.provisionedData.smfSelectionSubscriptionData" ue_id
        (req.param "servingPlmnId")))

  unfoldable pub handle_query_smsf_context_3gpp : Incoming → M (World Db) (Unit {0})
  handle_query_smsf_context_3gpp req = with_ue req (λ ue_id. on_db (λ _.
      query_smsf_context_3gpp_procedure o.mongo "subscriptionData.contextData.smsf3gppAccess"
        ue_id))

  unfoldable pub handle_query_smsf_context_non_3gpp : Incoming → M (World Db) (Unit {0})
  handle_query_smsf_context_non_3gpp req = with_ue req (λ ue_id. on_db (λ _.
      query_smsf_context_non_3gpp_procedure o.mongo "subscriptionData.contextData.smsfNon3gppAccess"
        ue_id))

  unfoldable pub handle_query_sms_mng_data : Incoming → M (World Db) (Unit {0})
  handle_query_sms_mng_data req = with_ue req (λ ue_id. on_db (λ _.
      query_sms_mng_data_procedure o.mongo "subscriptionData.provisionedData.smsMngData" ue_id
        (req.param "servingPlmnId")))

  unfoldable pub handle_query_sms_data : Incoming → M (World Db) (Unit {0})
  handle_query_sms_data req = with_ue req (λ ue_id. on_db (λ _.
      query_sms_data_procedure o.mongo "subscriptionData.provisionedData.smsData" ue_id
        (req.param "servingPlmnId")))

  unfoldable pub handle_query_trace_data : Incoming → M (World Db) (Unit {0})
  handle_query_trace_data req = with_ue req (λ ue_id. on_db (λ _.
      query_trace_data_procedure o.mongo "subscriptionData.provisionedData.traceData" ue_id
        (req.param "servingPlmnId")))

  unfoldable pub handle_query_ee_data : Incoming → M (World Db) (Unit {0})
  handle_query_ee_data req =
      with_ue req (λ ue_id.
        on_db (λ _. query_ee_data_procedure o.mongo "subscriptionData.eeProfileData" ue_id))

  unfoldable pub handle_query_oper_spec_data : Incoming → M (World Db) (Unit {0})
  handle_query_oper_spec_data req = with_ue req (λ ue_id.
      on_db
        (λ _. query_oper_spec_data_procedure o.mongo "subscriptionData.operatorSpecificData" ue_id))

  unfoldable pub handle_get_pp_data : Incoming → M (World Db) (Unit {0})
  handle_get_pp_data req =
      with_ue req
        (λ ue_id. on_db (λ _. get_pp_data_procedure o.mongo "subscriptionData.ppData" ue_id))

  unfoldable pub handle_get_identity_data : Incoming → M (World Db) (Unit {0})
  handle_get_identity_data req = with_ue req (λ ue_id.
      on_db (λ _. get_identity_data_procedure o.mongo "subscriptionData.identityData" ue_id))

  unfoldable pub handle_get_odb_data : Incoming → M (World Db) (Unit {0})
  handle_get_odb_data req = with_ue req (λ ue_id.
      on_db (λ _.
        get_odb_data_procedure o.mongo "subscriptionData.operatorDeterminedBarringData" ue_id))

  unfoldable pub handle_query_sm_data : Incoming → M (World Db) (Unit {0})
  handle_query_sm_data req = with_ue req (λ ue_id. on_db (λ _.
      query_sm_data_procedure o.mongo o.provisioned "subscriptionData.provisionedData.smData" ue_id
        (req.param "servingPlmnId") (o.decode.snssai (query_value req "single-nssai"))
        (query_value req "dnn")))

  unfoldable pub handle_query_provisioned_data : Incoming → M (World Db) (Unit {0})
  handle_query_provisioned_data req = with_ue req (λ ue_id. on_db (λ _.
      query_provisioned_data_procedure o.mongo o.provisioned ue_id (req.param "servingPlmnId")
        no_data))
