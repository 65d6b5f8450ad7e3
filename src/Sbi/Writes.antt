-- ===== src/Sbi/Writes.antt =====
-- internal/sbi/api_datarepository.go: the handlers that write registrations, authentication data and
-- parameters of a UE.
use free5gc_udr.Base.Int.{parse_int}
use free5gc_udr.Gin.{M}
use free5gc_udr.Database.{by}
use free5gc_udr.Sbi.{Incoming, Outside, World, on_db, with_body, with_ue}
use free5gc_udr.Registrations.{
  delete_smsf_context_3gpp_procedure, create_smsf_context_3gpp_procedure,
  create_smf_context_non_3gpp_procedure, modify_pp_data_procedure, patch_oper_spec_data_procedure,
  amf_context_3gpp_procedure, delete_smf_context_procedure, create_authentication_so_r_procedure,
  create_amf_context_3gpp_procedure, amf_context_non_3gpp_procedure,
  delete_smsf_context_non_3gpp_procedure, create_amf_context_non_3gpp_procedure,
  create_smsf_context_non_3gpp_procedure, modify_authentication_procedure,
  create_authentication_status_procedure,
}

module _ {Db : Type 0} (o : Outside Db) where
  unfoldable pub handle_amf_context_3gpp : Incoming → M (World Db) (Unit {0})
  handle_amf_context_3gpp req = with_body o.decode.patch_items req (λ items. with_ue req (λ ue_id.
      on_db (λ _.
        amf_context_3gpp_procedure o.mongo "subscriptionData.contextData.amf3gppAccess" ue_id
          items)))

  unfoldable pub handle_create_amf_context_3gpp : Incoming → M (World Db) (Unit {0})
  handle_create_amf_context_3gpp req =
      with_body (o.decode.value "Amf3GppAccessRegistration") req (λ v. with_ue req (λ ue_id.
        on_db (λ _.
          create_amf_context_3gpp_procedure o.mongo "subscriptionData.contextData.amf3gppAccess"
            ue_id (o.decode.to_bson_m v))))

  unfoldable pub handle_amf_context_non_3gpp : Incoming → M (World Db) (Unit {0})
  handle_amf_context_non_3gpp req = with_body o.decode.patch_items req (λ items.
      with_ue req (λ ue_id. on_db (λ _.
        amf_context_non_3gpp_procedure o.mongo ue_id "subscriptionData.contextData.amfNon3gppAccess"
          items (by "ueId" ue_id))))

  unfoldable pub handle_create_amf_context_non_3gpp : Incoming → M (World Db) (Unit {0})
  handle_create_amf_context_non_3gpp req =
      with_body (o.decode.value "AmfNon3GppAccessRegistration") req (λ v. with_ue req (λ ue_id.
        on_db (λ _.
          create_amf_context_non_3gpp_procedure o.mongo (o.decode.to_bson_m v)
            "subscriptionData.contextData.amfNon3gppAccess" ue_id)))

  unfoldable pub handle_create_authentication_status : Incoming → M (World Db) (Unit {0})
  handle_create_authentication_status req = with_body (o.decode.value "AuthEvent") req (λ v.
      with_ue req (λ ue_id. on_db (λ _.
        create_authentication_status_procedure o.mongo
          "subscriptionData.authenticationData.authenticationStatus" ue_id (o.decode.to_bson_m v))))

  unfoldable pub handle_modify_authentication : Incoming → M (World Db) (Unit {0})
  handle_modify_authentication req = with_body o.decode.patch_items req (λ items.
      with_ue req (λ ue_id. on_db (λ _.
        modify_authentication_procedure o.mongo
          "subscriptionData.authenticationData.authenticationSubscription" ue_id items)))

  unfoldable pub handle_create_authentication_so_r : Incoming → M (World Db) (Unit {0})
  handle_create_authentication_so_r req = with_body (o.decode.value "SorData") req (λ v.
      with_ue req (λ ue_id. on_db (λ _.
        create_authentication_so_r_procedure o.mongo
          "subscriptionData.ueUpdateConfirmationData.sorData" ue_id (o.decode.to_bson_m v))))

  unfoldable pub handle_create_smf_context_non_3gpp : Incoming → M (World Db) (Unit {0})
  handle_create_smf_context_non_3gpp req = with_body (o.decode.value "SmfRegistration") req (λ v.
      with_ue req (λ ue_id. on_db (λ _.
        create_smf_context_non_3gpp_procedure o.mongo (o.decode.to_bson_m v)
          "subscriptionData.contextData.smfRegistrations" ue_id
          (parse_int 10 64 (req.param "pduSessionId")))))

  unfoldable pub handle_delete_smf_context : Incoming → M (World Db) (Unit {0})
  handle_delete_smf_context req = with_ue req (λ ue_id. on_db (λ _.
      delete_smf_context_procedure o.mongo "subscriptionData.contextData.smfRegistrations" ue_id
        (req.param "pduSessionId")))

  unfoldable pub handle_create_smsf_context_3gpp : Incoming → M (World Db) (Unit {0})
  handle_create_smsf_context_3gpp req = with_body (o.decode.value "SmsfRegistration") req (λ v.
      with_ue req (λ ue_id. on_db (λ _.
        create_smsf_context_3gpp_procedure o.mongo "subscriptionData.contextData.smsf3gppAccess"
          ue_id (o.decode.to_bson_m v))))

  unfoldable pub handle_delete_smsf_context_3gpp : Incoming → M (World Db) (Unit {0})
  handle_delete_smsf_context_3gpp req = with_ue req (λ ue_id. on_db (λ _.
      delete_smsf_context_3gpp_procedure o.mongo "subscriptionData.contextData.smsf3gppAccess"
        ue_id))

  unfoldable pub handle_create_smsf_context_non_3gpp : Incoming → M (World Db) (Unit {0})
  handle_create_smsf_context_non_3gpp req = with_body (o.decode.value "SmsfRegistration") req (λ v.
      with_ue req (λ ue_id. on_db (λ _.
        create_smsf_context_non_3gpp_procedure o.mongo (o.decode.to_bson_m v)
          "subscriptionData.contextData.smsfNon3gppAccess" ue_id)))

  unfoldable pub handle_delete_smsf_context_non_3gpp : Incoming → M (World Db) (Unit {0})
  handle_delete_smsf_context_non_3gpp req = with_ue req (λ ue_id. on_db (λ _.
      delete_smsf_context_non_3gpp_procedure o.mongo
        "subscriptionData.contextData.smsfNon3gppAccess" ue_id))

  unfoldable pub handle_patch_oper_spec_data : Incoming → M (World Db) (Unit {0})
  handle_patch_oper_spec_data req = with_body o.decode.patch_items req (λ items.
      with_ue req (λ ue_id. on_db (λ _.
        patch_oper_spec_data_procedure o.mongo "subscriptionData.operatorSpecificData" ue_id
          items)))

  unfoldable pub handle_modify_pp_data : Incoming → M (World Db) (Unit {0})
  handle_modify_pp_data req = with_body o.decode.patch_items req (λ items. with_ue req (λ ue_id.
      on_db (λ _. modify_pp_data_procedure o.mongo "subscriptionData.ppData" ue_id items)))
