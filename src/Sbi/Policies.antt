-- ===== src/Sbi/Policies.antt =====
-- internal/sbi/api_datarepository.go: the handlers of policy data.
use Prim.Native.String.{String}
use free5gc_udr.Base.{Option, none, some}
use free5gc_udr.Models.{null, PolicyDataSubscription}
use free5gc_udr.Problem.{malformed_req_syntax}
use free5gc_udr.Gin.{M, done, emit, answer_problem, json, set_problem, problem, ◌>>◌}
use free5gc_udr.Database.{Result, ok, err}
use free5gc_udr.Sbi.{
  Incoming, query_value, Outside, World, on_context, on_db, get_data_from_request_body, with_ue,
}
use free5gc_udr.Policy.{
  bdt_data_put_procedure, usage_mon_put_procedure, usage_mon_delete_procedure,
  operator_specific_data_put_procedure, operator_specific_data_patch_procedure,
  ue_policy_set_put_procedure, ue_policy_set_get_procedure, ue_policy_set_patch_procedure,
  am_data_get_procedure, operator_specific_data_get_procedure,
  sponsor_connectivity_data_get_procedure, bdt_data_list_procedure, usage_mon_get_procedure,
  plmn_ue_policy_set_get_procedure, bdt_data_delete_procedure, bdt_data_get_procedure,
}
use free5gc_udr.Notify.{
  policy_data_subs_to_notify_subs_id_delete_procedure, policy_data_subs_to_notify_post_procedure,
  policy_data_subs_to_notify_subs_id_put_procedure,
}
use free5gc_udr.Policy.SmData.{sm_data_patch_procedure, sm_data_get_procedure}

-- The variable that the two handlers below declare. They pass it to openapi.Deserialize by value, so
-- it keeps its zero value.
abbrev pub zero_subscription : PolicyDataSubscription
zero_subscription = record { notification_uri = ""; rest = null }

-- What is there of a body, which may be a part of it beside an error.
abbrev pub text_of : Incoming → String
text_of req = elim req.body [ err e ↦ req.partial_body | ok raw ↦ raw ]

module _ {Db : Type 0} where
  unfoldable pub report_malformed : Option String → M (World Db) (Unit {0})
  report_malformed (some e) = answer_problem (malformed_req_syntax e)
  report_malformed none = done

module _ {Db : Type 0} (o : Outside Db) where
  unfoldable pub report_unread : Result String → M (World Db) (Unit {0})
  report_unread (err e) = do
    emit (set_problem (o.mongo.system_failure e).cause)
    emit (json 500 (problem (o.mongo.system_failure e)))
  report_unread (ok raw) = done

  -- The reading of the body in the two handlers below: its errors are answered and the handler goes on.
  unfoldable pub report_body : Incoming → M (World Db) (Unit {0}) → M (World Db) (Unit {0})
  report_body req k = do
    report_unread req.body
    report_malformed (o.decode.by_value (text_of req))
    k

  unfoldable pub handle_policy_data_bdt_data_bdt_reference_id_delete :
      Incoming → M (World Db) (Unit {0})
  handle_policy_data_bdt_data_bdt_reference_id_delete req =
      on_db
        (λ _. bdt_data_delete_procedure o.mongo "policyData.bdtData" (req.param "bdtReferenceId"))

  unfoldable pub handle_policy_data_bdt_data_bdt_reference_id_get :
      Incoming → M (World Db) (Unit {0})
  handle_policy_data_bdt_data_bdt_reference_id_get req =
      on_db (λ _. bdt_data_get_procedure o.mongo "policyData.bdtData" (req.param "bdtReferenceId"))

  unfoldable pub handle_policy_data_bdt_data_bdt_reference_id_put :
      Incoming → M (World Db) (Unit {0})
  handle_policy_data_bdt_data_bdt_reference_id_put req =
      get_data_from_request_body o.mongo.system_failure (o.decode.value "BdtData") req (λ v.
        on_db (λ _.
          bdt_data_put_procedure o.mongo "policyData.bdtData" (req.param "bdtReferenceId") v
            (o.decode.to_bson_m v)))

  unfoldable pub handle_policy_data_bdt_data_get : Incoming → M (World Db) (Unit {0})
  handle_policy_data_bdt_data_get req =
      on_db (λ _. bdt_data_list_procedure o.mongo "policyData.bdtData")

  unfoldable pub handle_policy_data_plmns_plmn_id_ue_policy_set_get :
      Incoming → M (World Db) (Unit {0})
  handle_policy_data_plmns_plmn_id_ue_policy_set_get req = on_db (λ _.
      plmn_ue_policy_set_get_procedure o.mongo "policyData.plmns.uePolicySet" (req.param "plmnId"))

  unfoldable pub handle_policy_data_sponsor_connectivity_data_sponsor_id_get :
      Incoming → M (World Db) (Unit {0})
  handle_policy_data_sponsor_connectivity_data_sponsor_id_get req = on_db (λ _.
      sponsor_connectivity_data_get_procedure o.mongo "policyData.sponsorConnectivityData"
        (req.param "sponsorId"))

  unfoldable pub handle_policy_data_subs_to_notify_post : Incoming → M (World Db) (Unit {0})
  handle_policy_data_subs_to_notify_post req =
      report_body req (on_context (policy_data_subs_to_notify_post_procedure zero_subscription))

  unfoldable pub handle_policy_data_subs_to_notify_subs_id_delete :
      Incoming → M (World Db) (Unit {0})
  handle_policy_data_subs_to_notify_subs_id_delete req =
      on_context (policy_data_subs_to_notify_subs_id_delete_procedure (req.param "subsId"))

  unfoldable pub handle_policy_data_subs_to_notify_subs_id_put : Incoming → M (World Db) (Unit {0})
  handle_policy_data_subs_to_notify_subs_id_put req = report_body req (
      on_context
        (policy_data_subs_to_notify_subs_id_put_procedure (req.param "subsId") zero_subscription))

  unfoldable pub handle_policy_data_ues_ue_id_am_data_get : Incoming → M (World Db) (Unit {0})
  handle_policy_data_ues_ue_id_am_data_get req =
      with_ue req
        (λ ue_id. on_db (λ _. am_data_get_procedure o.mongo "policyData.ues.amData" ue_id))

  unfoldable pub handle_policy_data_ues_ue_id_operator_specific_data_get :
      Incoming → M (World Db) (Unit {0})
  handle_policy_data_ues_ue_id_operator_specific_data_get req = with_ue req (λ ue_id. on_db (λ _.
      operator_specific_data_get_procedure o.mongo "policyData.ues.operatorSpecificData" ue_id))

  unfoldable pub handle_policy_data_ues_ue_id_operator_specific_data_patch :
      Incoming → M (World Db) (Unit {0})
  handle_policy_data_ues_ue_id_operator_specific_data_patch req =
      get_data_from_request_body o.mongo.system_failure o.decode.patch_items req (λ items.
        with_ue req (λ ue_id. on_db (λ _.
          operator_specific_data_patch_procedure o.mongo "policyData.ues.operatorSpecificData" ue_id
            items)))

  unfoldable pub handle_policy_data_ues_ue_id_operator_specific_data_put :
      Incoming → M (World Db) (Unit {0})
  handle_policy_data_ues_ue_id_operator_specific_data_put req =
      get_data_from_request_body o.mongo.system_failure
        (o.decode.value "map[string]OperatorSpecificDataContainer") req
        (λ v. with_ue req (λ ue_id. on_db (λ _.
          operator_specific_data_put_procedure o.mongo "policyData.ues.operatorSpecificData" ue_id
            v)))

  unfoldable pub handle_policy_data_ues_ue_id_sm_data_get : Incoming → M (World Db) (Unit {0})
  handle_policy_data_ues_ue_id_sm_data_get req = with_ue req (λ ue_id. on_db (λ _.
      sm_data_get_procedure o.mongo o.sm_policy "policyData.ues.smData" ue_id
        (o.decode.snssai (query_value req "snssai")) (query_value req "dnn")))

  unfoldable pub handle_policy_data_ues_ue_id_sm_data_patch : Incoming → M (World Db) (Unit {0})
  handle_policy_data_ues_ue_id_sm_data_patch req =
      get_data_from_request_body o.mongo.system_failure o.decode.usage_mon_data req (λ changes.
        with_ue req (λ ue_id. on_db (λ _.
          sm_data_patch_procedure o.mongo o.sm_policy "policyData.ues.smData.usageMonData" ue_id
            changes)))

  unfoldable pub handle_policy_data_ues_ue_id_sm_data_usage_mon_id_delete :
      Incoming → M (World Db) (Unit {0})
  handle_policy_data_ues_ue_id_sm_data_usage_mon_id_delete req = with_ue req (λ ue_id. on_db (λ _.
      usage_mon_delete_procedure o.mongo "policyData.ues.smData.usageMonData" ue_id
        (req.param "usageMonId")))

  unfoldable pub handle_policy_data_ues_ue_id_sm_data_usage_mon_id_get :
      Incoming → M (World Db) (Unit {0})
  handle_policy_data_ues_ue_id_sm_data_usage_mon_id_get req = with_ue req (λ ue_id. on_db (λ _.
      usage_mon_get_procedure o.mongo "policyData.ues.smData.usageMonData" (req.param "usageMonId")
        ue_id))

  unfoldable pub handle_policy_data_ues_ue_id_sm_data_usage_mon_id_put :
      Incoming → M (World Db) (Unit {0})
  handle_policy_data_ues_ue_id_sm_data_usage_mon_id_put req =
      get_data_from_request_body o.mongo.system_failure (o.decode.value "UsageMonData") req (λ v.
        with_ue req (λ ue_id. on_db (λ _.
          usage_mon_put_procedure o.mongo "policyData.ues.smData.usageMonData" ue_id
            (req.param "usageMonId") (o.decode.to_bson_m v))))

  unfoldable pub handle_policy_data_ues_ue_id_ue_policy_set_get : Incoming → M (World Db) (Unit {0})
  handle_policy_data_ues_ue_id_ue_policy_set_get req =
      with_ue req (λ ue_id.
        on_db (λ _. ue_policy_set_get_procedure o.mongo "policyData.ues.uePolicySet" ue_id))

  unfoldable pub handle_policy_data_ues_ue_id_ue_policy_set_patch :
      Incoming → M (World Db) (Unit {0})
  handle_policy_data_ues_ue_id_ue_policy_set_patch req =
      get_data_from_request_body o.mongo.system_failure (o.decode.value "UePolicySet") req (λ v.
        with_ue req (λ ue_id. on_db (λ _.
          ue_policy_set_patch_procedure o.mongo o.decode.ue_policy_set "policyData.ues.uePolicySet"
            ue_id (o.decode.to_bson_m v))))

  unfoldable pub handle_policy_data_ues_ue_id_ue_policy_set_put : Incoming → M (World Db) (Unit {0})
  handle_policy_data_ues_ue_id_ue_policy_set_put req =
      get_data_from_request_body o.mongo.system_failure (o.decode.value "UePolicySet") req (λ v.
        with_ue req (λ ue_id. on_db (λ _.
          ue_policy_set_put_procedure o.mongo "policyData.ues.uePolicySet" ue_id
            (o.decode.to_bson_m v))))
