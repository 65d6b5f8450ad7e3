-- ===== src/Sbi/Server/Requests/Policies.antt =====
-- The handlers of the routes of policy data, influence data and PFDs, as requests of the processor.
use free5gc_udr.Base.{Option, inl, inr, arith, Option-cases, ◌==◌}
use free5gc_udr.Gin.{M}
use free5gc_udr.Database.{Result-cases}
use free5gc_udr.System.{
  Environment, Request, handle, post_policy, delete_policy, put_policy, put_influence,
  get_influence, delete_influence,
}
use free5gc_udr.Sbi.{Incoming, Outside, World}
use free5gc_udr.Context.{udr_dr_res_uri_prefix}
use free5gc_udr.Sbi.Expected.{expected}
use free5gc_udr.Sbi.Routes.{to_upper, join_paths}
use free5gc_udr.Sbi.Steps.{
  IsOneRequest, EachOneRequest, finished, ◌also◌, on_db-IsOneRequest, on_context-IsOneRequest,
  emit_then-IsOneRequest, if-IsOneRequest, with_body-IsOneRequest, data_none, ue_db, data_ue_db,
}
use free5gc_udr.Sbi.Applications.{
  handle_application_data_influence_data_get,
  handle_application_data_influence_data_subs_to_notify_subscription_id_delete,
  handle_application_data_influence_data_subs_to_notify_subscription_id_get,
  handle_application_data_influence_data_subs_to_notify_subscription_id_put,
  handle_application_data_pfds_app_id_delete, handle_application_data_pfds_app_id_get,
  handle_application_data_pfds_app_id_put, handle_application_data_pfds_get, only_subs_to_notify,
}
use free5gc_udr.Sbi.Policies.{
  handle_policy_data_bdt_data_bdt_reference_id_delete,
  handle_policy_data_bdt_data_bdt_reference_id_get,
  handle_policy_data_bdt_data_bdt_reference_id_put, handle_policy_data_bdt_data_get,
  handle_policy_data_plmns_plmn_id_ue_policy_set_get,
  handle_policy_data_sponsor_connectivity_data_sponsor_id_get,
  handle_policy_data_subs_to_notify_post, handle_policy_data_subs_to_notify_subs_id_delete,
  handle_policy_data_subs_to_notify_subs_id_put, handle_policy_data_ues_ue_id_am_data_get,
  handle_policy_data_ues_ue_id_operator_specific_data_get,
  handle_policy_data_ues_ue_id_operator_specific_data_patch,
  handle_policy_data_ues_ue_id_operator_specific_data_put, handle_policy_data_ues_ue_id_sm_data_get,
  handle_policy_data_ues_ue_id_sm_data_patch,
  handle_policy_data_ues_ue_id_sm_data_usage_mon_id_delete,
  handle_policy_data_ues_ue_id_sm_data_usage_mon_id_get,
  handle_policy_data_ues_ue_id_sm_data_usage_mon_id_put,
  handle_policy_data_ues_ue_id_ue_policy_set_get, handle_policy_data_ues_ue_id_ue_policy_set_patch,
  handle_policy_data_ues_ue_id_ue_policy_set_put, report_body, report_unread, report_malformed,
  zero_subscription,
}
use free5gc_udr.Sbi.Routes.Policies.{influence_data_routes, policy_data_routes}

module _ {Db : Type 0} {env : Environment} where
  only_subs_to_notify-IsOneRequest :
      (req : Incoming) {k : M (World Db) (Unit {0})} {r : Option Request}
      → IsOneRequest env k r
      → IsOneRequest env (only_subs_to_notify req k) r
  unfolding only_subs_to_notify
  only_subs_to_notify-IsOneRequest req h =
      if-IsOneRequest (req.param "influenceId" == "subs-to-notify") h (emit_then-IsOneRequest _ h)

module _ {Db : Type 0} (o : Outside Db) where
  report_body-IsOneRequest :
      (req : Incoming) {k : M (World Db) (Unit {0})} {r : Option Request}
      → IsOneRequest o.env k r
      → IsOneRequest o.env (report_body o req k) r
  unfolding report_body report_unread report_malformed
  report_body-IsOneRequest req h = record {
    step = λ w. elim (Result-cases req.body) [
      | inl (e, unread) ↦ elim (Option-cases (o.decode.by_value req.partial_body)) [
        | inl fine ↦ ground (arith, unread, fine, h.step w)
        | inr (f, bad) ↦ ground (arith, unread, bad, h.step w)
      ]
      | inr (raw, read) ↦ elim (Option-cases (o.decode.by_value raw)) [
        | inl fine ↦ ground (arith, read, fine, h.step w)
        | inr (f, bad) ↦ ground (arith, read, bad, h.step w)
      ]
    ];
  }

  pub influence_data_routes-EachOneRequest :
      EachOneRequest o udr_dr_res_uri_prefix (influence_data_routes o)
  unfolding influence_data_routes to_upper join_paths expected handle
      handle_application_data_influence_data_get
      handle_application_data_influence_data_subs_to_notify_subscription_id_delete
      handle_application_data_influence_data_subs_to_notify_subscription_id_get
      handle_application_data_influence_data_subs_to_notify_subscription_id_put
      handle_application_data_pfds_app_id_delete handle_application_data_pfds_app_id_get
      handle_application_data_pfds_app_id_put handle_application_data_pfds_get
  influence_data_routes-EachOneRequest =
      (λ req. on_db-IsOneRequest _)
      also (λ req.
          only_subs_to_notify-IsOneRequest req
            (on_context-IsOneRequest (delete_influence (req.param "subscriptionId"))))
      also (λ req.
          only_subs_to_notify-IsOneRequest req
            (on_context-IsOneRequest (get_influence (req.param "subscriptionId"))))
      also (λ req. only_subs_to_notify-IsOneRequest req (
          with_body-IsOneRequest o.decode.influ_sub req
            (λ sub. on_context-IsOneRequest (put_influence (req.param "subscriptionId") sub))))
      also (λ req. on_db-IsOneRequest _)
      also (λ req. on_db-IsOneRequest _)
      also (λ req.
          data_none o.mongo.system_failure (o.decode.value "PfdDataForApp") req
            (λ v. on_db-IsOneRequest _))
      also (λ req. on_db-IsOneRequest _)
      also finished

  pub policy_data_routes-EachOneRequest :
      EachOneRequest o udr_dr_res_uri_prefix (policy_data_routes o)
  unfolding policy_data_routes to_upper join_paths expected handle
      handle_policy_data_bdt_data_bdt_reference_id_delete
      handle_policy_data_bdt_data_bdt_reference_id_get
      handle_policy_data_bdt_data_bdt_reference_id_put handle_policy_data_bdt_data_get
      handle_policy_data_plmns_plmn_id_ue_policy_set_get
      handle_policy_data_sponsor_connectivity_data_sponsor_id_get
      handle_policy_data_subs_to_notify_post handle_policy_data_subs_to_notify_subs_id_delete
      handle_policy_data_subs_to_notify_subs_id_put handle_policy_data_ues_ue_id_am_data_get
      handle_policy_data_ues_ue_id_operator_specific_data_get
      handle_policy_data_ues_ue_id_operator_specific_data_patch
      handle_policy_data_ues_ue_id_operator_specific_data_put
      handle_policy_data_ues_ue_id_sm_data_get handle_policy_data_ues_ue_id_sm_data_patch
      handle_policy_data_ues_ue_id_sm_data_usage_mon_id_delete
      handle_policy_data_ues_ue_id_sm_data_usage_mon_id_get
      handle_policy_data_ues_ue_id_sm_data_usage_mon_id_put
      handle_policy_data_ues_ue_id_ue_policy_set_get
      handle_policy_data_ues_ue_id_ue_policy_set_patch
      handle_policy_data_ues_ue_id_ue_policy_set_put
  policy_data_routes-EachOneRequest =
      (λ req. on_db-IsOneRequest _)
      also (λ req. on_db-IsOneRequest _)
      also (λ req.
          data_none o.mongo.system_failure (o.decode.value "BdtData") req
            (λ v. on_db-IsOneRequest _))
      also (λ req. on_db-IsOneRequest _)
      also (λ req. on_db-IsOneRequest _)
      also (λ req. on_db-IsOneRequest _)
      also (λ req.
          report_body-IsOneRequest req (on_context-IsOneRequest (post_policy zero_subscription)))
      also (λ req. on_context-IsOneRequest (delete_policy (req.param "subsId")))
      also (λ req.
          report_body-IsOneRequest req
            (on_context-IsOneRequest (put_policy (req.param "subsId") zero_subscription)))
      also (λ req. ue_db req _)
      also (λ req. ue_db req _)
      also (λ req. data_ue_db o.mongo.system_failure o.decode.patch_items req _)
      also (λ req.
          data_ue_db o.mongo.system_failure
            (o.decode.value "map[string]OperatorSpecificDataContainer") req _)
      also (λ req. ue_db req _)
      also (λ req. data_ue_db o.mongo.system_failure o.decode.usage_mon_data req _)
      also (λ req. ue_db req _)
      also (λ req. ue_db req _)
      also (λ req. data_ue_db o.mongo.system_failure (o.decode.value "UsageMonData") req _)
      also (λ req. ue_db req _)
      also (λ req. data_ue_db o.mongo.system_failure (o.decode.value "UePolicySet") req _)
      also (λ req. data_ue_db o.mongo.system_failure (o.decode.value "UePolicySet") req _)
      also finished
