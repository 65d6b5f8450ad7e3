-- ===== src/Sbi/Server/Requests/Exposures.antt =====
-- The handlers of the routes of event exposure, exposure data and subscriptions to influence data, as
-- requests of the processor.
use Prim.Native.String.{String}
use free5gc_udr.Base.{arith, ◌≡◌, Option, none, some}
use free5gc_udr.Models.{Snssai}
use free5gc_udr.Gin.{M}
use free5gc_udr.System.{
  Request, handle, create_ee, query_ee, remove_ee, update_ee, create_group, query_group,
  remove_group, update_group, post_influence, list_influence,
}
use free5gc_udr.Sbi.Patterns.{is_ue_id, is_ue_group_id}
use free5gc_udr.Sbi.{query_value, Decoder, Outside, World, Incoming, on_context}
use free5gc_udr.Context.{udr_dr_res_uri_prefix}
use free5gc_udr.Sbi.Expected.{expected, asked_slice}
use free5gc_udr.Sbi.Routes.{to_upper, join_paths}
use free5gc_udr.Sbi.Steps.{
  body_none, valid-IsOneRequest, IsOneRequest, EachOneRequest, finished, ◌also◌, on_db-IsOneRequest,
  on_context-IsOneRequest, emit-IsOneRequest, emit_then-IsOneRequest, if-IsOneRequest,
  with_ue-IsOneRequest, with_body-IsOneRequest,
}
use free5gc_udr.Sbi.Contexts.{
  handle_create_ee_group_subscriptions, handle_query_ee_group_subscriptions,
  handle_create_ee_subscriptions, handle_query_ee_subscriptions, handle_remove_ee_subscriptions,
  handle_update_ee_subscriptions, handle_update_ee_group_subscriptions,
  handle_remove_ee_group_subscriptions, invalid_parameter,
}
use free5gc_udr.Sbi.Applications.{
  handle_create_session_management_data, handle_delete_session_management_data,
  handle_query_session_management_data, handle_create_access_and_mobility_data,
  handle_delete_access_and_mobility_data, handle_query_access_and_mobility_data,
  handle_exposure_data_subs_to_notify_post, handle_exposure_data_subs_to_notify_sub_id_delete,
  handle_exposure_data_subs_to_notify_sub_id_put,
  handle_application_data_influence_data_subs_to_notify_get,
  handle_application_data_influence_data_subs_to_notify_post,
  handle_application_data_influence_data_influence_id_delete,
  handle_application_data_influence_data_influence_id_patch,
  handle_application_data_influence_data_influence_id_put,
  handle_application_data_influence_data_influence_id_post, report_snssai, report_nothing_asked,
  read_snssai,
}
use free5gc_udr.Sbi.Routes.Exposures.{ee_routes, exposure_data_routes, application_data_routes}
use free5gc_udr.Context.{new_influence_data_subscription_id}

module _ {Db : Type 0} (o : Outside Db) where
  invalid_parameter-IsOneRequest :
      (detail : String) → IsOneRequest {Db = Db} o.env (invalid_parameter detail) none
  unfolding invalid_parameter
  invalid_parameter-IsOneRequest detail = emit_then-IsOneRequest _ (emit-IsOneRequest _)

  report_snssai-IsOneRequest :
      (read : Option Snssai × Option String) (k : Option Snssai → M (World Db) (Unit {0}))
      {r : Option Request}
      → IsOneRequest o.env (k read.0) r
      → IsOneRequest o.env (report_snssai read k) r
  unfolding report_snssai
  report_snssai-IsOneRequest (s, none) k h = h
  report_snssai-IsOneRequest (s, some e) k h = emit_then-IsOneRequest _ (emit_then-IsOneRequest _ h)

  report_nothing_asked-IsOneRequest :
      (dnn : String) (snssai : Option Snssai) (group supi : String) {k : M (World Db) (Unit {0})}
      {r : Option Request}
      → IsOneRequest o.env k r
      → IsOneRequest o.env (report_nothing_asked dnn snssai group supi k) r
  unfolding report_nothing_asked
  report_nothing_asked-IsOneRequest dnn snssai group supi h =
      if-IsOneRequest _ (emit_then-IsOneRequest _ (emit_then-IsOneRequest _ h)) h

  read_snssai_lem :
      (decode : Decoder) (query : String) → (read_snssai decode query).0 ≡ asked_slice decode query
  unfolding read_snssai
  read_snssai_lem decode query = ground arith

  listing-IsOneRequest :
      (req : Incoming)
      → IsOneRequest {Db = Db} o.env
          (on_context (
            handle o.env (
              list_influence
                (query_value req "dnn")
                ((read_snssai o.decode (query_value req "snssai")).0)
                (query_value req "internal-Group-Id")
                (query_value req "supi"))))
          (some (
            list_influence
              (query_value req "dnn")
              (asked_slice o.decode (query_value req "snssai"))
              (query_value req "internal-Group-Id")
              (query_value req "supi")))
  listing-IsOneRequest req =
      rw (read_snssai_lem o.decode (query_value req "snssai")) (on_context-IsOneRequest _)

  pub ee_routes-EachOneRequest : EachOneRequest o udr_dr_res_uri_prefix (ee_routes o)
  unfolding ee_routes to_upper join_paths expected handle handle_create_ee_group_subscriptions
      handle_query_ee_group_subscriptions handle_create_ee_subscriptions
      handle_query_ee_subscriptions handle_remove_ee_subscriptions handle_update_ee_subscriptions
      handle_update_ee_group_subscriptions handle_remove_ee_group_subscriptions
  ee_routes-EachOneRequest =
      (λ req. with_body-IsOneRequest o.decode.ee_subscription req (λ sub.
        valid-IsOneRequest (is_ue_group_id (req.param "ueGroupId"))
          (on_context-IsOneRequest (create_group (req.param "ueGroupId") sub))
          (invalid_parameter-IsOneRequest "Invalid ueGroupId")))
      also (λ req.
          valid-IsOneRequest (is_ue_group_id (req.param "ueGroupId"))
            (on_context-IsOneRequest (query_group (req.param "ueGroupId")))
            (invalid_parameter-IsOneRequest "Invalid ueGroupId"))
      also (λ req. with_body-IsOneRequest o.decode.ee_subscription req (λ sub.
          with_ue-IsOneRequest req (λ ue_id.
            valid-IsOneRequest (is_ue_id ue_id) (on_context-IsOneRequest (create_ee ue_id sub))
              (invalid_parameter-IsOneRequest "Invalid ueId"))))
      also (λ req. with_ue-IsOneRequest req (λ ue_id.
          valid-IsOneRequest (is_ue_id ue_id) (on_context-IsOneRequest (query_ee ue_id))
            (invalid_parameter-IsOneRequest "Invalid ueId")))
      also (λ req.
          with_ue-IsOneRequest req
            (λ ue_id. on_context-IsOneRequest (remove_ee ue_id (req.param "subsId"))))
      also (λ req. with_body-IsOneRequest o.decode.ee_subscription req (λ sub.
          with_ue-IsOneRequest req
            (λ ue_id. on_context-IsOneRequest (update_ee ue_id (req.param "subsId") sub))))
      also (λ req. with_body-IsOneRequest o.decode.ee_subscription req (λ sub.
          on_context-IsOneRequest (update_group (req.param "ueGroupId") (req.param "subsId") sub)))
      also (λ req.
          on_context-IsOneRequest (remove_group (req.param "ueGroupId") (req.param "subsId")))
      also finished

  pub exposure_data_routes-EachOneRequest :
      EachOneRequest o udr_dr_res_uri_prefix (exposure_data_routes o)
  unfolding exposure_data_routes to_upper join_paths expected handle
      handle_create_session_management_data handle_delete_session_management_data
      handle_query_session_management_data handle_create_access_and_mobility_data
      handle_delete_access_and_mobility_data handle_query_access_and_mobility_data
      handle_exposure_data_subs_to_notify_post handle_exposure_data_subs_to_notify_sub_id_delete
      handle_exposure_data_subs_to_notify_sub_id_put
  exposure_data_routes-EachOneRequest =
      (λ req. emit-IsOneRequest _)
      also (λ req. emit-IsOneRequest _)
      also (λ req. emit-IsOneRequest _)
      also (λ req. emit-IsOneRequest _)
      also (λ req. emit-IsOneRequest _)
      also (λ req. emit-IsOneRequest _)
      also (λ req. emit-IsOneRequest _)
      also (λ req. emit-IsOneRequest _)
      also (λ req. emit-IsOneRequest _)
      also finished

  pub application_data_routes-EachOneRequest :
      EachOneRequest o udr_dr_res_uri_prefix (application_data_routes o)
  unfolding application_data_routes to_upper join_paths expected handle
      handle_application_data_influence_data_subs_to_notify_get
      handle_application_data_influence_data_subs_to_notify_post
      handle_application_data_influence_data_influence_id_delete
      handle_application_data_influence_data_influence_id_patch
      handle_application_data_influence_data_influence_id_put
      handle_application_data_influence_data_influence_id_post
  application_data_routes-EachOneRequest =
      (λ req. report_snssai-IsOneRequest (read_snssai o.decode (query_value req "snssai")) _ (
        report_nothing_asked-IsOneRequest (query_value req "dnn") _
          (query_value req "internal-Group-Id") (query_value req "supi")
          (listing-IsOneRequest req)))
      also (λ req. with_body-IsOneRequest o.decode.influ_sub req (λ sub.
          on_context-IsOneRequest
            (post_influence (new_influence_data_subscription_id req.drawn) sub)))
      also (λ req. on_db-IsOneRequest _)
      also (λ req. emit-IsOneRequest _)
      also (λ req. body_none o.decode.influ_data req (λ v. on_db-IsOneRequest _))
      also (λ req. on_db-IsOneRequest _)
      also finished
