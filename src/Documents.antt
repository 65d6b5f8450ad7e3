-- ===== src/Documents.antt =====
-- The procedures of internal/sbi/processor that answer with one document of the database, and the
-- shapes that they share.
pub mod Laws
use Prim.Native.String.{String}
use free5gc_udr.Base.{Bool, true, false, List, [], ◌∷◌, Option, none, some}
use free5gc_udr.Models.{Document, field, array, cons, nil, object}
use free5gc_udr.Gin.{M, ◌>>=◌, ◌>>◌, emit, answer_problem, json, document, nothing}
use free5gc_udr.Database.{
  Mongo, Found, found, problem, by, by2, get_data_from_db, get_data_from_db_with_arg,
}

module _ {Db : Type 0} where
  -- `if pd != nil { …; return }; c.JSON(http.StatusOK, data)`
  unfoldable pub answer_found : Found → M Db (Unit {0})
  answer_found (problem pd) = answer_problem pd
  answer_found (found d) = emit (json 200 (document d))

  -- The same with no `return`: the nil document is answered after the problem.
  unfoldable pub answer_found_and_go_on : Found → M Db (Unit {0})
  answer_found_and_go_on (problem pd) = do answer_problem pd; emit (json 200 nothing)
  answer_found_and_go_on (found d) = emit (json 200 (document d))

module _ {Db : Type 0} (m : Mongo Db) where
  unfoldable pub query : String → Document → M Db (Unit {0})
  unfolding answer_found get_data_from_db
  query coll_name filter = do
    data_or_problem ← get_data_from_db m coll_name filter
    answer_found data_or_problem

  unfoldable pub query_and_go_on : String → Document → M Db (Unit {0})
  unfolding answer_found_and_go_on get_data_from_db
  query_and_go_on coll_name filter = do
    data_or_problem ← get_data_from_db m coll_name filter
    answer_found_and_go_on data_or_problem

  unfoldable pub query_am_data_procedure : String → String → String → M Db (Unit {0})
  unfolding query
  query_am_data_procedure coll_name ue_id serving_plmn_id =
      query coll_name (by2 "ueId" ue_id "servingPlmnId" serving_plmn_id)

  unfoldable pub query_smf_select_data_procedure : String → String → String → M Db (Unit {0})
  unfolding query
  query_smf_select_data_procedure coll_name ue_id serving_plmn_id =
      query coll_name (by2 "ueId" ue_id "servingPlmnId" serving_plmn_id)

  unfoldable pub query_sms_mng_data_procedure : String → String → String → M Db (Unit {0})
  unfolding query
  query_sms_mng_data_procedure coll_name ue_id serving_plmn_id =
      query coll_name (by2 "ueId" ue_id "servingPlmnId" serving_plmn_id)

  unfoldable pub query_sms_data_procedure : String → String → String → M Db (Unit {0})
  unfolding query
  query_sms_data_procedure coll_name ue_id serving_plmn_id =
      query coll_name (by2 "ueId" ue_id "servingPlmnId" serving_plmn_id)

  unfoldable pub query_trace_data_procedure : String → String → String → M Db (Unit {0})
  unfolding query
  query_trace_data_procedure coll_name ue_id serving_plmn_id =
      query coll_name (by2 "ueId" ue_id "servingPlmnId" serving_plmn_id)

  unfoldable pub query_ee_data_procedure : String → String → M Db (Unit {0})
  unfolding query
  query_ee_data_procedure coll_name ue_id = query coll_name (by "ueId" ue_id)

  unfoldable pub get_pp_data_procedure : String → String → M Db (Unit {0})
  unfolding query
  get_pp_data_procedure coll_name ue_id = query coll_name (by "ueId" ue_id)

  unfoldable pub get_odb_data_procedure : String → String → M Db (Unit {0})
  unfolding query
  get_odb_data_procedure coll_name ue_id = query coll_name (by "ueId" ue_id)

  unfoldable pub query_auth_subs_data_procedure : String → String → M Db (Unit {0})
  unfolding query
  query_auth_subs_data_procedure coll_name ue_id = query coll_name (by "ueId" ue_id)

  unfoldable pub query_auth_so_r_procedure : String → String → M Db (Unit {0})
  unfolding query
  query_auth_so_r_procedure coll_name ue_id = query coll_name (by "ueId" ue_id)

  unfoldable pub query_authentication_status_procedure : String → String → M Db (Unit {0})
  unfolding query
  query_authentication_status_procedure coll_name ue_id = query coll_name (by "ueId" ue_id)

  unfoldable pub query_oper_spec_data_procedure : String → String → M Db (Unit {0})
  unfolding query
  query_oper_spec_data_procedure coll_name ue_id = query coll_name (by "ueId" ue_id)

  unfoldable pub query_amf_context_3gpp_procedure : String → String → M Db (Unit {0})
  unfolding query_and_go_on
  query_amf_context_3gpp_procedure coll_name ue_id = query_and_go_on coll_name (by "ueId" ue_id)

  unfoldable pub query_amf_context_non_3gpp_procedure : String → String → M Db (Unit {0})
  unfolding query
  query_amf_context_non_3gpp_procedure coll_name ue_id = query coll_name (by "ueId" ue_id)

  unfoldable pub query_smsf_context_3gpp_procedure : String → String → M Db (Unit {0})
  unfolding query
  query_smsf_context_3gpp_procedure coll_name ue_id = query coll_name (by "ueId" ue_id)

  unfoldable pub query_smsf_context_non_3gpp_procedure : String → String → M Db (Unit {0})
  unfolding query
  query_smsf_context_non_3gpp_procedure coll_name ue_id = query coll_name (by "ueId" ue_id)
