-- ===== src/Policy.antt =====
-- The policy data procedures of internal/sbi/processor/default.go that read and write documents.
pub mod SmData
use Prim.Native.String.{String}
use free5gc_udr.Base.{Bool, true, false, List, Option, none, some}
use free5gc_udr.Models.{
  Json, Document, end, field, text, put, get, PatchItem, bdt_data, ue_policy_set,
}
use free5gc_udr.Problem.{not_found, unspecified, modify_not_allowed}
use free5gc_udr.Gin.{
  M, ◌>>=◌, ◌>>◌, done, emit, get_state, answer_problem, json, status, document, documents, nothing,
  json_value, Action,
}
use free5gc_udr.Callback.{pre_handle_policy_data_change_notification}
use free5gc_udr.Database.{
  Mongo, Result, ok, err, Found, found, problem, by, by2, run, get_data_from_db,
  delete_data_from_db,
}
use free5gc_udr.Documents.{query, query_and_go_on}

module _ {Db : Type 0} where
  unfoldable pub emit_all : List Action → M Db (Unit {0})
  emit_all actions db = record { result = some tt; state = db; actions = actions }

  -- A query whose every problem is answered as a missing document.
  unfoldable pub answer_found_or_missing : Found → M Db (Unit {0})
  answer_found_or_missing (problem pd) = answer_problem (not_found "DATA_NOT_FOUND")
  answer_found_or_missing (found d) = emit (json 200 (document d))

module _ {Db : Type 0} (m : Mongo Db) where
  unfoldable pub bdt_data_delete_procedure : String → String → M Db (Unit {0})
  unfolding delete_data_from_db
  bdt_data_delete_procedure coll_name id = do
    delete_data_from_db m coll_name (by "bdtReferenceId" id)
    emit (status 204)

  unfoldable pub bdt_data_get_procedure : String → String → M Db (Unit {0})
  unfolding query
  bdt_data_get_procedure coll_name id = query m coll_name (by "bdtReferenceId" id)

  -- Whether the document existed decides on the notification alone: the answer is 201 always.
  unfoldable pub notify_existed : Bool → String → Json → M Db (Unit {0})
  unfolding emit_all
  notify_existed true id bdt =
      emit_all (pre_handle_policy_data_change_notification "" id (bdt_data bdt))
  notify_existed false id bdt = done

  -- `sent` is the request, and the document what util.ToBsonM gives for it.
  unfoldable pub bdt_data_put_procedure : String → String → Json → Document → M Db (Unit {0})
  unfolding notify_existed
  bdt_data_put_procedure coll_name id sent data_sent = do
    let put_data = put "bdtReferenceId" (text id) data_sent
    r ← run m (λ db. m.put_one db coll_name (by "bdtReferenceId" id) put_data)
    elim r [
      | err e ↦ answer_problem (unspecified e)
      | ok existed ↦ do notify_existed existed id sent; emit (json 201 (document put_data))
    ]

  abbrev answer_array : Option (List Document) → M Db (Unit {0})
  answer_array none = emit (json 200 nothing)
  answer_array (some ds) = emit (json 200 (documents ds))

  -- With no `return` after the error, the nil list is answered a second time.
  unfoldable pub bdt_data_list_procedure : String → M Db (Unit {0})
  bdt_data_list_procedure coll_name = do
    db ← get_state
    elim (m.get_many db coll_name end false) [
      | err e ↦ do emit (json 200 nothing); emit (json 200 nothing)
      | ok list ↦ answer_array list
    ]

  unfoldable pub plmn_ue_policy_set_get_procedure : String → String → M Db (Unit {0})
  unfolding query
  plmn_ue_policy_set_get_procedure coll_name plmn_id = query m coll_name (by "plmnId" plmn_id)

  unfoldable pub sponsor_connectivity_data_get_procedure : String → String → M Db (Unit {0})
  unfolding query
  sponsor_connectivity_data_get_procedure coll_name sponsor_id =
      query m coll_name (by "sponsorId" sponsor_id)

  unfoldable pub am_data_get_procedure : String → String → M Db (Unit {0})
  unfolding query_and_go_on
  am_data_get_procedure coll_name ue_id = query_and_go_on m coll_name (by "ueId" ue_id)

  abbrev container : Option Json → M Db (Unit {0})
  container none = emit (json 200 nothing)
  container (some v) = emit (json 200 (json_value v))

  -- With no `return` after the problem, the entry of the nil document is answered too.
  unfoldable pub operator_specific_data_get_procedure : String → String → M Db (Unit {0})
  unfolding get_data_from_db
  operator_specific_data_get_procedure coll_name ue_id = do
    r ← get_data_from_db m coll_name (by "ueId" ue_id)
    elim r [
      | problem pd ↦ do answer_problem pd; container none
      | found d ↦ container (get "operatorSpecificDataContainerMap" d)
    ]

  -- The patch text, nil after an error of Marshal, which is answered and does not end the procedure.
  abbrev patch_text : Result String → String
  patch_text (err e) = ""
  patch_text (ok s) = s

  abbrev report : {A : Type 0} → Result A → M Db (Unit {0})
  report (err e) = answer_problem (modify_not_allowed "")
  report (ok _) = done

  unfoldable pub operator_specific_data_patch_procedure :
      String → String → List PatchItem → M Db (Unit {0})
  operator_specific_data_patch_procedure coll_name ue_id items = do
    report (m.marshal_patch items)
    r ← run m (λ db.
        m.json_patch_extend db coll_name (by "ueId" ue_id) (patch_text (m.marshal_patch items))
          "operatorSpecificDataContainerMap")
    report r
    emit (status 204)

  -- An error is only logged.
  unfoldable pub operator_specific_data_put_procedure : String → String → Json → M Db (Unit {0})
  operator_specific_data_put_procedure coll_name ue_id containers = do
    _ ← run m (λ db.
        m.put_one db coll_name (by "ueId" ue_id)
          (field "operatorSpecificDataContainerMap" containers (field "ueId" (text ue_id) end)))
    emit (status 200)

  unfoldable pub usage_mon_delete_procedure : String → String → String → M Db (Unit {0})
  unfolding delete_data_from_db
  usage_mon_delete_procedure coll_name ue_id usage_mon_id = do
    delete_data_from_db m coll_name (by2 "ueId" ue_id "usageMonId" usage_mon_id)
    emit (status 204)

  unfoldable pub usage_mon_get_procedure : String → String → String → M Db (Unit {0})
  unfolding get_data_from_db answer_found_or_missing
  usage_mon_get_procedure coll_name usage_mon_id ue_id = do
    r ← get_data_from_db m coll_name (by2 "ueId" ue_id "usageMonId" usage_mon_id)
    answer_found_or_missing r

  unfoldable pub usage_mon_put_procedure : String → String → String → Document → M Db (Unit {0})
  usage_mon_put_procedure coll_name ue_id usage_mon_id data_sent = do
    let put_data = put "usageMonId" (text usage_mon_id) (put "ueId" (text ue_id) data_sent)
    r ← run m (λ db. m.put_one db coll_name (by2 "ueId" ue_id "usageMonId" usage_mon_id) put_data)
    elim r [ err e ↦ answer_problem (unspecified "") | ok _ ↦ emit (json 200 (document put_data)) ]

  unfoldable pub ue_policy_set_get_procedure : String → String → M Db (Unit {0})
  unfolding get_data_from_db answer_found_or_missing
  ue_policy_set_get_procedure coll_name ue_id = do
    r ← get_data_from_db m coll_name (by "ueId" ue_id)
    answer_found_or_missing r

  -- `decode` is json.Unmarshal to models.UePolicySet.
  unfoldable pub ue_policy_set_patch_procedure :
      (Document → Result Json) → String → String → Document → M Db (Unit {0})
  unfolding emit_all get_data_from_db
  ue_policy_set_patch_procedure decode coll_name ue_id data_sent = do
    r ←
        run m
          (λ db. m.merge_patch db coll_name (by "ueId" ue_id) (put "ueId" (text ue_id) data_sent))
    elim r [
      | err e ↦ answer_problem (modify_not_allowed "")
      | ok _ ↦ do
        now ← get_data_from_db m coll_name (by "ueId" ue_id)
        elim now [
          | problem pd ↦ answer_problem pd
          | found d ↦ elim (decode d) [
            | err e ↦ answer_problem (m.system_failure e)
            | ok v ↦ do
              emit_all (pre_handle_policy_data_change_notification ue_id "" (ue_policy_set v))
              emit (status 204)
          ]
        ]
    ]

  -- With no `return` after the first status, the answer 201 follows it.
  unfoldable pub ue_policy_set_put_procedure : String → String → Document → M Db (Unit {0})
  ue_policy_set_put_procedure coll_name ue_id data_sent = do
    let put_data = put "ueId" (text ue_id) data_sent
    r ← run m (λ db. m.put_one db coll_name (by "ueId" ue_id) put_data)
    elim r [
      | err e ↦ do emit (status 500); emit (json 201 (document put_data))
      | ok true ↦ do emit (status 204); emit (json 201 (document put_data))
      | ok false ↦ emit (json 201 (document put_data))
    ]
