-- ===== src/Registrations.antt =====
-- The procedures of internal/sbi/processor that write registration and authentication documents:
-- the files amf3_gpp_access_registration_document.go, amf_non3_gpp_…, smf_registration_document.go,
-- smsf3_gpp_…, smsf_non3_gpp_…, authentication_{data,so_r,status}_document.go,
-- operator_specific_data_container_document.go and provisioned_parameter_data_document.go.
-- A document that is passed in is what util.ToBsonM gives for the request.
pub mod Laws
use Prim.Native.String.{String}
use free5gc_udr.Base.{ℕ, Bool, true, false, List, [], ◌∷◌, Option, none, some, if◌then◌else◌}
use free5gc_udr.Base.Int.{ℤ, to_int32, parse_int}
use free5gc_udr.Models.{Document, end, field, text, number, put, PatchItem}
use free5gc_udr.Problem.{ProblemDetails, system_failure, modify_not_allowed}
use free5gc_udr.Gin.{
  M, ◌>>=◌, ◌>>◌, pure, emit, answer_problem, json, status, content, document, set_problem, problem,
}
use free5gc_udr.Callback.{pre_handle_on_data_change_notify, current_resource_uri}
use free5gc_udr.Database.{
  Mongo, Result, ok, err, PatchResult, by, run, delete_data_from_db, patch_data_to_db_and_notify,
}
use free5gc_udr.Documents.{query}

module _ {Db : Type 0} (m : Mongo Db) where
  -- `PreHandleOnDataChangeNotify(…); c.Status(http.StatusNoContent)`
  unfoldable pub notify_and_end : String → List PatchItem → PatchResult → M Db (Unit {0})
  notify_and_end ue_id items r = do
    emit
        (pre_handle_on_data_change_notify ue_id current_resource_uri items r.orig_value r.new_value)
    emit (status 204)

  -- The patch of a document: the problem of a failure is answered and ends the procedure.
  unfoldable pub patch_or_problem :
      M Db (Unit {0}) → String → String → List PatchItem → M Db (Unit {0})
  unfolding notify_and_end patch_data_to_db_and_notify
  patch_or_problem failure coll_name ue_id items = do
    r ← patch_data_to_db_and_notify m coll_name ue_id items (by "ueId" ue_id)
    elim r.error [ some _ ↦ failure | none ↦ notify_and_end ue_id items r ]

  -- The same with no `return` after the problem.
  unfoldable pub patch_and_go_on :
      (String → ProblemDetails) → String → String → List PatchItem → Document → M Db (Unit {0})
  unfolding notify_and_end patch_data_to_db_and_notify
  patch_and_go_on failure coll_name ue_id items filter = do
    r ← patch_data_to_db_and_notify m coll_name ue_id items filter
    elim r.error [
      | some e ↦ do answer_problem (failure e); notify_and_end ue_id items r
      | none ↦ notify_and_end ue_id items r
    ]

  unfoldable pub amf_context_3gpp_procedure : String → String → List PatchItem → M Db (Unit {0})
  unfolding patch_and_go_on
  amf_context_3gpp_procedure coll_name ue_id items =
      patch_and_go_on (λ _. modify_not_allowed "") coll_name ue_id items (by "ueId" ue_id)

  unfoldable pub amf_context_non_3gpp_procedure :
      String → String → List PatchItem → Document → M Db (Unit {0})
  unfolding patch_and_go_on
  amf_context_non_3gpp_procedure ue_id coll_name items filter =
      patch_and_go_on system_failure coll_name ue_id items filter

  unfoldable pub modify_authentication_procedure :
      String → String → List PatchItem → M Db (Unit {0})
  unfolding patch_or_problem
  modify_authentication_procedure coll_name ue_id items =
      patch_or_problem
        (do
          emit (set_problem "MODIFY_NOT_ALLOWED")
          emit (json 500 (problem (modify_not_allowed ""))))
        coll_name ue_id items

  unfoldable pub patch_oper_spec_data_procedure : String → String → List PatchItem → M Db (Unit {0})
  unfolding patch_or_problem
  patch_oper_spec_data_procedure coll_name ue_id items =
      patch_or_problem (answer_problem (modify_not_allowed "")) coll_name ue_id items

  unfoldable pub modify_pp_data_procedure : String → String → List PatchItem → M Db (Unit {0})
  unfolding patch_or_problem
  modify_pp_data_procedure coll_name ue_id items =
      patch_or_problem (answer_problem (modify_not_allowed "")) coll_name ue_id items

  -- A document with its UE, stored under the filter of the UE; an error is only logged.
  unfoldable pub put_by_ue : String → String → Document → M Db (Unit {0})
  put_by_ue coll_name ue_id data_sent = do
    _ ← run m (λ db. m.put_one db coll_name (by "ueId" ue_id) (put "ueId" (text ue_id) data_sent))
    pure tt

  unfoldable pub create_amf_context_3gpp_procedure : String → String → Document → M Db (Unit {0})
  unfolding put_by_ue
  create_amf_context_3gpp_procedure coll_name ue_id registration = do
    put_by_ue coll_name ue_id registration
    emit (status 204)

  unfoldable pub create_amf_context_non_3gpp_procedure :
      Document → String → String → M Db (Unit {0})
  unfolding put_by_ue
  create_amf_context_non_3gpp_procedure registration coll_name ue_id = do
    put_by_ue coll_name ue_id registration
    emit (content 204 "application/json")

  unfoldable pub create_authentication_so_r_procedure : String → String → Document → M Db (Unit {0})
  unfolding put_by_ue
  create_authentication_so_r_procedure coll_name ue_id put_data = do
    put_by_ue coll_name ue_id put_data
    emit (status 204)

  unfoldable pub create_authentication_status_procedure :
      String → String → Document → M Db (Unit {0})
  unfolding put_by_ue
  create_authentication_status_procedure coll_name ue_id put_data = do
    put_by_ue coll_name ue_id put_data
    emit (status 204)

  unfoldable pub create_smsf_context_3gpp_procedure : String → String → Document → M Db (Unit {0})
  unfolding put_by_ue
  create_smsf_context_3gpp_procedure coll_name ue_id registration = do
    put_by_ue coll_name ue_id registration
    emit (status 204)

  unfoldable pub create_smsf_context_non_3gpp_procedure :
      Document → String → String → M Db (Unit {0})
  unfolding put_by_ue
  create_smsf_context_non_3gpp_procedure registration coll_name ue_id = do
    put_by_ue coll_name ue_id registration
    emit (status 204)

  unfoldable pub delete_smsf_context_3gpp_procedure : String → String → M Db (Unit {0})
  unfolding delete_data_from_db
  delete_smsf_context_3gpp_procedure coll_name ue_id = do
    delete_data_from_db m coll_name (by "ueId" ue_id)
    emit (status 204)

  unfoldable pub delete_smsf_context_non_3gpp_procedure : String → String → M Db (Unit {0})
  unfolding delete_data_from_db
  delete_smsf_context_non_3gpp_procedure coll_name ue_id = do
    delete_data_from_db m coll_name (by "ueId" ue_id)
    emit (status 204)

  -- The filter of a PDU session.
  abbrev pub by_session : String → ℤ → Document
  by_session ue_id session = field "ueId" (text ue_id) (field "pduSessionId" (number session) end)

  unfoldable pub create_smf_context_non_3gpp_procedure :
      Document → String → String → ℤ → M Db (Unit {0})
  create_smf_context_non_3gpp_procedure registration coll_name ue_id session = do
    let put_data =
        put "pduSessionId" (number (to_int32 session)) (put "ueId" (text ue_id) registration)
    r ← run m (λ db. m.put_one db coll_name (by_session ue_id session) put_data)
    elim r [
      | err e ↦ do emit (set_problem "SYSTEM_FAILURE"); emit (json 500 (problem (system_failure e)))
      | ok true ↦ emit (json 200 (document put_data))
      | ok false ↦ emit (json 201 (document put_data))
    ]

  -- An error of the parsing is only logged.
  unfoldable pub delete_smf_context_procedure : String → String → String → M Db (Unit {0})
  unfolding delete_data_from_db
  delete_smf_context_procedure coll_name ue_id session = do
    delete_data_from_db m coll_name (by_session ue_id (parse_int 10 32 session))
    emit (status 204)

  unfoldable pub query_smf_registration_procedure : String → String → String → M Db (Unit {0})
  unfolding query
  query_smf_registration_procedure coll_name ue_id session =
      query m coll_name (by_session ue_id (parse_int 10 32 session))
