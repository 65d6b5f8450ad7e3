-- ===== src/Collections.antt =====
-- The procedures of internal/sbi/processor that answer with several documents or with what they
-- pick from one: retrieval_of_shared_data.go, query_identity_data_by_supi_or_gpsi_document.go,
-- smf_registrations_collection.go and the PFD procedures of default.go.
pub mod Laws
use Prim.Native.String.{String}
use free5gc_udr.Base.{true, false, List, [], ◌∷◌, ◌++◌, Option, none, some, if◌then◌else◌, ◌=ℕ=◌}
use free5gc_udr.Models.{Json, Document, end, field, text, array, nil, cons, object, get}
use free5gc_udr.Problem.{ProblemDetails, not_found}
use free5gc_udr.Gin.{
  M, ◌>>=◌, ◌>>◌, pure, emit, panic, get_state, answer_problem, json, status, document, documents,
  nothing, identity_data, set_problem,
}
use free5gc_udr.Database.{
  Mongo, ok, err, Found, found, problem, by, run, get_data_from_db, delete_data_from_db,
}
use free5gc_udr.Documents.{answer_found_and_go_on}

-- db.APPDATA_PFD_DB_COLLECTION_NAME
abbrev pub pfd_collection : String
pfd_collection = "applicationData.pfds"

-- What the loop over the shared data identifiers ends with: the documents so far, or the problem of
-- an internal error, which ends it at once.
pub data Gathered : Type 0 where
  gathered : List Document → Gathered
  broken : ProblemDetails → Gathered

module _ {Db : Type 0} (m : Mongo Db) where
  after_shared : List Document → Found → Gathered
  after_shared acc (found d) = gathered (acc ++ d ∷ [])
  after_shared acc (problem pd) = if pd.status =ℕ= 500 then broken pd else gathered acc

  unfoldable pub shared_loop : String → List Document → List String → M Db Gathered
  unfolding after_shared get_data_from_db
  shared_loop coll_name acc [] = pure (gathered acc)
  shared_loop coll_name acc (id ∷ ids) = do
    r ← get_data_from_db m coll_name (by "sharedDataId" id)
    elim (after_shared acc r) [
      | broken pd ↦ pure (broken pd)
      | gathered acc' ↦ shared_loop coll_name acc' ids
    ]

  unfoldable pub get_shared_data_procedure : String → List String → M Db (Unit {0})
  unfolding shared_loop
  get_shared_data_procedure coll_name ids = do
    r ← shared_loop coll_name [] ids
    elim r [
      | broken pd ↦ answer_problem pd
      | gathered [] ↦ answer_problem (not_found "DATA_NOT_FOUND")
      | gathered (d ∷ ds) ↦ emit (json 200 (documents (d ∷ ds)))
    ]

  -- `v.(string)` for a key that may be missing: a value of another type is a panic.
  text_list : Option Json → Option (List String)
  text_list none = some []
  text_list (some (text s)) = some (s ∷ [])
  text_list (some _) = none

  -- The filter {"$or": [{"gpsi": ueId}, {"ueId": ueId}]}.
  abbrev pub by_gpsi_or_ue : String → Document
  by_gpsi_or_ue ue_id =
      field "$or" (array (cons (object (by "gpsi" ue_id)) (cons (object (by "ueId" ue_id)) nil)))
        end

  unfoldable pub get_identity_data_procedure : String → String → M Db (Unit {0})
  unfolding text_list get_data_from_db
  get_identity_data_procedure coll_name ue_id = do
    r ← get_data_from_db m coll_name (by_gpsi_or_ue ue_id)
    elim r [
      | problem pd ↦ answer_problem pd
      | found d ↦ elim (text_list (get "gpsi" d)) [
        | none ↦ panic
        | some gpsis ↦ elim (text_list (get "ueId" d)) [
          | none ↦ panic
          | some supis ↦
              emit (json 200 (identity_data (record { gpsi_list = gpsis; supi_list = supis })))
        ]
      ]
    ]

  -- `c.JSON(http.StatusOK, list)` for a list that may be nil.
  abbrev answer_list : Option (List Document) → M Db (Unit {0})
  answer_list none = emit (json 200 nothing)
  answer_list (some ds) = emit (json 200 (documents ds))

  unfoldable pub query_smf_reg_list_procedure : String → String → M Db (Unit {0})
  query_smf_reg_list_procedure coll_name ue_id = do
    db ← get_state
    elim (m.get_many db coll_name (by "ueId" ue_id) true) [
      | err e ↦ emit (json 200 nothing)
      | ok list ↦ answer_list list
    ]

  unfoldable pub delete_application_data_individual_pfd_from_db_procedure : String → M Db (Unit {0})
  unfolding delete_data_from_db
  delete_application_data_individual_pfd_from_db_procedure app_id = do
    delete_data_from_db m pfd_collection (by "applicationId" app_id)
    emit (status 204)

  unfoldable pub get_application_data_individual_pfd_from_db_procedure : String → M Db (Unit {0})
  unfolding get_data_from_db answer_found_and_go_on
  get_application_data_individual_pfd_from_db_procedure app_id = do
    r ← get_data_from_db m pfd_collection (by "applicationId" app_id)
    answer_found_and_go_on r

  -- With no `return` after the answer 200, both answers are given.
  unfoldable pub put_application_data_individual_pfd_to_db_procedure :
      String → Document → M Db (Unit {0})
  put_application_data_individual_pfd_to_db_procedure app_id pfd = do
    r ← run m (λ db. m.put_one db pfd_collection (by "applicationId" app_id) pfd)
    elim r [
      | err e ↦ do emit (set_problem "Internal Server Error"); emit (json 500 nothing)
      | ok true ↦ do emit (json 200 (document pfd)); emit (json 201 (document pfd))
      | ok false ↦ emit (json 201 (document pfd))
    ]

  unfoldable pub pfds_loop : List Document → List String → M Db (List Document)
  unfolding get_data_from_db
  pfds_loop acc [] = pure acc
  pfds_loop acc (id ∷ ids) = do
    r ← get_data_from_db m pfd_collection (by "applicationId" id)
    elim r [ problem _ ↦ pfds_loop acc ids | found d ↦ pfds_loop (acc ++ d ∷ []) ids ]

  unfoldable pub get_application_data_pfds_from_db_procedure : List String → M Db (Unit {0})
  unfolding pfds_loop
  get_application_data_pfds_from_db_procedure [] = do
    db ← get_state
    elim (m.get_many db pfd_collection end false) [
      | err e ↦ emit (json 200 nothing)
      | ok list ↦ answer_list list
    ]
  get_application_data_pfds_from_db_procedure (id ∷ ids) = do
    ds ← pfds_loop [] (id ∷ ids)
    elim ds [ [] ↦ emit (json 200 nothing) | d ∷ more ↦ emit (json 200 (documents (d ∷ more))) ]
