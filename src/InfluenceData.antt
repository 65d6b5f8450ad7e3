-- ===== src/InfluenceData.antt =====
-- The influence data of the database: internal/sbi/processor/individual_influence_data_document.go,
-- the delete procedure of influence_data_subscriptions_collection.go, and influence_data.go.
pub mod Laws
use Prim.Native.String.{String, ◌++◌}
use free5gc_udr.Base.{ℕ, Bool, true, false, not, List, [], ◌∷◌, Option, none, some, if◌then◌else◌}
use free5gc_udr.DeepEqual.{influ_data_eq}
use free5gc_udr.Models.{
  Document, Json, Items, nil, cons, end, field, text, number, object, array, put, get, remove,
  TrafficInfluData, Snssai,
}
use free5gc_udr.Problem.{ProblemDetails, unspecified}
use free5gc_udr.Context.{UdrContext, nudr_dr, get_ipv4_group_uri}
use free5gc_udr.Gin.{
  M, ◌>>=◌, ◌>>◌, done, pure, panic, emit, get_state, answer_problem, header, json, status, problem,
  set_problem, influ_data, documents, nothing,
}
use free5gc_udr.Callback.{pre_handle_influence_data_update_notification}
use free5gc_udr.Database.{Mongo, Result, ok, err, by, run}

-- json.Marshal and json.Unmarshal between documents and models.TrafficInfluData, whose tags are not
-- part of the repository.
pub record Codec : Type 0 where
  pub decode : Document → Result TrafficInfluData
  pub to_bson_m : TrafficInfluData → Document

-- `len(mapData) != 0`
abbrev pub has_fields : Option Document → Bool
has_fields none = false
has_fields (some end) = false
has_fields (some (field k v d)) = true

abbrev pub document_of : Option Document → Document
document_of none = end
document_of (some d) = d

-- The original: nil for a document that is not there or empty.
unfoldable pub original_of : Codec → Option Document → Result (Option TrafficInfluData)
original_of codec stored =
    if has_fields stored then decoded (codec.decode (document_of stored)) else ok none
  where
    decoded : Result TrafficInfluData → Result (Option TrafficInfluData)
    decoded (err e) = err e
    decoded (ok d) = ok (some d)

-- `original == nil || !reflect.DeepEqual(*original, *request)`
unfoldable pub changed_from : Option TrafficInfluData → TrafficInfluData → Bool
changed_from none request = true
changed_from (some original) request = not (influ_data_eq original request)

module _ {Db : Type 0} (m : Mongo Db) (codec : Codec) (c : UdrContext) where
  -- The answer 500 of the put procedure.
  abbrev pub answer_failure : String → M Db (Unit {0})
  answer_failure e = do
    emit (set_problem "Internal Server Error")
    emit (json 500 (problem (record { title = ""; status = 500; detail = e; cause = "" })))

  -- The notification of a change.
  unfoldable pub notify_change :
      String → Option TrafficInfluData → TrafficInfluData → M Db (Unit {0})
  unfolding changed_from
  notify_change id original request =
      if changed_from original request
      then emit (pre_handle_influence_data_update_notification c id original (some request))
      else done

  unfoldable pub answer_put : String → TrafficInfluData → Bool → M Db (Unit {0})
  answer_put id request true = emit (json 200 (influ_data request))
  answer_put id request false = do
    emit (
        header "Location"
          (get_ipv4_group_uri nudr_dr c ++ "/application-data/influenceData/" ++ id))
    emit (json 201 (influ_data request))

  unfoldable pub influence_data_influence_id_put_procedure :
      String → String → TrafficInfluData → M Db (Unit {0})
  unfolding original_of notify_change answer_put
  influence_data_influence_id_put_procedure coll_name id request = do
    db ← get_state
    elim (m.get_one db coll_name (by "influenceId" id) false) [
      | err e ↦ answer_failure e
      | ok stored ↦ elim (original_of codec stored) [
        | err e ↦ answer_failure e
        | ok original ↦ do
          r ← run m (λ db.
              m.put_one db coll_name (by "influenceId" id)
                (put "influenceId" (text id) (codec.to_bson_m request)))
          elim r [
            | err e ↦ answer_failure e
            | ok existed ↦ do notify_change id original request; answer_put id request existed
          ]
      ]
    ]

  unfoldable pub influence_data_influence_id_post_procedure : M Db (Unit {0})
  influence_data_influence_id_post_procedure = do
    emit (set_problem "Method Not Allowed")
    emit (status 405)

  unfoldable pub influence_data_influence_id_delete_procedure : String → String → M Db (Unit {0})
  unfolding original_of
  influence_data_influence_id_delete_procedure coll_name id = do
    db ← get_state
    elim (m.get_one db coll_name (by "influenceId" id) false) [
      | err e ↦ answer_problem (unspecified "")
      | ok stored ↦ elim (original_of codec stored) [
        | err e ↦ answer_problem (unspecified e)
        | ok original ↦ do
          r ← run m (λ db. m.delete_one db coll_name (by "influenceId" id))
          elim r [
            | err e ↦ answer_problem (unspecified e)
            | ok _ ↦ do
              emit (pre_handle_influence_data_update_notification c id original none)
              emit (status 204)
          ]
      ]
    ]

  -- One document of the answer: its resource URI in place of its identifiers. An identifier that is
  -- no text is a panic.
  unfoldable pub present : Document → Option Document
  present d = elim (get "influenceId" d) [
    | some (text id) ↦ some (
        remove "influenceId" (
          remove "_id" (
            put "resUri"
              (text (get_ipv4_group_uri nudr_dr c ++ "/application-data/influenceData/" ++ id)) d)))
    | _ ↦ none
  ]

  unfoldable pub present_all : List Document → Option (List Document)
  present_all [] = some []
  present_all (d ∷ ds) = elim (present d) [
    | none ↦ none
    | some p ↦ elim (present_all ds) [ none ↦ none | some ps ↦ some (p ∷ ps) ]
  ]

  -- The filter {"$and": filters}.
  items_of : List Document → Items
  items_of [] = nil
  items_of (d ∷ ds) = cons (object d) (items_of ds)

  answer_all : Option (List Document) → M Db (Unit {0})
  answer_all none = panic
  answer_all (some ds) = emit (json 200 (documents ds))

  -- With no filter nothing is read and the answer is the empty list. An error of the database ends
  -- the procedure with no answer.
  unfoldable pub influence_data_get_procedure : String → List Document → M Db (Unit {0})
  unfolding present_all present items_of answer_all
  influence_data_get_procedure coll_name [] = emit (json 200 (documents []))
  influence_data_get_procedure coll_name (f ∷ fs) = do
    db ← get_state
    elim (m.get_many db coll_name (field "$and" (array (items_of (f ∷ fs))) end) false) [
      | err e ↦ done
      | ok none ↦ emit (json 200 nothing)
      | ok (some ds) ↦ answer_all (present_all ds)
    ]
