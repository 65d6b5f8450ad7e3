-- ===== src/Sbi/Applications.antt =====
-- internal/sbi/api_datarepository.go: the handlers of application data, of shared data and of exposure
-- data.
pub mod Laws
use Prim.Native.String.{String}
use free5gc_udr.Base.{
  Bool, true, false, ◌==◌, ◌&&◌, if◌then◌else◌, List, [], ◌∷◌, ◌++◌, Option, none, some,
}
use free5gc_udr.Models.{
  Json, null, number, text, array, object, Items, nil, cons, Document, end, field, Snssai,
}
use free5gc_udr.Context.{new_influence_data_subscription_id}
use free5gc_udr.Gin.{M, emit, json, plain, set_problem, problem, document, ◌>>◌}
use free5gc_udr.Database.{by}
use free5gc_udr.Sbi.Patterns.{split_comma, free_of}
use free5gc_udr.Sbi.{
  Incoming, query_value, first, Decoder, Outside, World, on_context, on_db, with_body,
  get_data_from_request_body,
}
use free5gc_udr.Collections.{
  get_application_data_pfds_from_db_procedure,
  delete_application_data_individual_pfd_from_db_procedure,
  put_application_data_individual_pfd_to_db_procedure,
  get_application_data_individual_pfd_from_db_procedure, get_shared_data_procedure,
}
use free5gc_udr.Influence.{
  influence_data_subs_to_notify_id_get_procedure, influence_data_subs_to_notify_get_procedure,
  influence_data_subs_to_notify_delete_procedure, influence_data_subs_to_notify_put_procedure,
  influence_data_subs_to_notify_post_procedure,
}
use free5gc_udr.InfluenceData.{
  influence_data_influence_id_delete_procedure, influence_data_influence_id_put_procedure,
  influence_data_get_procedure, influence_data_influence_id_post_procedure,
}

module _ {Db : Type 0} where
  -- `c.JSON(http.StatusNotImplemented, gin.H{})`
  abbrev pub not_implemented : M (World Db) (Unit {0})
  not_implemented = emit (json 501 (document end))

abbrev texts : List String → Items
texts [] = nil
texts (x ∷ xs) = cons (text x) (texts xs)

-- `bson.M{key: bson.M{"$in": …}}` of the parts of the first value.
abbrev pub one_of : String → List String → Document
one_of key values =
    field key (object (field "$in" (array (texts (split_comma (first values)))) end)) end

-- `bson.M{"$or": …}` of a filter and the filter of any UE.
abbrev pub or_any_ue : Document → Document
or_any_ue d =
    field "$or" (array (cons (object d) (cons (object (by "interGroupId" "AnyUE")) nil))) end

-- `append(filter, d)` if the query key has a value.
abbrev pub if_given : List String → Document → List Document
if_given [] d = []
if_given (x ∷ xs) d = d ∷ []

abbrev match_items : List Snssai → Items
match_items [] = nil
match_items (s ∷ ss) =
    cons (object (field "snssai.sst" (number s.sst) (field "snssai.sd" (text s.sd) end)))
      (match_items ss)

-- A list that nothing was appended to is nil.
abbrev pub build_snssai_match_list : List Snssai → Json
build_snssai_match_list [] = null
build_snssai_match_list (s ∷ ss) = array (match_items (s ∷ ss))

-- The groups, and the UEs if no group is given.
abbrev pub group_or_ue_filter : List String → List String → List Document
group_or_ue_filter [] supis = if_given supis (or_any_ue (one_of "supi" supis))
group_or_ue_filter (g ∷ gs) supis = or_any_ue (one_of "interGroupId" (g ∷ gs)) ∷ []

-- The filters of a query of influence data.
unfoldable pub influence_filters : Decoder → Incoming → List Document
influence_filters decode req =
    if_given (req.query_array "influence-Ids")
      (one_of "influenceId" (req.query_array "influence-Ids"))
    ++ if_given (req.query_array "dnns") (one_of "dnn" (req.query_array "dnns"))
    ++ group_or_ue_filter (req.query_array "internal-Group-Id") (req.query_array "supis")
    ++ if_given (req.query_array "snssais") (
        field "$or" (build_snssai_match_list (decode.snssais (first (req.query_array "snssais"))))
          end)

-- The first of the values is split if it has a comma, and the others are left out then.
unfoldable pub shared_data_ids : List String → List String
shared_data_ids [] = []
shared_data_ids (x ∷ xs) = if free_of b',' x then x ∷ xs else split_comma x

module _ {Db : Type 0} where
  -- `if influenceId != "subs-to-notify" { c.String(404, …) }` with no `return`.
  unfoldable pub only_subs_to_notify : Incoming → M (World Db) (Unit {0}) → M (World Db) (Unit {0})
  only_subs_to_notify req k =
      if req.param "influenceId" == "subs-to-notify"
      then k
      else (do emit (plain 404 "404 page not found"); k)

  abbrev answer_400 : String → M (World Db) (Unit {0})
  answer_400 detail = do
    emit (set_problem "Bad Request")
    emit (json 400 (problem (record { title = ""; status = 400; detail = detail; cause = "" })))

-- `new(models.Snssai)` with what was decoded into it, and the error; nil if the query has none.
unfoldable pub read_snssai : Decoder → String → Option Snssai × Option String
read_snssai decode query =
    if query == ""
    then (none, none)
    else (some ((decode.snssai_with_error query).0), (decode.snssai_with_error query).1)

module _ {Db : Type 0} where
  -- An error of the decoding is answered, and the handler goes on.
  unfoldable pub report_snssai :
      Option Snssai × Option String
      → (Option Snssai → M (World Db) (Unit {0}))
      → M (World Db) (Unit {0})
  report_snssai read k = elim read.1 [ none ↦ k read.0 | some e ↦ do answer_400 e; k read.0 ]

abbrev is_nil : Option Snssai → Bool
is_nil none = true
is_nil (some s) = false

module _ {Db : Type 0} where
  -- A query that asks for nothing is answered, and the handler goes on.
  unfoldable pub report_nothing_asked :
      String → Option Snssai → String → String → M (World Db) (Unit {0}) → M (World Db) (Unit {0})
  report_nothing_asked dnn snssai internal_group_id supi k =
      if dnn == "" && is_nil snssai && internal_group_id == "" && supi == ""
      then (do
        answer_400 "At least one of DNNs, S-NSSAIs, Internal Group IDs or SUPIs shall be provided"
        k)
      else k

module _ {Db : Type 0} (o : Outside Db) where
  unfoldable pub handle_application_data_influence_data_get : Incoming → M (World Db) (Unit {0})
  handle_application_data_influence_data_get req = on_db (λ c.
      influence_data_get_procedure o.mongo o.codec c "applicationData.influenceData"
        (influence_filters o.decode req))

  unfoldable pub handle_application_data_influence_data_subs_to_notify_subscription_id_delete :
      Incoming → M (World Db) (Unit {0})
  handle_application_data_influence_data_subs_to_notify_subscription_id_delete req =
      only_subs_to_notify req
        (on_context (influence_data_subs_to_notify_delete_procedure (req.param "subscriptionId")))

  unfoldable pub handle_application_data_influence_data_subs_to_notify_subscription_id_get :
      Incoming → M (World Db) (Unit {0})
  handle_application_data_influence_data_subs_to_notify_subscription_id_get req =
      only_subs_to_notify req
        (on_context (influence_data_subs_to_notify_id_get_procedure (req.param "subscriptionId")))

  unfoldable pub handle_application_data_influence_data_subs_to_notify_subscription_id_put :
      Incoming → M (World Db) (Unit {0})
  handle_application_data_influence_data_subs_to_notify_subscription_id_put req =
      only_subs_to_notify req (
        with_body o.decode.influ_sub req (λ sub. on_context (
          influence_data_subs_to_notify_put_procedure o.env.same (req.param "subscriptionId") sub)))

  unfoldable pub handle_application_data_pfds_app_id_delete : Incoming → M (World Db) (Unit {0})
  handle_application_data_pfds_app_id_delete req =
      on_db
        (λ _. delete_application_data_individual_pfd_from_db_procedure o.mongo (req.param "appId"))

  unfoldable pub handle_application_data_pfds_app_id_get : Incoming → M (World Db) (Unit {0})
  handle_application_data_pfds_app_id_get req =
      on_db (λ _. get_application_data_individual_pfd_from_db_procedure o.mongo (req.param "appId"))

  unfoldable pub handle_application_data_pfds_app_id_put : Incoming → M (World Db) (Unit {0})
  handle_application_data_pfds_app_id_put req =
      get_data_from_request_body o.mongo.system_failure (o.decode.value "PfdDataForApp") req (λ v.
        on_db (λ _.
          put_application_data_individual_pfd_to_db_procedure o.mongo (req.param "appId")
            (o.decode.to_bson_m v)))

  unfoldable pub handle_application_data_pfds_get : Incoming → M (World Db) (Unit {0})
  handle_application_data_pfds_get req =
      on_db (λ _. get_application_data_pfds_from_db_procedure o.mongo (req.query_array "appId"))

  unfoldable pub handle_application_data_influence_data_subs_to_notify_get :
      Incoming → M (World Db) (Unit {0})
  handle_application_data_influence_data_subs_to_notify_get req =
      report_snssai (read_snssai o.decode (query_value req "snssai")) (λ snssai.
        report_nothing_asked (query_value req "dnn") snssai (query_value req "internal-Group-Id")
          (query_value req "supi")
          (on_context (
            influence_data_subs_to_notify_get_procedure o.env.visit_influence
              (query_value req "dnn") snssai (query_value req "internal-Group-Id")
              (query_value req "supi"))))

  unfoldable pub handle_application_data_influence_data_subs_to_notify_post :
      Incoming → M (World Db) (Unit {0})
  handle_application_data_influence_data_subs_to_notify_post req =
      with_body o.decode.influ_sub req (λ sub. on_context (
        influence_data_subs_to_notify_post_procedure o.env.same
          (new_influence_data_subscription_id req.drawn) sub))

  unfoldable pub handle_application_data_influence_data_influence_id_delete :
      Incoming → M (World Db) (Unit {0})
  handle_application_data_influence_data_influence_id_delete req = on_db (λ c.
      influence_data_influence_id_delete_procedure o.mongo o.codec c "applicationData.influenceData"
        (req.param "influenceId"))

  unfoldable pub handle_application_data_influence_data_influence_id_put :
      Incoming → M (World Db) (Unit {0})
  handle_application_data_influence_data_influence_id_put req =
      with_body o.decode.influ_data req (λ v. on_db (λ c.
        influence_data_influence_id_put_procedure o.mongo o.codec c "applicationData.influenceData"
          (req.param "influenceId") v))

  unfoldable pub handle_application_data_influence_data_influence_id_post :
      Incoming → M (World Db) (Unit {0})
  handle_application_data_influence_data_influence_id_post req =
      on_db (λ c. influence_data_influence_id_post_procedure o.mongo o.codec c)

  unfoldable pub handle_get_shared_data : Incoming → M (World Db) (Unit {0})
  handle_get_shared_data req = on_db (λ _.
      get_shared_data_procedure o.mongo "subscriptionData.sharedData"
        (shared_data_ids (req.query_array "shared-data-ids")))

  unfoldable pub handle_application_data_influence_data_influence_id_patch :
      Incoming → M (World Db) (Unit {0})
  handle_application_data_influence_data_influence_id_patch req = not_implemented

  unfoldable pub handle_exposure_data_subs_to_notify_post : Incoming → M (World Db) (Unit {0})
  handle_exposure_data_subs_to_notify_post req = not_implemented

  unfoldable pub handle_exposure_data_subs_to_notify_sub_id_delete :
      Incoming → M (World Db) (Unit {0})
  handle_exposure_data_subs_to_notify_sub_id_delete req = not_implemented

  unfoldable pub handle_exposure_data_subs_to_notify_sub_id_put : Incoming → M (World Db) (Unit {0})
  handle_exposure_data_subs_to_notify_sub_id_put req = not_implemented

  unfoldable pub handle_create_session_management_data : Incoming → M (World Db) (Unit {0})
  handle_create_session_management_data req = not_implemented

  unfoldable pub handle_delete_session_management_data : Incoming → M (World Db) (Unit {0})
  handle_delete_session_management_data req = not_implemented

  unfoldable pub handle_query_session_management_data : Incoming → M (World Db) (Unit {0})
  handle_query_session_management_data req = not_implemented

  unfoldable pub handle_create_access_and_mobility_data : Incoming → M (World Db) (Unit {0})
  handle_create_access_and_mobility_data req = not_implemented

  unfoldable pub handle_delete_access_and_mobility_data : Incoming → M (World Db) (Unit {0})
  handle_delete_access_and_mobility_data req = not_implemented

  unfoldable pub handle_query_access_and_mobility_data : Incoming → M (World Db) (Unit {0})
  handle_query_access_and_mobility_data req = not_implemented
