-- ===== src/Policy/SmData.antt =====
-- The procedures of internal/sbi/processor/default.go on the session management policy data of a UE.
pub mod Laws
use Prim.Native.String.{String}
use free5gc_udr.Base.{
  Bool, true, false, ◌=ℕ=◌, if◌then◌else◌, List, [], ◌∷◌, Option, none, some, insert,
}
use free5gc_udr.Models.{
  Json, object, Document, end, field, put, get, Snssai, UsageMonData, SmPolicySnssaiData,
  SmPolicyData, sm_policy_data, usage_mon_data,
}
use free5gc_udr.Problem.{ProblemDetails, not_found, modify_not_allowed}
use free5gc_udr.Convert.{snssai_models_to_hex, escape_dnn, unescape_dnn}
use free5gc_udr.Callback.{pre_handle_policy_data_change_notification}
use free5gc_udr.Gin as Gin
use free5gc_udr.Gin.{M, ◌>>=◌, ◌>>◌, done, pure, emit, get_state, answer_problem, json, status}
use free5gc_udr.Database.{
  Mongo, Result, ok, err, Found, found, problem, by, by2, run, get_data_from_db,
  get_data_from_db_with_arg,
}
use free5gc_udr.Policy.{emit_all}

-- What the two procedures take from outside the repository: encoding/json between documents and the
-- types of the package models, strings.EqualFold, and the order of a range over a map.
pub record SmPolicyCodec : Type 0 where
  pub equal_fold : String → String → Bool
  pub visit : Document → Document
  -- What json.Unmarshal leaves in a zero value; `none` is a nil map, and an error is only logged.
  pub sm_policy : Option Document → SmPolicyData
  pub usage_mon : Option Document → UsageMonData
  pub usage_mons : Option (List Document) → List UsageMonData
  pub to_bson_m : UsageMonData → Document
  -- The values as they are passed to PreHandlePolicyDataChangeNotification.
  pub sm_policy_json : SmPolicyData → Json
  pub usage_mon_json : UsageMonData → Json

-- `v.(map[string]interface{})`
abbrev pub as_map : Option Json → Option Document
as_map (some (object d)) = some d
as_map _ = none

-- A key of the map is equal to the text but for the case.
unfoldable pub has_key : (String → String → Bool) → String → Document → Bool
has_key equal_fold key end = false
has_key equal_fold key (field k v d) = if equal_fold k key then true else has_key equal_fold key d

-- The loop over the S-NSSAIs: an entry of another shape ends it.
unfoldable pub has_snssai_and_dnn : (String → String → Bool) → String → String → Document → Bool
unfolding has_key
has_snssai_and_dnn equal_fold hex dnn_key end = false
has_snssai_and_dnn equal_fold hex dnn_key (field k v d) =
    let rest = has_snssai_and_dnn equal_fold hex dnn_key d in
    if equal_fold k hex
    then elim (as_map (some v)) [
      | none ↦ false
      | some snssai_data ↦ elim (as_map (get "smPolicyDnnData" snssai_data)) [
        | none ↦ false
        | some dnns ↦ if has_key equal_fold dnn_key dnns then true else rest
      ]
    ]
    else rest

-- The copy of a map with its keys unescaped: an entry replaces an earlier one with the same key.
unfoldable pub unescape_keys : List (String × Json) → List (String × Json) → List (String × Json)
unescape_keys acc [] = acc
unescape_keys acc (entry ∷ rest) = unescape_keys (insert (unescape_dnn entry.0) entry.1 acc) rest

unfoldable pub unescape_all :
    List (String × SmPolicySnssaiData) → List (String × SmPolicySnssaiData)
unfolding unescape_keys
unescape_all [] = []
unescape_all (entry ∷ rest) =
    (entry.0, record entry.1 { sm_policy_dnn_data = unescape_keys [] entry.1.sm_policy_dnn_data })
    ∷ unescape_all rest

-- `m[element.LimitId] = element`, from the first to the last.
unfoldable pub by_limit_id :
    List (String × UsageMonData) → List UsageMonData → List (String × UsageMonData)
by_limit_id acc [] = acc
by_limit_id acc (e ∷ es) = by_limit_id (insert e.limit_id e acc) es

-- What the loop over the changes ends with: whether all were made, or the problem that ends the
-- procedure.
pub data Merged : Type 0 where
  merged : Bool → Merged
  broken : ProblemDetails → Merged

module _ {Db : Type 0} (m : Mongo Db) (codec : SmPolicyCodec) where
  -- The nil slice of an error is not deeply equal to an empty one.
  unfoldable pub with_usage_mons : Result (Option (List Document)) → SmPolicyData → SmPolicyData
  unfolding by_limit_id
  with_usage_mons (ok (some [])) sm = sm
  with_usage_mons (ok list) sm = record sm {
    um_data = some (by_limit_id [] (codec.usage_mons list));
  }
  with_usage_mons (err e) sm = record sm { um_data = some (by_limit_id [] (codec.usage_mons none)) }

  -- The document holds the S-NSSAI and the DNN.
  unfoldable pub holds : Snssai → String → Document → Bool
  unfolding has_snssai_and_dnn
  holds snssai dnn d = elim (as_map (get "smPolicySnssaiData" d)) [
    | none ↦ false
    | some datas ↦
        has_snssai_and_dnn codec.equal_fold (snssai_models_to_hex snssai) (escape_dnn dnn)
          (codec.visit datas)
  ]

  unfoldable pub sm_data_get_procedure : String → String → Snssai → String → M Db (Unit {0})
  unfolding with_usage_mons holds unescape_all
  sm_data_get_procedure coll_name ue_id snssai dnn = do
    r ← get_data_from_db_with_arg m coll_name (by "ueId" ue_id)
    elim r [
      | problem pd ↦ answer_problem pd
      | found d ↦
          if holds snssai dnn d
          then (do
            db ← get_state
            let resp = codec.sm_policy (some d)
            let unescaped = record resp {
              sm_policy_snssai_data = unescape_all resp.sm_policy_snssai_data;
            }
            emit (
                json 200 (
                  Gin.sm_policy_data (
                    with_usage_mons
                      (m.get_many db "policyData.ues.smData.usageMonData" (by "ueId" ue_id) false)
                      unescaped))))
          else answer_problem (not_found "DATA_NOT_FOUND")
    ]

  unfoldable pub document_of : Found → Option Document
  document_of (problem pd) = none
  document_of (found d) = some d

  unfoldable pub is_internal : Found → Option ProblemDetails
  is_internal (found d) = none
  is_internal (problem pd) = if pd.status =ℕ= 500 then some pd else none

  -- The notification of a change, unless the document could not be read.
  unfoldable pub report_change :
      String → String → Bool → Found → Option ProblemDetails → M Db Merged
  unfolding document_of
  report_change ue_id limit_id success now (some pd) = pure (broken pd)
  report_change ue_id limit_id success now none = do
    emit_all (
        pre_handle_policy_data_change_notification ue_id limit_id
          (usage_mon_data (codec.usage_mon_json (codec.usage_mon (document_of now)))))
    pure (merged success)

  -- One round of the loop; `success` is whether all were made before it.
  unfoldable pub merge_one : String → String → Bool → String × UsageMonData → M Db Merged
  unfolding report_change is_internal
  merge_one coll_name ue_id success entry = do
    r ← run m (λ db.
        m.merge_patch db coll_name (by2 "ueId" ue_id "limitId" entry.0) (codec.to_bson_m entry.1))
    elim r [
      | err e ↦ pure (merged false)
      | ok _ ↦ do
        now ← get_data_from_db m coll_name (by "ueId" ue_id)
        report_change ue_id entry.0 success now (is_internal now)
    ]

  unfoldable pub merge_loop : String → String → Bool → List (String × UsageMonData) → M Db Merged
  unfolding merge_one
  merge_loop coll_name ue_id success [] = pure (merged success)
  merge_loop coll_name ue_id success (entry ∷ more) = do
    r ← merge_one coll_name ue_id success entry
    elim r [ broken pd ↦ pure (broken pd) | merged so_far ↦ merge_loop coll_name ue_id so_far more ]

  -- The part that ends with the answer 204: a problem ends the procedure.
  unfoldable pub all_merged : String → String → M Db (Option ProblemDetails)
  unfolding with_usage_mons
  all_merged coll_name ue_id = do
    r ← get_data_from_db m coll_name (by "ueId" ue_id)
    elim r [
      | problem pd ↦ pure (some pd)
      | found d ↦ do
        db ← get_state
        emit_all (
            pre_handle_policy_data_change_notification ue_id "" (
              sm_policy_data (
                codec.sm_policy_json (
                  with_usage_mons
                    (m.get_many db "policyData.ues.smData.usageMonData" (by "ueId" ue_id) false)
                    (codec.sm_policy (some d))))))
        emit (status 204)
        pure none
    ]

  unfoldable pub end_patch : Option ProblemDetails → M Db (Unit {0})
  end_patch (some pd) = answer_problem pd
  end_patch none = answer_problem (modify_not_allowed "")

  unfoldable pub after_loop : String → String → Merged → M Db (Unit {0})
  unfolding all_merged end_patch
  after_loop coll_name ue_id (broken pd) = answer_problem pd
  after_loop coll_name ue_id (merged false) = answer_problem (modify_not_allowed "")
  after_loop coll_name ue_id (merged true) = do ended ← all_merged coll_name ue_id; end_patch ended

  -- `changes` is in the order in which the range goes. With no `return` after the answer 204, the
  -- answer 403 follows it.
  unfoldable pub sm_data_patch_procedure :
      String → String → List (String × UsageMonData) → M Db (Unit {0})
  unfolding merge_loop after_loop
  sm_data_patch_procedure coll_name ue_id changes = do
    r ← merge_loop coll_name ue_id true changes
    after_loop coll_name ue_id r
