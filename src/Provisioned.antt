-- ===== src/Provisioned.antt =====
-- internal/sbi/processor/provisioned_data_document.go and session_management_subscription_data.go:
-- the parts of the provisioned data of a UE.
pub mod Parts
pub mod Laws
use Prim.Native.String.{String, ◌++◌}
use free5gc_udr.Base.{
  Bool, true, false, ◌&&◌, ◌==◌, ◌=ℕ=◌, if◌then◌else◌, List, [], ◌∷◌, Option, none, some,
}
use free5gc_udr.Base.Int.{pos, ℤ_eq}
use free5gc_udr.Models.{
  Json, bool, number, text, object, Document, end, field, put, Snssai, ProvisionedDataSets,
}
use free5gc_udr.Problem.{not_found, unspecified}
use free5gc_udr.Convert.{escape_dnn}
use free5gc_udr.Gin.{
  M, ◌>>=◌, ◌>>◌, emit, get_state, panic, answer_problem, json, sm_subs_data, provisioned_data_sets,
}
use free5gc_udr.Database.{Mongo, ok, err, found, problem, by2, get_data_from_db}

-- mapstructure.Decode and encoding/json into the types of the package models, which is not part of
-- the repository.
pub record ProvisionedCodec : Type 0 where
  -- What a zero value of the type with the given name holds after mapstructure.Decode, and the error.
  pub decode : String → Document → Json × Option String
  pub decode_sm_data : List Document → Option (List Json) × Option String
  -- `sets.SmData.IndividualSmSubsData = list`; `none` if SmData is a nil pointer.
  pub set_sm_data : Option (List Json) → ProvisionedDataSets → Option ProvisionedDataSets
  -- json.Unmarshal of the JSON text of a document; `none` is an error.
  pub session_management_data : Document → Option Json

-- models.ProvisionedDataSets{}
abbrev pub no_data : ProvisionedDataSets
no_data = record {
  am_data = none;
  smf_sel_data = none;
  sms_subs_data = none;
  sm_data = none;
  trace_data = none;
  sms_mng_data = none;
}

abbrev pub is_nil : {A : Type 0} → Option A → Bool
is_nil none = true
is_nil (some a) = false

-- reflect.DeepEqual with the zero value.
unfoldable pub is_no_data : ProvisionedDataSets → Bool
is_no_data sets =
    is_nil sets.am_data
    && is_nil sets.smf_sel_data
    && is_nil sets.sms_subs_data
    && is_nil sets.sm_data
    && is_nil sets.trace_data
    && is_nil sets.sms_mng_data

-- A part that is left out stays what it was.
abbrev pub or_kept : Option Json → Option Json → Option Json
or_kept none kept = kept
or_kept (some v) kept = some v

module _ {Db : Type 0} (m : Mongo Db) (codec : ProvisionedCodec) where
  -- One document: an internal error of the database ends the procedure; any other problem leaves the
  -- part out. What comes after a decoded part is `k`, and after an error of the decoding `failed`.
  unfoldable pub part :
      String
      → String
      → Document
      → (Json → String → M Db (Unit {0}))
      → (Option Json → M Db (Unit {0}))
      → M Db (Unit {0})
  part type_name coll_name filter failed k = do
    r ← get_data_from_db m coll_name filter
    elim r [
      | problem pd ↦ if pd.status =ℕ= 500 then answer_problem pd else k none
      | found d ↦ elim ((codec.decode type_name d).1) [
        | some e ↦ failed ((codec.decode type_name d).0) e
        | none ↦ k (some ((codec.decode type_name d).0))
      ]
    ]

  -- The error of a decoding, where it ends the procedure.
  unfoldable pub answer_failed : Json → String → M Db (Unit {0})
  answer_failed partial e = answer_problem (m.system_failure e)

  -- The list of session management data. The loop after the decoding replaces the DNNs of copies, and
  -- the list is stored as it was decoded.
  unfoldable pub sm_part :
      Document → ProvisionedDataSets → (ProvisionedDataSets → M Db (Unit {0})) → M Db (Unit {0})
  sm_part filter sets k = do
    db ← get_state
    elim (m.get_many db "subscriptionData.provisionedData.smData" filter true) [
      | err e ↦ answer_problem (m.system_failure e)
      | ok none ↦ k sets
      | ok (some ds) ↦ elim ((codec.decode_sm_data ds).1) [
        | some e ↦ answer_problem (m.system_failure e)
        | none ↦ elim (codec.set_sm_data ((codec.decode_sm_data ds).0) sets) [
          | none ↦ panic
          | some sets' ↦ k sets'
        ]
      ]
    ]

  unfoldable pub answer_sets : ProvisionedDataSets → M Db (Unit {0})
  answer_sets sets =
      if is_no_data sets
      then answer_problem (not_found "DATA_NOT_FOUND")
      else emit (json 200 (provisioned_data_sets sets))

  -- The parts after the session management data.
  unfoldable pub query_last_parts : Document → ProvisionedDataSets → M Db (Unit {0})
  query_last_parts filter sets =
      part "TraceData" "subscriptionData.provisionedData.traceData" filter answer_failed (λ trace.
        part "SmsManagementSubscriptionData" "subscriptionData.provisionedData.smsMngData" filter
          answer_failed
          (λ sms_mng. answer_sets (record sets {
            trace_data = or_kept trace sets.trace_data;
            sms_mng_data = or_kept sms_mng sets.sms_mng_data;
          })))

  unfoldable pub query_sms_and_sm_parts : Document → ProvisionedDataSets → M Db (Unit {0})
  query_sms_and_sm_parts filter sets =
      part "SmsSubscriptionData" "subscriptionData.provisionedData.smsData" filter answer_failed
        (λ sms.
          sm_part filter (record sets { sms_subs_data = or_kept sms sets.sms_subs_data })
            (query_last_parts filter))

  -- With no `return` after the error of the second decoding, the procedure goes on with what was
  -- decoded.
  unfoldable pub query_provisioned_data_procedure :
      String → String → ProvisionedDataSets → M Db (Unit {0})
  query_provisioned_data_procedure ue_id serving_plmn_id sets = do
    let filter = by2 "ueId" ue_id "servingPlmnId" serving_plmn_id
    part "AccessAndMobilitySubscriptionData" "subscriptionData.provisionedData.amData" filter
        answer_failed
        (λ am.
          part "SmfSelectionSubscriptionData"
            "subscriptionData.provisionedData.smfSelectionSubscriptionData" filter
            (λ partial e. do
              answer_problem (m.system_failure e)
              query_sms_and_sm_parts filter
                  (record sets { am_data = or_kept am sets.am_data; smf_sel_data = some partial }))
            (λ smf_sel. query_sms_and_sm_parts filter (record sets {
              am_data = or_kept am sets.am_data;
              smf_sel_data = or_kept smf_sel sets.smf_sel_data;
            })))

  -- The filter of the session management data.
  unfoldable pub snssai_filter : Snssai → Document → Document
  snssai_filter s filter =
      if ℤ_eq s.sst (pos 0) && s.sd == ""
      then filter
      else if s.sd == ""
      then put "singleNssai.sst" (number s.sst) filter
      else put "singleNssai.sd" (text s.sd) (put "singleNssai.sst" (number s.sst) filter)

  unfoldable pub dnn_filter : String → Document → Document
  dnn_filter dnn filter =
      if dnn == ""
      then filter
      else put ("dnnConfigurations." ++ escape_dnn dnn) (object (field "$exists" (bool true) end))
          filter

  -- The loop over the documents; what it writes to them is not read again.
  unfoldable pub session_management_list : List Document → List Json
  session_management_list [] = []
  session_management_list (d ∷ ds) =
      let rest = session_management_list ds in
      elim (codec.session_management_data d) [ none ↦ rest | some v ↦ v ∷ rest ]

  -- A slice that nothing was appended to is nil.
  abbrev nil_if_empty : List Json → Option (List Json)
  nil_if_empty [] = none
  nil_if_empty (v ∷ vs) = some (v ∷ vs)

  abbrev documents_of : Option (List Document) → List Document
  documents_of none = []
  documents_of (some ds) = ds

  unfoldable pub query_sm_data_procedure :
      String → String → String → Snssai → String → M Db (Unit {0})
  query_sm_data_procedure coll_name ue_id serving_plmn_id single_nssai dnn = do
    db ← get_state
    let filter =
        dnn_filter dnn
          (snssai_filter single_nssai (by2 "ueId" ue_id "servingPlmnId" serving_plmn_id))
    elim (m.get_many db coll_name filter true) [
      | err e ↦ answer_problem (unspecified "")
      | ok list ↦
          emit
            (json 200 (sm_subs_data (nil_if_empty (session_management_list (documents_of list)))))
    ]
