-- ===== src/Sbi.antt =====
-- internal/sbi: the handlers of the HTTP requests. A handler reads the request through gin and calls
-- a procedure on the context or on the database.
pub mod Patterns
pub mod Expected
pub mod Steps
pub mod Answers
pub mod Queries
pub mod Writes
pub mod Contexts
pub mod Policies
pub mod Applications
pub mod Routes
pub mod Server
use Prim.Native.String.{String, ◌++◌}
use free5gc_udr.Base.{ℕ, ◌==◌, if◌then◌else◌, List, [], ◌∷◌, Option, none, some}
use free5gc_udr.Models.{
  Json, Document, PatchItem, SdmSubscription, EeSubscription, AmfSubscriptionInfo,
  SubscriptionDataSubscriptions, TrafficInfluSub, TrafficInfluData, Snssai, UsageMonData,
}
use free5gc_udr.Problem.{ProblemDetails, malformed_request, malformed_req_syntax}
use free5gc_udr.Context.{UdrContext}
use free5gc_udr.Gin.{M, Step, ◌>>=◌, ◌>>◌, emit, answer_problem, header, json, problem, set_problem}
use free5gc_udr.Database.{Mongo, Result, ok, err}
use free5gc_udr.InfluenceData.{Codec}
use free5gc_udr.Provisioned.{ProvisionedCodec}
use free5gc_udr.Policy.SmData.{SmPolicyCodec}
use free5gc_udr.System.{Environment}

-- What a handler asks of the gin context: the parameters of the path, empty where there is none, the
-- values of a query key, the header Authorization, the body, and the number that the random generator
-- draws if the handler asks for one.
pub record Incoming : Type 0 where
  pub param : String → String
  pub query_array : String → List String
  pub authorization : String
  pub body : Result String
  -- What was read of the body before an error.
  pub partial_body : String
  pub drawn : ℕ

-- `c.Query(key)`, and the `Get` of url.Values: the first value, or the empty text.
unfoldable pub first : List String → String
first [] = ""
first (x ∷ xs) = x

unfoldable pub query_value : Incoming → String → String
unfolding first
query_value req key = first (req.query_array key)

-- openapi.Deserialize and encoding/json, for each type that the handlers read.
pub record Decoder : Type 0 where
  pub patch_items : String → Result (List PatchItem)
  pub sdm_subscription : String → Result SdmSubscription
  pub ee_subscription : String → Result EeSubscription
  pub amf_subscription_infos : String → Result (Option (List AmfSubscriptionInfo))
  pub data_subscription : String → Result SubscriptionDataSubscriptions
  pub influ_sub : String → Result TrafficInfluSub
  pub influ_data : String → Result TrafficInfluData
  -- A value of the type with the given name that the code passes on whole, and util.ToBsonM of it.
  pub value : String → String → Result Json
  pub to_bson_m : Json → Document
  -- What json.Unmarshal leaves in a zero value; its error is only logged.
  pub snssai : String → Snssai
  pub snssais : String → List Snssai
  -- The same by openapi.Deserialize, with the text of its error.
  pub snssai_with_error : String → Snssai × Option String
  -- The error of openapi.Deserialize into a struct that is passed by value, if there is one.
  pub by_value : String → Option String
  pub ue_policy_set : Document → Result Json
  -- A map, in the order in which a range goes over it.
  pub usage_mon_data : String → Result (List (String × UsageMonData))

-- What the handlers rest on outside the repository.
pub record Outside (Db : Type 0) : Type 0 where
  pub mongo : Mongo Db
  pub codec : Codec
  pub provisioned : ProvisionedCodec
  pub sm_policy : SmPolicyCodec
  pub decode : Decoder
  pub env : Environment

-- The state of the service.
pub record World (Db : Type 0) : Type 0 where
  pub context : UdrContext
  pub db : Db

module _ {Db : Type 0} where
  -- A procedure on the context.
  unfoldable pub on_context : M UdrContext (Unit {0}) → M (World Db) (Unit {0})
  on_context procedure w =
      let r = procedure w.context in
      record { result = r.result; state = record w { context = r.state }; actions = r.actions }

  -- A procedure on the database; it may read the context.
  unfoldable pub on_db : (UdrContext → M Db (Unit {0})) → M (World Db) (Unit {0})
  on_db procedure w =
      let r = procedure w.context w.db in
      record { result = r.result; state = record w { db = r.state }; actions = r.actions }

  -- `c.Set(…, problemDetail.Cause); c.JSON(500, problemDetail)` for a body that cannot be read.
  unfoldable pub answer_unread : String → M (World Db) (Unit {0})
  answer_unread e = do
    emit (set_problem "SYSTEM_FAILURE")
    emit (
        json 500 (
          problem (record {
            title = "System failure";
            status = 500;
            detail = e;
            cause = "SYSTEM_FAILURE";
          })))

  unfoldable pub answer_malformed : String → M (World Db) (Unit {0})
  answer_malformed e = do
    emit (set_problem "Bad Request")
    emit (
        json 400 (
          problem (record {
            title = "Malformed request syntax";
            status = 400;
            detail = "[Request Body] " ++ e;
            cause = "";
          })))

  -- The body read by c.GetRawData and openapi.Deserialize, where an error is answered and ends the
  -- handler.
  unfoldable pub with_body :
      {A : Type 0}
      → (String → Result A)
      → Incoming
      → (A → M (World Db) (Unit {0}))
      → M (World Db) (Unit {0})
  with_body decode req k = elim req.body [
    | err e ↦ answer_unread e
    | ok raw ↦ elim (decode raw) [ err e ↦ answer_malformed e | ok a ↦ k a ]
  ]

  -- getDataFromRequestBody: the same with other problem details.
  unfoldable pub get_data_from_request_body :
      {A : Type 0}
      → (String → ProblemDetails)
      → (String → Result A)
      → Incoming
      → (A → M (World Db) (Unit {0}))
      → M (World Db) (Unit {0})
  get_data_from_request_body system_failure decode req k = elim req.body [
    | err e ↦ do
      emit (set_problem (system_failure e).cause)
      emit (json 500 (problem (system_failure e)))
    | ok raw ↦ elim (decode raw) [
      | err e ↦ do
        emit (set_problem (malformed_req_syntax e).cause)
        emit (json 400 (problem (malformed_req_syntax e)))
      | ok a ↦ k a
    ]
  ]

  -- util.EmptyUeIdProblemJson with util.GinProblemJson
  unfoldable pub empty_ue_id_problem_json : M (World Db) (Unit {0})
  empty_ue_id_problem_json = do
    emit (
        json 400 (
          problem (record {
            title = malformed_request;
            status = 400;
            detail = "ueId is required";
            cause = "";
          })))
    emit (header "Content-Type" "application/problem+json")

  -- The parameter ueId, whose absence is answered and ends the handler.
  unfoldable pub with_ue : Incoming → (String → M (World Db) (Unit {0})) → M (World Db) (Unit {0})
  with_ue req k = if req.param "ueId" == "" then empty_ue_id_problem_json else k (req.param "ueId")
