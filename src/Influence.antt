-- ===== src/Influence.antt =====
-- The subscriptions to influence data: influence_data_subscriptions_collection.go and
-- individual_influence_data_subscription_document.go of internal/sbi/processor.
pub mod Laws
use Prim.Native.String.{String, ◌++◌}
use free5gc_udr.Base.{
  Bool, true, false, not, ◌&&◌, ◌||◌, List, [], ◌∷◌, Option, none, some, ◌==◌, if◌then◌else◌,
  lookup, insert, delete, values, ℕ,
}
use free5gc_udr.Models.{Snssai, TrafficInfluSub}
use free5gc_udr.Problem.{ProblemDetails, not_found}
use free5gc_udr.Context.{UdrContext, InfluEntry, pointer, struct, nudr_dr, get_ipv4_group_uri}
use free5gc_udr.Gin.{
  M, ◌>>=◌, ◌>>◌, emit, get_state, set_state, answer_problem, header, json, status, problem,
  set_problem, influ_sub, influ_subs,
}
use free5gc_udr.Matching.{contain_text, contain_snssai, snssai_missing, text_missing}

-- Whether the filter of a query lets a subscription pass.
unfoldable pub selected : String → Option Snssai → String → String → TrafficInfluSub → Bool
unfolding snssai_missing
selected dnn snssai internal_group_id supi sub =
    if text_missing dnn sub.dnns
    then false
    else if snssai_missing snssai sub.snssais
    then false
    else if text_missing internal_group_id sub.internal_group_ids
    then false
    else if text_missing supi sub.supis
    then false
    else true

-- The callback of Range, over the values in the order of the visit.
unfoldable pub collect : (TrafficInfluSub → Bool) → List InfluEntry → List TrafficInfluSub
collect test [] = []
collect test (struct _ ∷ more) = collect test more
collect test (pointer sub ∷ more) =
    let rest = collect test more in if test sub then sub ∷ rest else rest

-- `visit` is the order in which sync.Map.Range goes.
unfoldable pub influence_data_subs_to_notify_get_procedure :
    (List (String × InfluEntry) → List (String × InfluEntry))
    → String
    → Option Snssai
    → String
    → String
    → M UdrContext (Unit {0})
unfolding selected collect
influence_data_subs_to_notify_get_procedure visit dnn snssai internal_group_id supi = do
  c ← get_state
  emit (
      json 200 (
        influ_subs (
          collect (selected dnn snssai internal_group_id supi)
            (values (visit c.influence_data_subscriptions)))))

abbrev is_empty : {A : Type 0} → List A → Bool
is_empty [] = true
is_empty (x ∷ xs) = false

-- The detail of the answer 400 to a request that lacks what a subscription needs.
unfoldable pub rejection : TrafficInfluSub → Option String
rejection sub =
    if is_empty sub.dnns
      && is_empty sub.snssais
      && is_empty sub.internal_group_ids
      && is_empty sub.supis
    then some "At least one of DNNs, S-NSSAIs, Internal Group IDs or SUPIs shall be provided"
    else if sub.notification_uri == ""
    then some "Notification URI shall be provided"
    else none

-- `c.Set(…, http.StatusText(400)); c.JSON(400, pd)` for a problem with a status and a detail only.
abbrev pub answer_bad_request : String → M UdrContext (Unit {0})
answer_bad_request detail = do
  emit (set_problem "Bad Request")
  emit (json 400 (problem (record { title = ""; status = 400; detail = detail; cause = "" })))

-- reflect.DeepEqual on two interface values: values of distinct types are never deeply equal; for
-- values of one type, `same` compares the structs.
unfoldable pub deep_equal :
    (TrafficInfluSub → TrafficInfluSub → Bool) → InfluEntry → InfluEntry → Bool
deep_equal same (struct a) (struct b) = same a b
deep_equal same (pointer a) (pointer b) = same a b
deep_equal same _ _ = false

-- `ok && reflect.DeepEqual(*request, subs)` for the loaded value.
unfoldable pub unchanged :
    (TrafficInfluSub → TrafficInfluSub → Bool) → TrafficInfluSub → Option InfluEntry → Bool
unfolding deep_equal
unchanged same request none = false
unchanged same request (some stored) = deep_equal same (struct request) stored

abbrev pub store_sub : String → TrafficInfluSub → UdrContext → UdrContext
store_sub id sub c = record c {
  influence_data_subscriptions = insert id (pointer sub) c.influence_data_subscriptions;
}

unfoldable pub influence_data_subs_to_notify_post_procedure :
    (TrafficInfluSub → TrafficInfluSub → Bool) → String → TrafficInfluSub → M UdrContext (Unit {0})
unfolding rejection unchanged
influence_data_subs_to_notify_post_procedure same id request = elim (rejection request) [
  | some detail ↦ answer_bad_request detail
  | none ↦ do
    c ← get_state
    if unchanged same request (lookup id c.influence_data_subscriptions)
        then answer_problem
            (record { title = ""; status = 403; detail = ""; cause = "UNSPECIFIED" })
        else do
          set_state (store_sub id request c)
          emit (
              header "Location" (
                get_ipv4_group_uri nudr_dr c
                ++ "/application-data/influenceData/subs-to-notify/"
                ++ id))
          emit (json 201 (influ_sub request))
]

unfoldable pub influence_data_subs_to_notify_put_procedure :
    (TrafficInfluSub → TrafficInfluSub → Bool) → String → TrafficInfluSub → M UdrContext (Unit {0})
unfolding rejection unchanged
influence_data_subs_to_notify_put_procedure same id request = elim (rejection request) [
  | some detail ↦ answer_bad_request detail
  | none ↦ do
    c ← get_state
    if unchanged same request (lookup id c.influence_data_subscriptions)
        then emit (status 200)
        else do set_state (store_sub id request c); emit (json 200 (influ_sub request))
]

unfoldable pub influence_data_subs_to_notify_id_get_procedure : String → M UdrContext (Unit {0})
influence_data_subs_to_notify_id_get_procedure id = do
  c ← get_state
  elim (lookup id c.influence_data_subscriptions) [
    | some (pointer sub) ↦ emit (json 200 (influ_sub sub))
    | some (struct sub) ↦ emit (json 200 (influ_sub sub))
    | none ↦ answer_problem (not_found "USER_NOT_FOUND")
  ]

unfoldable pub influence_data_subs_to_notify_delete_procedure : String → M UdrContext (Unit {0})
influence_data_subs_to_notify_delete_procedure id = do
  c ← get_state
  set_state (record c { influence_data_subscriptions = delete id c.influence_data_subscriptions })
  emit (status 204)
