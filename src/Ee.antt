-- ===== src/Ee.antt =====
-- internal/sbi/processor/event_exposure_subscription{s_collection,_document}.go: the event exposure
-- subscriptions of a UE, kept in the context.
pub mod Laws
use Prim.Native.String.{String, ◌++◌}
use free5gc_udr.Base.{
  List, [], ◌∷◌, Option, none, some, GoMap, entries, lookup, insert, delete, values,
}
use free5gc_udr.Base.Int.{increment, itoa}
use free5gc_udr.Models.{EeSubscription}
use free5gc_udr.Problem.{not_found, unspecified}
use free5gc_udr.Context.{
  UdrContext, UeSubsData, EeSubscriptionCollection, nudr_dr, get_ipv4_group_uri,
}
use free5gc_udr.Gin.{
  M, ◌>>=◌, ◌>>◌, emit, get_state, set_state, panic, answer_problem, header, json, status,
  ee_subscription, ee_subscriptions,
}
use free5gc_udr.Sdm.{load_or_new, store_ue}

-- The map of a UE's collections, written at a key; `make` made it where it was nil.
unfoldable pub put_collection : String → EeSubscriptionCollection → UeSubsData → UeSubsData
put_collection id col subs = record subs {
  ee_subscription_collection = some (insert id col (entries subs.ee_subscription_collection));
}

unfoldable pub create_ee_subscriptions_procedure : String → EeSubscription → M UdrContext (Unit {0})
unfolding load_or_new store_ue put_collection
create_ee_subscriptions_procedure ue_id ee = do
  c ← get_state
  let new_id = itoa c.ee_subscription_id_generator
  let col : EeSubscriptionCollection = record {
    ee_subscriptions = some ee;
    amf_subscription_infos = none;
  }
  let stored = store_ue ue_id (put_collection new_id col (load_or_new ue_id c)) c
  set_state
      (record stored { ee_subscription_id_generator = increment c.ee_subscription_id_generator })
  emit (
      header "Location" (
        get_ipv4_group_uri nudr_dr c
        ++ "/subscription-data/"
        ++ ue_id
        ++ "/context-data/ee-subscriptions/"
        ++ new_id))
  emit (json 201 (ee_subscription ee))

-- `append(slice, *v.EeSubscriptions)` for each value: a nil pointer is a panic.
unfoldable pub dereferenced : List EeSubscriptionCollection → Option (List EeSubscription)
dereferenced [] = some []
dereferenced (col ∷ more) = elim col.ee_subscriptions [
  | none ↦ none
  | some ee ↦ elim (dereferenced more) [ none ↦ none | some ees ↦ some (ee ∷ ees) ]
]

-- `visit` is the order in which the map is ranged over.
unfoldable pub query_ee_subscriptions_procedure :
    (List (String × EeSubscriptionCollection) → List (String × EeSubscriptionCollection))
    → String
    → M UdrContext (Unit {0})
unfolding dereferenced
query_ee_subscriptions_procedure visit ue_id = do
  c ← get_state
  elim (lookup ue_id c.ue_subs_collection) [
    | none ↦ answer_problem (not_found "USER_NOT_FOUND")
    | some subs ↦ elim (dereferenced (values (visit (entries subs.ee_subscription_collection)))) [
      | none ↦ panic
      | some [] ↦ answer_problem (unspecified "")
      | some (ee ∷ more) ↦ emit (json 200 (ee_subscriptions (ee ∷ more)))
    ]
  ]

unfoldable pub remove_ee_subscriptions_procedure : String → String → M UdrContext (Unit {0})
unfolding store_ue
remove_ee_subscriptions_procedure ue_id subs_id = do
  c ← get_state
  elim (lookup ue_id c.ue_subs_collection) [
    | none ↦ answer_problem (not_found "USER_NOT_FOUND")
    | some subs ↦ elim (lookup subs_id (entries subs.ee_subscription_collection)) [
      | none ↦ answer_problem (not_found "SUBSCRIPTION_NOT_FOUND")
      | some _ ↦ do
        let left = delete subs_id (entries subs.ee_subscription_collection)
        set_state (store_ue ue_id (record subs { ee_subscription_collection = some left }) c)
        emit (status 204)
    ]
  ]

-- The write goes through the pointer that the map holds, so that the AMF infos stay.
unfoldable pub update_ee_subscriptions_procedure :
    String → String → EeSubscription → M UdrContext (Unit {0})
unfolding store_ue put_collection
update_ee_subscriptions_procedure ue_id subs_id ee = do
  c ← get_state
  elim (lookup ue_id c.ue_subs_collection) [
    | none ↦ answer_problem (not_found "USER_NOT_FOUND")
    | some subs ↦ elim (lookup subs_id (entries subs.ee_subscription_collection)) [
      | none ↦ answer_problem (not_found "SUBSCRIPTION_NOT_FOUND")
      | some col ↦ do
        set_state (
            store_ue ue_id (put_collection subs_id (record col { ee_subscriptions = some ee }) subs)
              c)
        emit (status 204)
    ]
  ]
