-- ===== src/EeGroup.antt =====
-- internal/sbi/processor/event_exposure_group_subscription{s_collection,_document}.go: the event
-- exposure subscriptions of a group of UEs, kept in the context.
pub mod Laws
use Prim.Native.String.{String, ◌++◌}
use free5gc_udr.Base.{
  List, [], ◌∷◌, Option, none, some, GoMap, entries, lookup, insert, delete, values,
}
use free5gc_udr.Base.Int.{increment, itoa}
use free5gc_udr.Models.{EeSubscription}
use free5gc_udr.Problem.{not_found, unspecified}
use free5gc_udr.Context.{
  UdrContext, UeGroupSubsData, nudr_dr, get_ipv4_group_uri, udr_dr_res_uri_prefix,
}
use free5gc_udr.Gin.{
  M, ◌>>=◌, ◌>>◌, emit, get_state, set_state, panic, answer_problem, header, json, status,
  ee_subscription, ee_subscriptions,
}

-- The entry of a group, stored afresh where there is none.
unfoldable pub load_or_new_group : String → UdrContext → UeGroupSubsData
load_or_new_group group c = elim (lookup group c.ue_group_collection) [
  | none ↦ record { ee_subscriptions = none }
  | some found ↦ found
]

unfoldable pub store_group : String → GoMap EeSubscription → UdrContext → UdrContext
store_group group m c = record c {
  ue_group_collection = insert group (record { ee_subscriptions = m }) c.ue_group_collection;
}

unfoldable pub create_ee_group_subscriptions_procedure :
    String → EeSubscription → M UdrContext (Unit {0})
unfolding load_or_new_group store_group
create_ee_group_subscriptions_procedure group ee = do
  c ← get_state
  let new_id = itoa c.ee_subscription_id_generator
  let m = insert new_id ee (entries (load_or_new_group group c).ee_subscriptions)
  let stored = store_group group (some m) c
  set_state
      (record stored { ee_subscription_id_generator = increment c.ee_subscription_id_generator })
  emit (
      header "Location" (
        get_ipv4_group_uri nudr_dr c
        ++ udr_dr_res_uri_prefix
        ++ "/subscription-data/group-data/"
        ++ group
        ++ "/ee-subscriptions/"
        ++ new_id))
  emit (json 201 (ee_subscription ee))

-- `visit` is the order in which the map is ranged over.
unfoldable pub query_ee_group_subscriptions_procedure :
    (List (String × EeSubscription) → List (String × EeSubscription))
    → String
    → M UdrContext (Unit {0})
query_ee_group_subscriptions_procedure visit group = do
  c ← get_state
  elim (lookup group c.ue_group_collection) [
    | none ↦ answer_problem (not_found "USER_NOT_FOUND")
    | some subs ↦ elim (values (visit (entries subs.ee_subscriptions))) [
      | [] ↦ answer_problem (unspecified "")
      | ee ∷ more ↦ emit (json 200 (ee_subscriptions (ee ∷ more)))
    ]
  ]

unfoldable pub remove_ee_group_subscriptions_procedure : String → String → M UdrContext (Unit {0})
unfolding store_group
remove_ee_group_subscriptions_procedure group subs_id = do
  c ← get_state
  elim (lookup group c.ue_group_collection) [
    | none ↦ answer_problem (not_found "USER_NOT_FOUND")
    | some subs ↦ elim (lookup subs_id (entries subs.ee_subscriptions)) [
      | none ↦ answer_problem (not_found "SUBSCRIPTION_NOT_FOUND")
      | some _ ↦ do
        set_state (store_group group (some (delete subs_id (entries subs.ee_subscriptions))) c)
        emit (status 204)
    ]
  ]

-- A write to a nil map is a panic.
unfoldable pub update_ee_group_subscriptions_procedure :
    String → String → EeSubscription → M UdrContext (Unit {0})
unfolding store_group
update_ee_group_subscriptions_procedure group subs_id ee = do
  c ← get_state
  elim (lookup group c.ue_group_collection) [
    | none ↦ answer_problem (not_found "USER_NOT_FOUND")
    | some subs ↦ elim (lookup subs_id (entries subs.ee_subscriptions)) [
      | none ↦ answer_problem (not_found "SUBSCRIPTION_NOT_FOUND")
      | some _ ↦ elim subs.ee_subscriptions [
        | none ↦ panic
        | some m ↦ do
          set_state (store_group group (some (insert subs_id ee m)) c)
          emit (status 204)
      ]
    ]
  ]
