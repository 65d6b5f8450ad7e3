-- ===== src/Sdm.antt =====
-- internal/sbi/processor/sdm_subscriptions_collection.go and sdm_subscription_document.go: the SDM
-- subscriptions of a UE, kept in the context.
pub mod Spec
pub mod Written
pub mod Refinement
use Prim.Native.String.{String, ◌++◌}
use free5gc_udr.Base.{
  List, [], ◌∷◌, Option, none, some, GoMap, entries, lookup, insert, delete, values,
}
use free5gc_udr.Base.Int.{increment, itoa}
use free5gc_udr.Models.{SdmSubscription}
use free5gc_udr.Problem.{not_found}
use free5gc_udr.Context.{UdrContext, UeSubsData, nudr_dr, get_ipv4_group_uri}
use free5gc_udr.Gin.{
  M, ◌>>=◌, ◌>>◌, emit, get_state, set_state, panic, answer_problem, header, json, status,
  sdm_subscription, sdm_subscriptions,
}

-- `new(udr_context.UESubsData)`
abbrev pub new_ue_subs_data : UeSubsData
new_ue_subs_data = record { ee_subscription_collection = none; sdm_subscriptions = none }

-- The entry of a UE, stored afresh where there is none.
unfoldable pub load_or_new : String → UdrContext → UeSubsData
load_or_new ue_id c = elim (lookup ue_id c.ue_subs_collection) [
  | none ↦ new_ue_subs_data
  | some found ↦ found
]

-- A write through the pointer that the collection holds for a UE.
unfoldable pub store_ue : String → UeSubsData → UdrContext → UdrContext
store_ue ue_id subs c = record c { ue_subs_collection = insert ue_id subs c.ue_subs_collection }

-- The map of a UE's SDM subscriptions, written at a key after `make` where it was nil.
unfoldable pub put_sdm : String → SdmSubscription → UeSubsData → UeSubsData
put_sdm id sub subs = record subs {
  sdm_subscriptions = some (insert id sub (entries subs.sdm_subscriptions));
}

unfoldable pub create_sdm_subscriptions_procedure :
    SdmSubscription → String → String → M UdrContext (Unit {0})
unfolding load_or_new store_ue put_sdm
create_sdm_subscriptions_procedure sdm coll_name ue_id = do
  c ← get_state
  let new_id = itoa c.sdm_subscription_id_generator
  let created = record sdm { subscription_id = new_id }
  let stored = store_ue ue_id (put_sdm new_id created (load_or_new ue_id c)) c
  set_state
      (record stored { sdm_subscription_id_generator = increment c.sdm_subscription_id_generator })
  emit (
      header "Location" (
        get_ipv4_group_uri nudr_dr c
        ++ "/subscription-data/"
        ++ ue_id
        ++ "/context-data/sdm-subscriptions/"
        ++ new_id))
  emit (json 201 (sdm_subscription created))

-- `visit` is the order in which the map is ranged over.
unfoldable pub query_sdm_subscriptions_procedure :
    (List (String × SdmSubscription) → List (String × SdmSubscription))
    → String
    → M UdrContext (Unit {0})
query_sdm_subscriptions_procedure visit ue_id = do
  c ← get_state
  elim (lookup ue_id c.ue_subs_collection) [
    | none ↦ answer_problem (not_found "USER_NOT_FOUND")
    | some subs ↦ elim (values (visit (entries subs.sdm_subscriptions))) [
      | [] ↦ answer_problem (not_found "SDMSUBSCRIPTION_NOT_FOUND")
      | s ∷ more ↦ emit (json 200 (sdm_subscriptions (s ∷ more)))
    ]
  ]

unfoldable pub remove_sdm_subscriptions_procedure : String → String → M UdrContext (Unit {0})
unfolding store_ue
remove_sdm_subscriptions_procedure ue_id subs_id = do
  c ← get_state
  elim (lookup ue_id c.ue_subs_collection) [
    | none ↦ answer_problem (not_found "USER_NOT_FOUND")
    | some subs ↦ elim (lookup subs_id (entries subs.sdm_subscriptions)) [
      | none ↦ answer_problem (not_found "SUBSCRIPTION_NOT_FOUND")
      | some _ ↦ do
        let left = delete subs_id (entries subs.sdm_subscriptions)
        set_state (store_ue ue_id (record subs { sdm_subscriptions = some left }) c)
        emit (status 204)
    ]
  ]

-- A write to a nil map is a panic.
unfoldable pub update_sdm_subscriptions_procedure :
    String → String → SdmSubscription → M UdrContext (Unit {0})
unfolding store_ue
update_sdm_subscriptions_procedure ue_id subs_id sdm = do
  c ← get_state
  elim (lookup ue_id c.ue_subs_collection) [
    | none ↦ answer_problem (not_found "USER_NOT_FOUND")
    | some subs ↦ elim (lookup subs_id (entries subs.sdm_subscriptions)) [
      | none ↦ answer_problem (not_found "SUBSCRIPTION_NOT_FOUND")
      | some _ ↦ elim subs.sdm_subscriptions [
        | none ↦ panic
        | some m ↦ do
          let updated = insert subs_id (record sdm { subscription_id = subs_id }) m
          set_state (store_ue ue_id (record subs { sdm_subscriptions = some updated }) c)
          emit (status 204)
      ]
    ]
  ]
