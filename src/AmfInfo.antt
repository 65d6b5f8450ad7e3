-- ===== src/AmfInfo.antt =====
-- internal/sbi/processor/amf_subscription_info_document.go, event_amf_subscription_info_document.go
-- and query_amf_subscription_info_document.go: the AMF subscription infos of an event exposure
-- subscription.
pub mod Laws
use Prim.Native.String.{String}
use free5gc_udr.Base.{List, [], ◌∷◌, Option, none, some, entries, lookup}
use free5gc_udr.Models.{AmfSubscriptionInfo, PatchItem}
use free5gc_udr.Problem.{ProblemDetails, not_found, modify_not_allowed}
use free5gc_udr.Context.{UdrContext, UeSubsData, EeSubscriptionCollection}
use free5gc_udr.Gin.{
  M, ◌>>=◌, ◌>>◌, emit, get_state, set_state, panic, answer_problem, json, status,
  amf_subscription_infos,
}
use free5gc_udr.Sdm.{store_ue}
use free5gc_udr.Ee.{put_collection}

-- A write of the infos through the pointer that the map holds.
unfoldable pub put_infos :
    String
    → String
    → Option (List AmfSubscriptionInfo)
    → UeSubsData
    → EeSubscriptionCollection
    → UdrContext
    → UdrContext
unfolding store_ue put_collection
put_infos ue_id subs_id infos subs col c =
    store_ue ue_id (put_collection subs_id (record col { amf_subscription_infos = infos }) subs) c

unfoldable pub create_amf_subscriptions_procedure :
    String → String → Option (List AmfSubscriptionInfo) → M UdrContext (Unit {0})
unfolding put_infos
create_amf_subscriptions_procedure subs_id ue_id infos = do
  c ← get_state
  elim (lookup ue_id c.ue_subs_collection) [
    | none ↦ answer_problem (not_found "USER_NOT_FOUND")
    | some subs ↦ elim (lookup subs_id (entries subs.ee_subscription_collection)) [
      | none ↦ answer_problem (not_found "SUBSCRIPTION_NOT_FOUND")
      | some col ↦ do set_state (put_infos ue_id subs_id infos subs col c); emit (status 204)
    ]
  ]

-- The type assertion on a missing value, and the read through the nil pointer that a missing key
-- gives, are panics: they come before the problem that was noted is answered.
unfoldable pub remove_amf_subscriptions_info_procedure : String → String → M UdrContext (Unit {0})
unfolding put_infos
remove_amf_subscriptions_info_procedure subs_id ue_id = do
  c ← get_state
  elim (lookup ue_id c.ue_subs_collection) [
    | none ↦ panic
    | some subs ↦ elim (lookup subs_id (entries subs.ee_subscription_collection)) [
      | none ↦ panic
      | some col ↦ elim col.amf_subscription_infos [
        | none ↦ answer_problem (not_found "AMFSUBSCRIPTION_NOT_FOUND")
        | some _ ↦ do set_state (put_infos ue_id subs_id none subs col c); emit (status 204)
      ]
    ]
  ]

unfoldable pub get_amf_subscription_info_procedure : String → String → M UdrContext (Unit {0})
get_amf_subscription_info_procedure subs_id ue_id = do
  c ← get_state
  elim (lookup ue_id c.ue_subs_collection) [
    | none ↦ answer_problem (not_found "USER_NOT_FOUND")
    | some subs ↦ elim (lookup subs_id (entries subs.ee_subscription_collection)) [
      | none ↦ answer_problem (not_found "SUBSCRIPTION_NOT_FOUND")
      | some col ↦ elim col.amf_subscription_infos [
        | none ↦ answer_problem (not_found "AMFSUBSCRIPTION_NOT_FOUND")
        | some infos ↦ emit (json 200 (amf_subscription_infos infos))
      ]
    ]
  ]

-- What applying a JSON patch to the infos gives, by encoding/json and evanphx/json-patch, which are
-- not part of the repository: the patch does not decode, it does not apply, or the new infos (nil
-- where the patched text does not decode).
pub data Patched : Type 0 where
  undecodable inapplicable : Patched
  patched : Option (List AmfSubscriptionInfo) → Patched

unfoldable pub modify_amf_subscription_info_procedure :
    (List PatchItem → List AmfSubscriptionInfo → Patched)
    → String
    → String
    → List PatchItem
    → M UdrContext (Unit {0})
unfolding put_infos
modify_amf_subscription_info_procedure patch ue_id subs_id items = do
  c ← get_state
  elim (lookup ue_id c.ue_subs_collection) [
    | none ↦ answer_problem (not_found "USER_NOT_FOUND")
    | some subs ↦ elim (lookup subs_id (entries subs.ee_subscription_collection)) [
      | none ↦ answer_problem (not_found "SUBSCRIPTION_NOT_FOUND")
      | some col ↦ elim col.amf_subscription_infos [
        | none ↦ answer_problem (not_found "AMFSUBSCRIPTION_NOT_FOUND")
        | some infos ↦ elim (patch items infos) [
          | undecodable ↦ answer_problem (modify_not_allowed "PatchItem attributes are invalid")
          | inapplicable ↦ answer_problem (modify_not_allowed "Occur error when applying PatchItem")
          | patched new ↦ do set_state (put_infos ue_id subs_id new subs col c); emit (status 204)
        ]
      ]
    ]
  ]
