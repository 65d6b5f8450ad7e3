-- ===== src/System/Handlers.antt =====
-- Each procedure that issues no identifier makes a change of System/Changes.antt.
use Prim.Native.String.{String}
use free5gc_udr.Base.{
  ◌≡◌, refl, inl, inr, ◌≢◌, ==_cases, List, Option, none, some, arith, entries, lookup, insert,
  delete, lookup-insert, lookup-delete, Option-cases,
}
use free5gc_udr.Models.{SdmSubscription, EeSubscription, AmfSubscriptionInfo, PatchItem}
use free5gc_udr.Context.{UdrContext, UeSubsData, EeSubscriptionCollection}
use free5gc_udr.Sdm.{
  store_ue, query_sdm_subscriptions_procedure, remove_sdm_subscriptions_procedure,
  update_sdm_subscriptions_procedure,
}
use free5gc_udr.Ee.{
  put_collection, remove_ee_subscriptions_procedure, update_ee_subscriptions_procedure,
}
use free5gc_udr.AmfInfo.{
  put_infos, create_amf_subscriptions_procedure, remove_amf_subscriptions_info_procedure,
  get_amf_subscription_info_procedure, modify_amf_subscription_info_procedure, Patched, patched,
  undecodable, inapplicable,
}
use free5gc_udr.System.Soundness.{AllSubscribed-insert, AllSubscribed-delete, subscribed_of_lookup}
use free5gc_udr.System.Changes.{Change, KeysWithin}

pub keys_of_delete : {V : Type 0} (id : String) (m : List (String × V)) → KeysWithin (delete id m) m
keys_of_delete id m j v e = (v, ground (arith, lookup-delete id j m))

pub keys_of_insert :
    {V : Type 0} (id : String) (v w : V) (m : List (String × V))
    → lookup id m ≡ some w
    → KeysWithin (insert id v m) m
keys_of_insert id v w m found j u e = elim (==_cases id j) [
  | inl (same, t) ↦ (w, ground arith)
  | inr (_, t) ↦ (u, ground (arith, lookup-insert id j v m))
]

-- A handler whose state is, by an equation, that of a change.
pub change_of : {c s t : UdrContext} → s ≡ t → Change c t → Change c s
change_of {c} e h = rw e h

module _ (c : UdrContext) (ue id : String) where
  pub remove_sdm-Change : Change c (remove_sdm_subscriptions_procedure ue id c).state
  unfolding remove_sdm_subscriptions_procedure
  remove_sdm-Change = elim (Option-cases (lookup ue c.ue_subs_collection)) [
    | inl unknown ↦ change_of (ground arith) Change.same
    | inr (subs, known) ↦ elim (Option-cases (lookup id (entries subs.sdm_subscriptions))) [
      | inl missing ↦ change_of (ground arith) Change.same
      | inr (s, found) ↦
          change_of (ground arith) (Change.sdm_map ue subs _ known (keys_of_delete id _))
    ]
  ]

  pub update_sdm-Change :
      (sub : SdmSubscription) → Change c (update_sdm_subscriptions_procedure ue id sub c).state
  unfolding update_sdm_subscriptions_procedure lookup
  update_sdm-Change sub = elim (Option-cases (lookup ue c.ue_subs_collection)) [
    | inl unknown ↦ change_of (ground arith) Change.same
    | inr (subs, known) ↦ elim (Option-cases (lookup id (entries subs.sdm_subscriptions))) [
      | inl missing ↦ change_of (ground arith) Change.same
      | inr (s, found) ↦
          change_of
            {t = store_ue ue
              (record subs {
                sdm_subscriptions = some (
                    insert id (record sub { subscription_id = id })
                      (entries subs.sdm_subscriptions));
              })
              c}
            (ground arith)
            (Change.sdm_map ue subs _ known (
              keys_of_insert id (record sub { subscription_id = id }) s
                (entries subs.sdm_subscriptions) found))
    ]
  ]

  pub remove_ee-Change : Change c (remove_ee_subscriptions_procedure ue id c).state
  unfolding remove_ee_subscriptions_procedure
  remove_ee-Change = elim (Option-cases (lookup ue c.ue_subs_collection)) [
    | inl unknown ↦ change_of (ground arith) Change.same
    | inr (subs, known) ↦
        elim (Option-cases (lookup id (entries subs.ee_subscription_collection))) [
          | inl missing ↦ change_of (ground arith) Change.same
          | inr (s, found) ↦ change_of (ground arith) (
              Change.ee_map ue subs _ known (keys_of_delete id _)
                (AllSubscribed-delete id (entries subs.ee_subscription_collection)))
        ]
  ]

  -- A write at a key that is there, of a collection that points to a subscription if the old one did.
  put-Change :
      (subs : UeSubsData) (col col' : EeSubscriptionCollection)
      → lookup ue c.ue_subs_collection ≡ some subs
      → lookup id (entries subs.ee_subscription_collection) ≡ some col
      → (col.ee_subscriptions ≢ none → col'.ee_subscriptions ≢ none)
      → Change c (store_ue ue (put_collection id col' subs) c)
  unfolding put_collection
  put-Change subs col col' known found h =
      Change.ee_map ue subs (insert id col' (entries subs.ee_subscription_collection)) known
        (keys_of_insert id col' col (entries subs.ee_subscription_collection) found)
        (λ all.
          AllSubscribed-insert id col' (entries subs.ee_subscription_collection) all
            (h (subscribed_of_lookup id col _ all found)))

  pub update_ee-Change :
      (ee : EeSubscription) → Change c (update_ee_subscriptions_procedure ue id ee c).state
  unfolding update_ee_subscriptions_procedure
  update_ee-Change ee = elim (Option-cases (lookup ue c.ue_subs_collection)) [
    | inl unknown ↦ change_of (ground arith) Change.same
    | inr (subs, known) ↦
        elim (Option-cases (lookup id (entries subs.ee_subscription_collection))) [
          | inl missing ↦ change_of (ground arith) Change.same
          | inr (col, found) ↦ change_of (ground arith) (
              put-Change subs col (record col { ee_subscriptions = some ee }) known found
                (λ _ e. cc))
        ]
  ]

  infos-Change :
      (infos : Option (List AmfSubscriptionInfo)) (subs : UeSubsData)
      (col : EeSubscriptionCollection)
      → lookup ue c.ue_subs_collection ≡ some subs
      → lookup id (entries subs.ee_subscription_collection) ≡ some col
      → Change c (put_infos ue id infos subs col c)
  unfolding put_infos
  infos-Change infos subs col known found =
      put-Change subs col (record col { amf_subscription_infos = infos }) known found (λ h. h)

  pub create_infos-Change :
      (infos : Option (List AmfSubscriptionInfo))
      → Change c (create_amf_subscriptions_procedure id ue infos c).state
  unfolding create_amf_subscriptions_procedure
  create_infos-Change infos = elim (Option-cases (lookup ue c.ue_subs_collection)) [
    | inl unknown ↦ change_of (ground arith) Change.same
    | inr (subs, known) ↦
        elim (Option-cases (lookup id (entries subs.ee_subscription_collection))) [
          | inl missing ↦ change_of (ground arith) Change.same
          | inr (col, found) ↦ change_of (ground arith) (infos-Change infos subs col known found)
        ]
  ]

  pub remove_infos-Change : Change c (remove_amf_subscriptions_info_procedure id ue c).state
  unfolding remove_amf_subscriptions_info_procedure
  remove_infos-Change = elim (Option-cases (lookup ue c.ue_subs_collection)) [
    | inl unknown ↦ change_of (ground arith) Change.same
    | inr (subs, known) ↦
        elim (Option-cases (lookup id (entries subs.ee_subscription_collection))) [
          | inl missing ↦ change_of (ground arith) Change.same
          | inr (col, found) ↦ elim (Option-cases col.amf_subscription_infos) [
            | inl nil ↦ change_of (ground arith) Change.same
            | inr (infos, full) ↦ change_of (ground arith) (infos-Change none subs col known found)
          ]
        ]
  ]

  modified-Change :
      (p : Patched) (patch : List PatchItem → List AmfSubscriptionInfo → Patched)
      (items : List PatchItem) (subs : UeSubsData) (col : EeSubscriptionCollection)
      (infos : List AmfSubscriptionInfo)
      → lookup ue c.ue_subs_collection ≡ some subs
      → lookup id (entries subs.ee_subscription_collection) ≡ some col
      → col.amf_subscription_infos ≡ some infos
      → patch items infos ≡ p
      → Change c (modify_amf_subscription_info_procedure patch ue id items c).state
  unfolding modify_amf_subscription_info_procedure
  modified-Change undecodable patch items subs col infos known found full e =
      change_of (ground arith) Change.same
  modified-Change inapplicable patch items subs col infos known found full e =
      change_of (ground arith) Change.same
  modified-Change (patched new) patch items subs col infos known found full e =
      change_of (ground arith) (infos-Change new subs col known found)

  pub modify_infos-Change :
      (patch : List PatchItem → List AmfSubscriptionInfo → Patched) (items : List PatchItem)
      → Change c (modify_amf_subscription_info_procedure patch ue id items c).state
  unfolding modify_amf_subscription_info_procedure
  modify_infos-Change patch items = elim (Option-cases (lookup ue c.ue_subs_collection)) [
    | inl unknown ↦ change_of (ground arith) Change.same
    | inr (subs, known) ↦
        elim (Option-cases (lookup id (entries subs.ee_subscription_collection))) [
          | inl missing ↦ change_of (ground arith) Change.same
          | inr (col, found) ↦ elim (Option-cases col.amf_subscription_infos) [
            | inl nil ↦ change_of (ground arith) Change.same
            | inr (infos, full) ↦
                modified-Change (patch items infos) patch items subs col infos known found full refl
          ]
        ]
  ]

  pub get_infos-Change : Change c (get_amf_subscription_info_procedure id ue c).state
  unfolding get_amf_subscription_info_procedure
  get_infos-Change = change_of (ground arith) Change.same

  pub query_sdm-Change :
      (visit : List (String × SdmSubscription) → List (String × SdmSubscription))
      → Change c (query_sdm_subscriptions_procedure visit ue c).state
  unfolding query_sdm_subscriptions_procedure
  query_sdm-Change visit = change_of (ground arith) Change.same
