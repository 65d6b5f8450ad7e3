-- ===== src/AmfInfo/Laws.antt =====
-- What the procedures on AMF subscription infos do to the collections, and when they panic.
use Prim.Native.String.{String}
use mathlib.Core.Option
use free5gc_udr.Base.{
  ◌≡◌, inl, inr, ◌↔◌, ◌≢◌, ==_iff, ==_refl, ◌∙◌, List, [], ◌∷◌, Option, none, some, arith, entries,
  lookup, Option-cases, assign,
}
use free5gc_udr.Models.{AmfSubscriptionInfo}
use free5gc_udr.Context.{UdrContext, UeSubsData, EeSubscriptionCollection}
use free5gc_udr.Gin.{json, amf_subscription_infos}
use free5gc_udr.Ee.Laws.{collection_at, put_at, assign-none}
use free5gc_udr.AmfInfo.{
  put_infos, create_amf_subscriptions_procedure, remove_amf_subscriptions_info_procedure,
  get_amf_subscription_info_procedure,
}

abbrev pub with_infos :
    Option (List AmfSubscriptionInfo) → EeSubscriptionCollection → EeSubscriptionCollection
with_infos infos col = record col { amf_subscription_infos = infos }

module _ (c : UdrContext) (ue id ue' id' : String) where
  infos_at :
      (subs : UeSubsData) (col : EeSubscriptionCollection)
      (infos : Option (List AmfSubscriptionInfo))
      → lookup ue c.ue_subs_collection ≡ some subs
      → collection_at (put_infos ue id infos subs col c) ue' id'
        ≡ assign (collection_at c) ue id (some (with_infos infos col)) ue' id'
  unfolding put_infos
  infos_at subs col infos known = put_at c ue id ue' id' subs (with_infos infos col) known

  -- Storing infos writes them, and nothing else, at a collection that is there.
  pub create-collection_at :
      (infos : Option (List AmfSubscriptionInfo))
      → collection_at (create_amf_subscriptions_procedure id ue infos c).state ue' id'
        ≡ assign
            (collection_at c)
            ue
            id
            (Option.map (with_infos infos) (collection_at c ue id))
            ue'
            id'
  unfolding create_amf_subscriptions_procedure
  create-collection_at infos = elim (Option-cases (lookup ue c.ue_subs_collection)) [
    | inl unknown ↦ ground (arith, assign-none c ue id ue' id')
    | inr (subs, known) ↦
        elim (Option-cases (lookup id (entries subs.ee_subscription_collection))) [
          | inl missing ↦ ground (arith, assign-none c ue id ue' id')
          | inr (col, found) ↦ ground (arith, infos_at subs col infos known)
        ]
  ]

  -- Removing infos sets those of a collection that is there to nil, and nothing else.
  pub remove-collection_at :
      collection_at (remove_amf_subscriptions_info_procedure id ue c).state ue' id'
      ≡ assign
          (collection_at c)
          ue
          id
          (Option.map (with_infos none) (collection_at c ue id))
          ue'
          id'
  unfolding remove_amf_subscriptions_info_procedure
  remove-collection_at = elim (Option-cases (lookup ue c.ue_subs_collection)) [
    | inl unknown ↦ ground (arith, assign-none c ue id ue' id')
    | inr (subs, known) ↦
        elim (Option-cases (lookup id (entries subs.ee_subscription_collection))) [
          | inl missing ↦ ground (arith, assign-none c ue id ue' id')
          | inr (col, found) ↦
              ground (arith, infos_at subs col none known, ==_iff ue ue', ==_iff id id')
        ]
  ]

module _ (c : UdrContext) (ue id : String) where
  -- Removing AMF infos panics exactly if the context holds no subscription for the UE and the
  -- identifier.
  pub remove_panics_iff :
      ((remove_amf_subscriptions_info_procedure id ue c).result ≡ none)
      ↔ (collection_at c ue id ≡ none)
  unfolding remove_amf_subscriptions_info_procedure
  remove_panics_iff = (λ h. ground arith, λ h. ground arith)

  get_found :
      (col : EeSubscriptionCollection) (infos : List AmfSubscriptionInfo)
      → collection_at c ue id ≡ some (with_infos (some infos) col)
      → (get_amf_subscription_info_procedure id ue c).actions
        ≡ json 200 (amf_subscription_infos infos) ∷ []
  unfolding get_amf_subscription_info_procedure
  get_found col infos h = ground arith

  created_infos :
      (infos : Option (List AmfSubscriptionInfo)) (col : EeSubscriptionCollection)
      → collection_at c ue id ≡ some col
      → collection_at (create_amf_subscriptions_procedure id ue infos c).state ue id
        ≡ some (with_infos infos col)
  created_infos infos col h =
      create-collection_at c ue id ue id infos ∙ ground (arith, ==_refl ue, ==_refl id)

-- The infos stored for a subscription that is there are the ones that a query then answers.
pub get-create :
    (c : UdrContext) (ue id : String) (infos : List AmfSubscriptionInfo)
    → collection_at c ue id ≢ none
    → (get_amf_subscription_info_procedure id ue
        (create_amf_subscriptions_procedure id ue (some infos) c).state).actions
      ≡ json 200 (amf_subscription_infos infos) ∷ []
get-create c ue id infos h = elim (Option-cases (collection_at c ue id)) [
  | inl missing ↦ absurd (h missing)
  | inr (col, found) ↦ get_found _ ue id col infos (created_infos c ue id (some infos) col found)
]
