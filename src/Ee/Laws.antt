-- ===== src/Ee/Laws.antt =====
-- What the procedures on event exposure subscriptions do to the collection of each UE and identifier.
use Prim.Native.String.{String}
use mathlib.Core.Option
use free5gc_udr.Base.{
  ◌≡◌, inl, inr, ==_iff, Option, none, some, arith, entries, lookup, delete, lookup-insert,
  lookup-delete, Option-cases, assign,
}
use free5gc_udr.Base.Int.{itoa}
use free5gc_udr.Models.{EeSubscription}
use free5gc_udr.Context.{UdrContext, UeSubsData, EeSubscriptionCollection}
use free5gc_udr.Sdm.{load_or_new, store_ue}
use free5gc_udr.Ee.{
  put_collection, create_ee_subscriptions_procedure, remove_ee_subscriptions_procedure,
  update_ee_subscriptions_procedure,
}

-- The collection that the context holds for a UE and an identifier.
abbrev pub collection_at : UdrContext → String → String → Option EeSubscriptionCollection
collection_at c ue id = elim (lookup ue c.ue_subs_collection) [
  | none ↦ none
  | some subs ↦ lookup id (entries subs.ee_subscription_collection)
]

module _ (c : UdrContext) (ue id ue' id' : String) where
  created_at :
      (col : EeSubscriptionCollection)
      → collection_at (store_ue ue (put_collection id col (load_or_new ue c)) c) ue' id'
        ≡ assign (collection_at c) ue id (some col) ue' id'
  unfolding store_ue put_collection load_or_new lookup
  created_at col = ground (
    arith,
    ==_iff ue ue',
    lookup-insert ue ue' (put_collection id col (load_or_new ue c)) c.ue_subs_collection,
    lookup-insert id id' col (entries (load_or_new ue c).ee_subscription_collection),
  )

  -- A write at a key of a known UE.
  pub put_at :
      (subs : UeSubsData) (col : EeSubscriptionCollection)
      → lookup ue c.ue_subs_collection ≡ some subs
      → collection_at (store_ue ue (put_collection id col subs) c) ue' id'
        ≡ assign (collection_at c) ue id (some col) ue' id'
  unfolding store_ue put_collection
  put_at subs col known = ground (
    arith,
    ==_iff ue ue',
    lookup-insert ue ue' (put_collection id col subs) c.ue_subs_collection,
    lookup-insert id id' col (entries subs.ee_subscription_collection),
  )

  -- A UE, or an identifier, of which nothing is known may be assigned none.
  pub assign-none :
      collection_at c ue id ≡ none
      → collection_at c ue' id' ≡ assign (collection_at c) ue id none ue' id'
  assign-none h = ground (arith, ==_iff ue ue', ==_iff id id')

  delete_at :
      (subs : UeSubsData)
      → lookup ue c.ue_subs_collection ≡ some subs
      → collection_at
          (store_ue ue
            (record subs {
              ee_subscription_collection =
                  some (delete id (entries subs.ee_subscription_collection));
            })
            c)
          ue'
          id'
        ≡ assign (collection_at c) ue id none ue' id'
  unfolding store_ue
  delete_at subs known = ground (
    arith,
    ==_iff ue ue',
    lookup-insert ue ue'
        (record subs {
          ee_subscription_collection = some (delete id (entries subs.ee_subscription_collection));
        })
        c.ue_subs_collection,
    lookup-delete id id' (entries subs.ee_subscription_collection),
  )

  -- After a removal the collection is gone, and every other one is as it was.
  pub remove-collection_at :
      collection_at (remove_ee_subscriptions_procedure ue id c).state ue' id'
      ≡ assign (collection_at c) ue id none ue' id'
  unfolding remove_ee_subscriptions_procedure
  remove-collection_at = elim (Option-cases (lookup ue c.ue_subs_collection)) [
    | inl unknown ↦ ground (arith, assign-none)
    | inr (subs, known) ↦
        elim (Option-cases (lookup id (entries subs.ee_subscription_collection))) [
          | inl missing ↦ ground (arith, assign-none)
          | inr (s, found) ↦ ground (arith, delete_at subs known)
        ]
  ]

  -- A write of a new value through the pointer of a collection that is there.
  abbrev pub rewritten :
      (EeSubscriptionCollection → EeSubscriptionCollection) → Option EeSubscriptionCollection
  rewritten f = Option.map f (collection_at c ue id)

  -- After an update the collection holds the new subscription and the AMF infos that it had; where
  -- there was none there is none still, and every other one is as it was.
  pub update-collection_at :
      (ee : EeSubscription)
      → collection_at (update_ee_subscriptions_procedure ue id ee c).state ue' id'
        ≡ assign
            (collection_at c)
            ue
            id
            (rewritten (λ col. record col { ee_subscriptions = some ee }))
            ue'
            id'
  unfolding update_ee_subscriptions_procedure
  update-collection_at ee = elim (Option-cases (lookup ue c.ue_subs_collection)) [
    | inl unknown ↦ ground (arith, assign-none)
    | inr (subs, known) ↦
        elim (Option-cases (lookup id (entries subs.ee_subscription_collection))) [
          | inl missing ↦ ground (arith, assign-none)
          | inr (col, found) ↦
              ground (arith, put_at subs (record col { ee_subscriptions = some ee }) known)
        ]
  ]

module _ (c : UdrContext) (ue ue' id' : String) where
  -- After a creation the collection under the next identifier is the new one, with no AMF infos, and
  -- every other one is as it was.
  pub create-collection_at :
      (ee : EeSubscription)
      → collection_at (create_ee_subscriptions_procedure ue ee c).state ue' id'
        ≡ assign
            (collection_at c)
            ue
            (itoa c.ee_subscription_id_generator)
            (some (record { ee_subscriptions = some ee; amf_subscription_infos = none }))
            ue'
            id'
  unfolding create_ee_subscriptions_procedure
  create-collection_at ee = created_at c ue (itoa c.ee_subscription_id_generator) ue' id' _
