-- ===== src/Sdm/Refinement.antt =====
-- The handlers of the SDM subscriptions against the registry of Sdm.Spec.
use Prim.Native.String.{String}
use free5gc_udr.Base.{
  ◌≡◌, refl, inl, inr, ◌==◌, if◌then◌else◌, List, [], ◌∷◌, Option, none, some, arith, entries,
  lookup, insert, delete, lookup-insert, lookup-delete, Option-cases,
}
use free5gc_udr.Base.Int.{increment, itoa}
use free5gc_udr.Models.{SdmSubscription, null}
use free5gc_udr.Problem.{not_found}
use free5gc_udr.Context.{UdrContext, UeSubsData}
use free5gc_udr.Gin.{Step, Action, header, json, sdm_subscription}
use free5gc_udr.Sdm.{
  load_or_new, store_ue, put_sdm, create_sdm_subscriptions_procedure,
  remove_sdm_subscriptions_procedure, update_sdm_subscriptions_procedure,
}
use free5gc_udr.Sdm.Spec.{
  no_user, no_subscription, changed, view, created, outcome, written, answer, location,
}
use free5gc_udr.Sdm.Written.{
  is_known-store_ue, sdm_at-put_sdm, view-written, outcome_found, outcome_missing, outcome_unknown,
}

-- Creating a subscription is creating one in the registry, whatever the context: the UE becomes
-- known, the subscription is stored under the next identifier and carries it, every other
-- subscription stays, and the answer is 201 with the location and the stored subscription.
pub create-refines :
    (sub : SdmSubscription) (coll ue : String) (c : UdrContext)
    → (view (create_sdm_subscriptions_procedure sub coll ue c).state ≡ created (view c) ue sub)
      × ((create_sdm_subscriptions_procedure sub coll ue c).result ≡ some tt)
      × ((create_sdm_subscriptions_procedure sub coll ue c).actions
          ≡ header "Location" (location c ue (itoa c.sdm_subscription_id_generator))
            ∷ json 201 (
                sdm_subscription
                  (record sub { subscription_id = itoa c.sdm_subscription_id_generator }))
            ∷ [])
unfolding create_sdm_subscriptions_procedure
create-refines sub coll ue c =
    let id = itoa c.sdm_subscription_id_generator in
    let new = record sub { subscription_id = id } in
    let known = is_known-store_ue c ue in
    let at = sdm_at-put_sdm c ue id in
    (
      λ i. record {
        known = λ ue'. known ue' (put_sdm id new (load_or_new ue c)) i;
        at = λ ue' id'. at ue' id' new i;
        next = increment c.sdm_subscription_id_generator;
      },
      refl,
      refl,
    )

-- What a handler has done for an outcome, when a change writes `m` to the map of the UE.
abbrev pub Implements :
    UdrContext → String → String → Option SdmSubscription → Step UdrContext (Unit {0}) → Type 0
Implements c ue id v s =
    (view s.state ≡ written (view c) ue id v)
    × (s.result ≡ some tt)
    × (s.actions ≡ answer (outcome (view c) ue id))

module _ (c : UdrContext) (ue id : String) (v : Option SdmSubscription) where
  Implements-unknown :
      lookup ue c.ue_subs_collection ≡ none
      → Implements c ue id v (record { result = some tt; state = c; actions = answer no_user })
  unfolding written
  Implements-unknown e = rw (outcome_unknown c ue id e, written) (refl, refl, refl)

  Implements-missing :
      (subs : UeSubsData)
      → lookup ue c.ue_subs_collection ≡ some subs
      → lookup id (entries subs.sdm_subscriptions) ≡ none
      → Implements c ue id v
          (record { result = some tt; state = c; actions = answer no_subscription })
  unfolding written
  Implements-missing subs e e' = rw (outcome_missing c ue id subs e e', written) (refl, refl, refl)

  Implements-changed :
      (subs : UeSubsData) (s : SdmSubscription) (m : List (String × SdmSubscription))
      → lookup ue c.ue_subs_collection ≡ some subs
      → lookup id (entries subs.sdm_subscriptions) ≡ some s
      → ((j : String)
          → lookup j m ≡ (if id == j then v else lookup j (entries subs.sdm_subscriptions)))
      → Implements c ue id v (record {
        result = some tt;
        state = store_ue ue (record subs { sdm_subscriptions = some m }) c;
        actions = answer changed;
      })
  unfolding written
  Implements-changed subs s m e e' h =
      rw (outcome_found c ue id subs e s e', written)
        (view-written c ue id subs m v e h, refl, refl)

-- The record that ends a handler without a panic.
abbrev ends : UdrContext → List Action → Step UdrContext (Unit {0})
ends c actions = record { result = some tt; state = c; actions = actions }

module _ (ue id : String) (sub : SdmSubscription) (c : UdrContext) where
  unknown_user :
      lookup ue c.ue_subs_collection ≡ none
      → (remove_sdm_subscriptions_procedure ue id c ≡ ends c (answer no_user))
        × (update_sdm_subscriptions_procedure ue id sub c ≡ ends c (answer no_user))
  unfolding remove_sdm_subscriptions_procedure update_sdm_subscriptions_procedure not_found
  unknown_user unknown = (ground arith, ground arith)

  module _ (subs : UeSubsData) (known : lookup ue c.ue_subs_collection ≡ some subs) where
    unknown_subscription :
        lookup id (entries subs.sdm_subscriptions) ≡ none
        → (remove_sdm_subscriptions_procedure ue id c ≡ ends c (answer no_subscription))
          × (update_sdm_subscriptions_procedure ue id sub c ≡ ends c (answer no_subscription))
    unfolding remove_sdm_subscriptions_procedure update_sdm_subscriptions_procedure not_found
    unknown_subscription missing = (ground arith, ground arith)

    remove_found :
        (s : SdmSubscription)
        → lookup id (entries subs.sdm_subscriptions) ≡ some s
        → remove_sdm_subscriptions_procedure ue id c
          ≡ ends
              (store_ue ue
                (record subs {
                  sdm_subscriptions = some (delete id (entries subs.sdm_subscriptions));
                })
                c)
              (answer changed)
    unfolding remove_sdm_subscriptions_procedure
    remove_found s found = ground arith

    -- A map that holds something is not nil, so that the write is no panic.
    update_found :
        (s : SdmSubscription)
        → lookup id (entries subs.sdm_subscriptions) ≡ some s
        → update_sdm_subscriptions_procedure ue id sub c
          ≡ ends
              (store_ue ue
                (record subs {
                  sdm_subscriptions = some (
                      insert id
                        (record sub { subscription_id = id })
                        (entries subs.sdm_subscriptions));
                })
                c)
              (answer changed)
    unfolding update_sdm_subscriptions_procedure lookup
    update_found s found = ground arith

-- Removing a subscription is removing it from the registry, whatever the context: an unknown UE and
-- an unknown identifier are answered with their 404 and change nothing; a subscription that is
-- there is gone afterwards, every other one stays, and the answer is 204. The handler never panics.
pub remove-refines :
    (ue id : String) (c : UdrContext)
    → Implements c ue id none (remove_sdm_subscriptions_procedure ue id c)
remove-refines ue id c = elim (Option-cases (lookup ue c.ue_subs_collection)) [
  | inl unknown ↦
      rw ((unknown_user ue id dummy c unknown).0) (Implements-unknown c ue id none unknown)
  | inr (subs, known) ↦ elim (Option-cases (lookup id (entries subs.sdm_subscriptions))) [
    | inl missing ↦
        rw ((unknown_subscription ue id dummy c subs known missing).0)
          (Implements-missing c ue id none subs known missing)
    | inr (s, found) ↦ rw (remove_found ue id dummy c subs known s found) (
        Implements-changed c ue id none subs s (delete id (entries subs.sdm_subscriptions)) known
          found (λ j. lookup-delete id j (entries subs.sdm_subscriptions)))
  ]
]
  where
    dummy : SdmSubscription
    dummy = record { subscription_id = id; rest = null }

-- Updating a subscription is writing it in the registry, under the same outcomes as a removal; what
-- is stored carries the identifier of the request. The handler never panics: a nil map holds no
-- subscription, and then nothing is written.
pub update-refines :
    (ue id : String) (sub : SdmSubscription) (c : UdrContext)
    → Implements c ue id
        (some (record sub { subscription_id = id }))
        (update_sdm_subscriptions_procedure ue id sub c)
update-refines ue id sub c = elim (Option-cases (lookup ue c.ue_subs_collection)) [
  | inl unknown ↦ rw ((unknown_user ue id sub c unknown).1) (Implements-unknown c ue id _ unknown)
  | inr (subs, known) ↦ elim (Option-cases (lookup id (entries subs.sdm_subscriptions))) [
    | inl missing ↦
        rw ((unknown_subscription ue id sub c subs known missing).1)
          (Implements-missing c ue id _ subs known missing)
    | inr (s, found) ↦ rw (update_found ue id sub c subs known s found) (
        Implements-changed c ue id _ subs s _ known found (λ j.
          lookup-insert id j (record sub { subscription_id = id })
            (entries subs.sdm_subscriptions)))
  ]
]
