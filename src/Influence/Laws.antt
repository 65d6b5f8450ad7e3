-- ===== src/Influence/Laws.antt =====
-- What the procedures on influence data subscriptions do to the table, request by request.
use Prim.Native.String.{String, ◌++◌}
use free5gc_udr.Base.{
  ◌≡◌, refl, ◌↔◌, ◌⊎◌, inl, inr, ◌≢◌, ==_iff, ==_cases, Bool, false, if◌then◌else◌, ◌==◌, List, [],
  ◌∷◌, none, some, arith, lookup, lookup-delete, lookup-insert_self, lookup-delete_self,
  Option-cases,
}
use free5gc_udr.Models.{TrafficInfluSub}
use free5gc_udr.Problem.{not_found}
use free5gc_udr.Context.{UdrContext, pointer, struct, nudr_dr, get_ipv4_group_uri}
use free5gc_udr.Gin.{Action, header, json, influ_sub, set_problem, problem}
use free5gc_udr.Influence.{
  rejection, deep_equal, unchanged, store_sub, influence_data_subs_to_notify_post_procedure,
  influence_data_subs_to_notify_put_procedure, influence_data_subs_to_notify_id_get_procedure,
  influence_data_subs_to_notify_delete_procedure,
}

-- Whether a request names what it subscribes to.
abbrev pub NamesSomething : TrafficInfluSub → Type 0
NamesSomething sub =
    (sub.dnns ≢ []) ⊎ (sub.snssais ≢ []) ⊎ (sub.internal_group_ids ≢ []) ⊎ (sub.supis ≢ [])

-- It names that, and where to notify.
abbrev pub IsComplete : TrafficInfluSub → Type 0
IsComplete sub = NamesSomething sub × (sub.notification_uri ≢ "")

-- The answer 400 with a detail.
abbrev pub bad_request : String → List Action
bad_request detail =
    set_problem "Bad Request"
    ∷ json 400 (problem (record { title = ""; status = 400; detail = detail; cause = "" }))
    ∷ []

-- The details of the two rejections.
abbrev pub nothing_named : String
nothing_named = "At least one of DNNs, S-NSSAIs, Internal Group IDs or SUPIs shall be provided"

abbrev pub no_uri : String
no_uri = "Notification URI shall be provided"

-- Only pointers are stored.
abbrev pub AllPointers : UdrContext → Type 0
AllPointers c =
    (id : String) (sub : TrafficInfluSub)
    → lookup id c.influence_data_subscriptions ≢ some (struct sub)

-- A request is let through exactly if it names a DNN, an S-NSSAI, a group or a SUPI, and a
-- notification URI.
pub rejection_iff : (sub : TrafficInfluSub) → (rejection sub ≡ none) ↔ IsComplete sub
unfolding rejection
rejection_iff sub =
    let e = ==_iff sub.notification_uri "" in (λ h. ground (arith, e), λ h. ground (arith, e))

never_unchanged :
    (same : TrafficInfluSub → TrafficInfluSub → Bool) (id : String) (sub : TrafficInfluSub)
    (c : UdrContext)
    → AllPointers c
    → unchanged same sub (lookup id c.influence_data_subscriptions) ≡ false
unfolding unchanged deep_equal
never_unchanged same id sub c pointers =
    elim (Option-cases (lookup id c.influence_data_subscriptions)) [
      | inl missing ↦ rw missing refl
      | inr (struct s, found) ↦ absurd (pointers id s found)
      | inr (pointer s, found) ↦ rw found refl
    ]

pub post_complete :
    (same : TrafficInfluSub → TrafficInfluSub → Bool) (id : String) (sub : TrafficInfluSub)
    (c : UdrContext)
    → AllPointers c
    → rejection sub ≡ none
    → influence_data_subs_to_notify_post_procedure same id sub c ≡ record {
      result = some tt;
      state = store_sub id sub c;
      actions =
          header "Location" (
            get_ipv4_group_uri nudr_dr c ++ "/application-data/influenceData/subs-to-notify/" ++ id)
          ∷ json 201 (influ_sub sub)
          ∷ [];
    }
unfolding influence_data_subs_to_notify_post_procedure
post_complete same id sub c pointers h =
    rw (influence_data_subs_to_notify_post_procedure, h)
      (rw (never_unchanged same id sub c pointers) refl)

pub put_complete :
    (same : TrafficInfluSub → TrafficInfluSub → Bool) (id : String) (sub : TrafficInfluSub)
    (c : UdrContext)
    → AllPointers c
    → rejection sub ≡ none
    → influence_data_subs_to_notify_put_procedure same id sub c ≡ record {
      result = some tt;
      state = store_sub id sub c;
      actions = json 200 (influ_sub sub) ∷ [];
    }
unfolding influence_data_subs_to_notify_put_procedure
put_complete same id sub c pointers h =
    rw (influence_data_subs_to_notify_put_procedure, h)
      (rw (never_unchanged same id sub c pointers) refl)

-- Where only pointers are stored, a complete request is stored under its identifier, whatever is
-- there, and answered 201 with its location and itself; a query then answers it.
pub get-post :
    (same : TrafficInfluSub → TrafficInfluSub → Bool) (id : String) (sub : TrafficInfluSub)
    (c : UdrContext)
    → AllPointers c
    → IsComplete sub
    → (influence_data_subs_to_notify_post_procedure same id sub c ≡ record {
      result = some tt;
      state = store_sub id sub c;
      actions =
          header "Location" (
            get_ipv4_group_uri nudr_dr c ++ "/application-data/influenceData/subs-to-notify/" ++ id)
          ∷ json 201 (influ_sub sub)
          ∷ [];
    })
      × ((influence_data_subs_to_notify_id_get_procedure id (store_sub id sub c)).actions
          ≡ json 200 (influ_sub sub) ∷ [])
unfolding influence_data_subs_to_notify_id_get_procedure
get-post same id sub c pointers complete = (
  post_complete same id sub c pointers ((rejection_iff sub).1 complete),
  rw (lookup-insert_self id (pointer sub) c.influence_data_subscriptions) refl,
)

-- What a replacement is rejected with.
rejected_with :
    (same : TrafficInfluSub → TrafficInfluSub → Bool) (id : String) (sub : TrafficInfluSub)
    (c : UdrContext) (detail : String)
    → rejection sub ≡ some detail
    → influence_data_subs_to_notify_put_procedure same id sub c
      ≡ record { result = some tt; state = c; actions = bad_request detail }
unfolding influence_data_subs_to_notify_put_procedure
rejected_with same id sub c detail h = rw (influence_data_subs_to_notify_put_procedure, h) refl

rejection_of_nothing :
    (sub : TrafficInfluSub) → (¬ NamesSomething sub) → rejection sub ≡ some nothing_named
unfolding rejection
rejection_of_nothing sub none_named = ground arith

rejection_of_no_uri :
    (sub : TrafficInfluSub)
    → NamesSomething sub
    → sub.notification_uri ≡ ""
    → rejection sub ≡ some no_uri
unfolding rejection
rejection_of_no_uri sub named no_uri = ground (arith, ==_iff sub.notification_uri "")

nil_cases : {A : Type 0} (xs : List A) → (xs ≢ []) ⊎ (xs ≡ [])
nil_cases [] = inr refl
nil_cases (x ∷ xs) = inl (ground arith)

names_none :
    (sub : TrafficInfluSub)
    → sub.dnns ≡ []
    → sub.snssais ≡ []
    → sub.internal_group_ids ≡ []
    → sub.supis ≡ []
    → ¬ NamesSomething sub
names_none sub a b c d (inl n) = n a
names_none sub a b c d (inr (inl n)) = n b
names_none sub a b c d (inr (inr (inl n))) = n c
names_none sub a b c d (inr (inr (inr n))) = n d

names_cases : (sub : TrafficInfluSub) → NamesSomething sub ⊎ (¬ NamesSomething sub)
names_cases sub = elim (nil_cases sub.dnns) [
  | inl n ↦ inl (inl n)
  | inr a ↦ elim (nil_cases sub.snssais) [
    | inl n ↦ inl (inr (inl n))
    | inr b ↦ elim (nil_cases sub.internal_group_ids) [
      | inl n ↦ inl (inr (inr (inl n)))
      | inr c ↦ elim (nil_cases sub.supis) [
        | inl n ↦ inl (inr (inr (inr n)))
        | inr d ↦ inr (names_none sub a b c d)
      ]
    ]
  ]
]

-- Where only pointers are stored: a replacement that names a DNN, an S-NSSAI, a group or a SUPI, and a
-- notification URI, stores the subscription, whatever is there, and answers 200 with it. One that names
-- none of the four is answered 400 with the detail that says so, one that names some but no URI is
-- answered 400 with the other detail, and both leave the context as it is.
pub put-stores_or_rejects :
    (same : TrafficInfluSub → TrafficInfluSub → Bool) (id : String) (sub : TrafficInfluSub)
    (c : UdrContext)
    → AllPointers c
    → (IsComplete sub
        × (influence_data_subs_to_notify_put_procedure same id sub c ≡ record {
          result = some tt;
          state = store_sub id sub c;
          actions = json 200 (influ_sub sub) ∷ [];
        }))
      ⊎ ((¬ NamesSomething sub)
          × (influence_data_subs_to_notify_put_procedure same id sub c
              ≡ record { result = some tt; state = c; actions = bad_request nothing_named }))
      ⊎ (NamesSomething sub
          × (sub.notification_uri ≡ "")
          × (influence_data_subs_to_notify_put_procedure same id sub c
              ≡ record { result = some tt; state = c; actions = bad_request no_uri }))
put-stores_or_rejects same id sub c pointers = elim (names_cases sub) [
  | inr unnamed ↦
      inr (
        inl (unnamed, rejected_with same id sub c nothing_named (rejection_of_nothing sub unnamed)))
  | inl named ↦ elim (==_cases sub.notification_uri "") [
    | inl (missing, _) ↦ inr (
        inr (
          named,
          missing,
          rejected_with same id sub c no_uri (rejection_of_no_uri sub named missing),
        ))
    | inr (given, _) ↦
        inl (
          (named, given),
          put_complete same id sub c pointers ((rejection_iff sub).1 (named, given)),
        )
  ]
]

-- After a deletion a query for the subscription is answered with the 404 and its cause, and every
-- other subscription is as it was.
pub get-delete :
    (id id' : String) (c : UdrContext)
    → (let d : UdrContext = (influence_data_subs_to_notify_delete_procedure id c).state in
        ((influence_data_subs_to_notify_id_get_procedure id d).actions
          ≡ set_problem "USER_NOT_FOUND" ∷ json 404 (problem (not_found "USER_NOT_FOUND")) ∷ [])
        × (lookup id' d.influence_data_subscriptions
            ≡ (if id == id' then none else lookup id' c.influence_data_subscriptions)))
unfolding influence_data_subs_to_notify_id_get_procedure
    influence_data_subs_to_notify_delete_procedure not_found
get-delete id id' c = (
  rw (lookup-delete_self id c.influence_data_subscriptions) refl,
  lookup-delete id id' c.influence_data_subscriptions,
)
