-- ===== src/Sdm/Spec.antt =====
-- What the SDM subscriptions promise, with no nested maps: a set of known UEs, a partial function
-- from a UE and an identifier to a subscription, and the next identifier's number.
use Prim.Native.String.{String, ◌++◌}
use free5gc_udr.Base.{
  Bool, true, false, ◌==◌, if◌then◌else◌, List, [], ◌∷◌, Option, none, some, entries, lookup,
  assign,
}
use free5gc_udr.Base.Int.{ℤ, increment, itoa}
use free5gc_udr.Models.{SdmSubscription}
use free5gc_udr.Problem.{not_found}
use free5gc_udr.Context.{UdrContext, nudr_dr, get_ipv4_group_uri}
use free5gc_udr.Gin.{Action, set_problem, json, status, problem}

pub record Registry : Type 0 where
  pub known : String → Bool
  pub at : String → String → Option SdmSubscription
  pub next : ℤ

abbrev pub is_known : UdrContext → String → Bool
is_known c ue = elim (lookup ue c.ue_subs_collection) [ none ↦ false | some _ ↦ true ]

-- The subscription that the context holds for a UE and an identifier.
abbrev pub sdm_at : UdrContext → String → String → Option SdmSubscription
sdm_at c ue id = elim (lookup ue c.ue_subs_collection) [
  | none ↦ none
  | some subs ↦ lookup id (entries subs.sdm_subscriptions)
]

-- The registry that a context represents.
abbrev pub view : UdrContext → Registry
view c = record { known = is_known c; at = sdm_at c; next = c.sdm_subscription_id_generator }

pub data Outcome : Type 0 where
  no_user no_subscription changed : Outcome

abbrev pub created : Registry → String → SdmSubscription → Registry
created r ue sub = record {
  known = λ ue'. if ue == ue' then true else r.known ue';
  at = assign r.at ue (itoa r.next) (some (record sub { subscription_id = itoa r.next }));
  next = increment r.next;
}

unfoldable pub outcome : Registry → String → String → Outcome
outcome r ue id =
    if r.known ue then elim (r.at ue id) [ none ↦ no_subscription | some _ ↦ changed ] else no_user

unfoldable pub written : Registry → String → String → Option SdmSubscription → Registry
written r ue id v = elim (outcome r ue id) [
  | no_user ↦ r
  | no_subscription ↦ r
  | changed ↦ record r { at = assign r.at ue id v }
]

-- The answer for an outcome.
abbrev pub answer : Outcome → List Action
answer no_user = set_problem "USER_NOT_FOUND" ∷ json 404 (problem (not_found "USER_NOT_FOUND")) ∷ []
answer no_subscription =
    set_problem "SUBSCRIPTION_NOT_FOUND"
    ∷ json 404 (problem (not_found "SUBSCRIPTION_NOT_FOUND"))
    ∷ []
answer changed = status 204 ∷ []

abbrev pub location : UdrContext → String → String → String
location c ue id =
    get_ipv4_group_uri nudr_dr c
    ++ "/subscription-data/"
    ++ ue
    ++ "/context-data/sdm-subscriptions/"
    ++ id
