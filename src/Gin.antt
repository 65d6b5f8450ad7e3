-- ===== src/Gin.antt =====
-- A handler as a function on a state that records, in order, what it asks of the gin context and
-- the goroutines that it starts. gin and the network are outside the repository: an action is the
-- call with its arguments.
use Prim.Native.String.{String}
use free5gc_udr.Base.{ℕ, suc, List, [], ◌∷◌, ◌++◌, Option, none, some}
use free5gc_udr.Models.{
  Json, Document, SdmSubscription, EeSubscription, AmfSubscriptionInfo,
  SubscriptionDataSubscriptions, PolicyDataSubscription, TrafficInfluSub, TrafficInfluData,
  NotifyItem, PolicyDataChangeNotification, IdentityData, ProvisionedDataSets, SmPolicyData,
}
use free5gc_udr.Problem.{ProblemDetails}

-- What is passed to `c.JSON`; `nothing` is `nil`.
pub data Body : Type 0 where
  nothing : Body
  problem : ProblemDetails → Body
  json_value : Json → Body
  document : Document → Body
  documents : List Document → Body
  sdm_subscription : SdmSubscription → Body
  sdm_subscriptions : List SdmSubscription → Body
  ee_subscription : EeSubscription → Body
  ee_subscriptions : List EeSubscription → Body
  amf_subscription_infos : List AmfSubscriptionInfo → Body
  data_subscription : SubscriptionDataSubscriptions → Body
  policy_subscription : PolicyDataSubscription → Body
  influ_sub : TrafficInfluSub → Body
  influ_subs : List TrafficInfluSub → Body
  influ_data : TrafficInfluData → Body
  identity_data : IdentityData → Body
  sm_subs_data : Option (List Json) → Body
  provisioned_data_sets : ProvisionedDataSets → Body
  sm_policy_data : SmPolicyData → Body

-- The calls that callback.go starts by `go`.
pub data Task : Type 0 where
  data_change : String → List NotifyItem → Task
  policy_change : PolicyDataChangeNotification → Task
  influence_update : String → Option TrafficInfluData → Option TrafficInfluData → Task

pub data Action : Type 0 where
  set_problem : String → Action
  header : String → String → Action
  json : ℕ → Body → Action
  status : ℕ → Action
  content : ℕ → String → Action
  plain : ℕ → String → Action
  spawn : Task → Action

-- What a handler has done when it ends: `none` is a panic.
pub record Step (S : Type 0) (A : Type 0) : Type 0 where
  pub result : Option A
  pub state : S
  pub actions : List Action

abbrev pub M : Type 0 → Type 0 → Type 0
M S A = S → Step S A

module _ {S : Type 0} where
  abbrev pub pure : {A : Type 0} → A → M S A
  pure a s = record { result = some a; state = s; actions = [] }

  abbrev pub done : M S (Unit {0})
  done = pure tt

  abbrev pub panic : {A : Type 0} → M S A
  panic s = record { result = none; state = s; actions = [] }

  abbrev pub get_state : M S S
  get_state s = record { result = some s; state = s; actions = [] }

  abbrev pub set_state : S → M S (Unit {0})
  set_state t s = record { result = some tt; state = t; actions = [] }

  abbrev pub emit : Action → M S (Unit {0})
  emit a s = record { result = some tt; state = s; actions = a ∷ [] }

  abbrev after : {A B : Type 0} → List Action → Option A → (A → M S B) → S → Step S B
  after before none f s = record { result = none; state = s; actions = before }
  after before (some a) f s =
      let r = f a s in record { result = r.result; state = r.state; actions = before ++ r.actions }

  infixl 5 ◌>>=◌ ◌>>◌
  abbrev pub ◌>>=◌ : {A B : Type 0} → M S A → (A → M S B) → M S B
  ◌>>=◌ m f s = let r = m s in after r.actions r.result f r.state

  abbrev pub ◌>>◌ : {B : Type 0} → M S (Unit {0}) → M S B → M S B
  m >> k = m >>= λ _. k

  -- `c.Set(sbi.IN_PB_DETAILS_CTX_STR, pd.Cause); c.JSON(int(pd.Status), pd)`
  abbrev pub answer_problem : ProblemDetails → M S (Unit {0})
  answer_problem pd = do emit (set_problem pd.cause); emit (json pd.status (problem pd))

-- How often an answer was written: by c.JSON, c.Status, c.Data or c.String.
unfoldable pub answers : List Action → ℕ
answers [] = 0
answers (json _ _ ∷ more) = suc (answers more)
answers (status _ ∷ more) = suc (answers more)
answers (content _ _ ∷ more) = suc (answers more)
answers (plain _ _ ∷ more) = suc (answers more)
answers (_ ∷ more) = answers more
