-- ===== src/Notify.antt =====
-- The subscriptions to changes: internal/sbi/processor/subs_to_notify_{collection,document}.go for
-- subscription data, and the PolicyDataSubsToNotify procedures of default.go for policy data.
pub mod Laws
use Prim.Native.String.{String, ◌++◌}
use free5gc_udr.Base.{List, [], ◌∷◌, Option, none, some, GoMap, entries, lookup, insert, delete}
use free5gc_udr.Base.Int.{increment, itoa}
use free5gc_udr.Models.{SubscriptionDataSubscriptions, PolicyDataSubscription}
use free5gc_udr.Problem.{not_found}
use free5gc_udr.Context.{UdrContext, nudr_dr, get_ipv4_group_uri}
use free5gc_udr.Gin.{
  M, ◌>>=◌, ◌>>◌, done, emit, get_state, set_state, panic, answer_problem, header, json, status,
  data_subscription, policy_subscription,
}

-- `m[k] = v`: a write to a nil map is a panic.
unfoldable pub write_map : {V : Type 0} → String → V → GoMap V → Option (List (String × V))
write_map k v none = none
write_map k v (some m) = some (insert k v m)

-- `delete(m, k)`: of a nil map it does nothing.
unfoldable pub delete_map : {V : Type 0} → String → GoMap V → GoMap V
delete_map k none = none
delete_map k (some m) = some (delete k m)

unfoldable pub post_subscription_data_subscriptions_procedure :
    SubscriptionDataSubscriptions → M UdrContext (Unit {0})
unfolding write_map
post_subscription_data_subscriptions_procedure sub = do
  c ← get_state
  let new_id = itoa c.subscription_data_subscription_id_generator
  elim (write_map new_id sub c.subscription_data_subscriptions) [
    | none ↦ panic
    | some m ↦ do
      set_state (record c {
        subscription_data_subscriptions = some m;
        subscription_data_subscription_id_generator =
            increment c.subscription_data_subscription_id_generator;
      })
      emit (
          header "Location"
            (get_ipv4_group_uri nudr_dr c ++ "/subscription-data/subs-to-notify/" ++ new_id))
      emit (json 201 (data_subscription sub))
  ]

unfoldable pub remove_subscription_data_subscriptions_procedure : String → M UdrContext (Unit {0})
unfolding delete_map
remove_subscription_data_subscriptions_procedure subs_id = do
  c ← get_state
  elim (lookup subs_id (entries c.subscription_data_subscriptions)) [
    | none ↦ answer_problem (not_found "SUBSCRIPTION_NOT_FOUND")
    | some _ ↦ do
      set_state (record c {
        subscription_data_subscriptions = delete_map subs_id c.subscription_data_subscriptions;
      })
      emit (status 204)
  ]

unfoldable pub policy_data_subs_to_notify_post_procedure :
    PolicyDataSubscription → M UdrContext (Unit {0})
unfolding write_map
policy_data_subs_to_notify_post_procedure sub = do
  c ← get_state
  let new_id = itoa c.policy_data_subscription_id_generator
  elim (write_map new_id sub c.policy_data_subscriptions) [
    | none ↦ panic
    | some m ↦ do
      set_state (record c {
        policy_data_subscriptions = some m;
        policy_data_subscription_id_generator = increment c.policy_data_subscription_id_generator;
      })
      emit (
          header "Location"
            (get_ipv4_group_uri nudr_dr c ++ "/policy-data/subs-to-notify/" ++ new_id))
      emit (json 201 (policy_subscription sub))
  ]

-- The 404 of a key that is not there; the procedures below go on after it.
unfoldable pub report_missing : String → UdrContext → M UdrContext (Unit {0})
report_missing subs_id c = elim (lookup subs_id (entries c.policy_data_subscriptions)) [
  | none ↦ answer_problem (not_found "SUBSCRIPTION_NOT_FOUND")
  | some _ ↦ done
]

unfoldable pub policy_data_subs_to_notify_subs_id_delete_procedure :
    String → M UdrContext (Unit {0})
unfolding report_missing delete_map
policy_data_subs_to_notify_subs_id_delete_procedure subs_id = do
  c ← get_state
  report_missing subs_id c
  set_state
      (record c { policy_data_subscriptions = delete_map subs_id c.policy_data_subscriptions })
  emit (status 204)

unfoldable pub policy_data_subs_to_notify_subs_id_put_procedure :
    String → PolicyDataSubscription → M UdrContext (Unit {0})
unfolding report_missing write_map
policy_data_subs_to_notify_subs_id_put_procedure subs_id sub = do
  c ← get_state
  report_missing subs_id c
  elim (write_map subs_id sub c.policy_data_subscriptions) [
    | none ↦ panic
    | some m ↦ do
      set_state (record c { policy_data_subscriptions = some m })
      emit (json 200 (policy_subscription sub))
  ]
