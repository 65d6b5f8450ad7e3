-- ===== src/Notify/Laws.antt =====
-- What the procedures on policy data subscriptions answer and leave in the table.
use Prim.Native.String.{String}
use free5gc_udr.Base.{
  ◌≡◌, ◌↔◌, ◌≢◌, ◌==◌, if◌then◌else◌, List, Option, none, some, arith, lookup, lookup-insert,
  entries,
}
use free5gc_udr.Models.{PolicyDataSubscription}
use free5gc_udr.Context.{UdrContext}
use free5gc_udr.Gin.{answers}
use free5gc_udr.Notify.{write_map, report_missing, policy_data_subs_to_notify_subs_id_put_procedure}

-- The policy data subscription that the context holds under an identifier.
abbrev pub policy_at : UdrContext → String → Option PolicyDataSubscription
policy_at c id = lookup id (entries c.policy_data_subscriptions)

module _ (c : UdrContext) (id : String) (sub : PolicyDataSubscription)
    (m : List (String × PolicyDataSubscription)) (made : c.policy_data_subscriptions ≡ some m) where
  -- Once the table was made, a replacement stores the subscription whether or not one is there
  -- and leaves every other one; it answers once exactly if one is there.
  pub put_answers_once_iff :
      ((id' : String)
        → policy_at (policy_data_subs_to_notify_subs_id_put_procedure id sub c).state id'
          ≡ (if id == id' then some sub else policy_at c id'))
      × ((answers (policy_data_subs_to_notify_subs_id_put_procedure id sub c).actions ≡ 1)
          ↔ (policy_at c id ≢ none))
  unfolding policy_data_subs_to_notify_subs_id_put_procedure write_map report_missing answers
  put_answers_once_iff = (
    λ id'. ground (arith, made, lookup-insert id id' sub m),
    (λ h. ground (arith, made), λ h. ground (arith, made)),
  )
