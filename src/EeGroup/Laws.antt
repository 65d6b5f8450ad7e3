-- ===== src/EeGroup/Laws.antt =====
-- What the procedures on the event exposure subscriptions of groups do to each subscription.
use Prim.Native.String.{String}
use mathlib.Core.Option
use free5gc_udr.Base.{
  ◌≡◌, inl, inr, ==_iff, List, Option, none, some, arith, entries, lookup, insert, delete,
  lookup-insert, lookup-delete, Option-cases, assign,
}
use free5gc_udr.Base.Int.{itoa}
use free5gc_udr.Models.{EeSubscription}
use free5gc_udr.Context.{UdrContext}
use free5gc_udr.EeGroup.{
  load_or_new_group, store_group, create_ee_group_subscriptions_procedure,
  remove_ee_group_subscriptions_procedure, update_ee_group_subscriptions_procedure,
}

-- The subscription that the context holds for a group and an identifier.
abbrev pub group_at : UdrContext → String → String → Option EeSubscription
group_at c group id = elim (lookup group c.ue_group_collection) [
  | none ↦ none
  | some subs ↦ lookup id (entries subs.ee_subscriptions)
]

module _ (c : UdrContext) (group id group' id' : String) where
  stored_at :
      (m : List (String × EeSubscription)) (v : Option EeSubscription)
      → lookup id' m ≡ assign (group_at c) group id v group id'
      → group_at (store_group group (some m) c) group' id'
        ≡ assign (group_at c) group id v group' id'
  unfolding store_group
  stored_at m v h = ground (
    arith,
    ==_iff group group',
    ==_iff group group,
    lookup-insert group group' (record { ee_subscriptions = some m }) c.ue_group_collection,
  )

  assign-none :
      group_at c group id ≡ none
      → group_at c group' id' ≡ assign (group_at c) group id none group' id'
  assign-none h = ground (arith, ==_iff group group', ==_iff id id')

  -- After a removal the subscription is gone, and every other one is as it was.
  pub remove-group_at :
      group_at (remove_ee_group_subscriptions_procedure group id c).state group' id'
      ≡ assign (group_at c) group id none group' id'
  unfolding remove_ee_group_subscriptions_procedure
  remove-group_at = elim (Option-cases (lookup group c.ue_group_collection)) [
    | inl unknown ↦ ground (arith, assign-none)
    | inr (subs, known) ↦ elim (Option-cases (lookup id (entries subs.ee_subscriptions))) [
      | inl missing ↦ ground (arith, assign-none)
      | inr (s, found) ↦ ground (
        arith,
        ==_iff group group,
        stored_at (delete id (entries subs.ee_subscriptions)) none,
        lookup-delete id id' (entries subs.ee_subscriptions),
      )
    ]
  ]

  -- After an update the subscription is the new one if there was one, and every other one is as it
  -- was.
  pub update-group_at :
      (ee : EeSubscription)
      → group_at (update_ee_group_subscriptions_procedure group id ee c).state group' id'
        ≡ assign (group_at c) group id (Option.map (λ _. ee) (group_at c group id)) group' id'
  unfolding update_ee_group_subscriptions_procedure lookup
  update-group_at ee = elim (Option-cases (lookup group c.ue_group_collection)) [
    | inl unknown ↦ ground (arith, assign-none)
    | inr (subs, known) ↦ elim (Option-cases (lookup id (entries subs.ee_subscriptions))) [
      | inl missing ↦ ground (arith, assign-none)
      | inr (s, found) ↦ ground (
        arith,
        ==_iff group group,
        stored_at (insert id ee (entries subs.ee_subscriptions)) (some ee),
        lookup-insert id id' ee (entries subs.ee_subscriptions),
      )
    ]
  ]

module _ (c : UdrContext) (group group' id' : String) where
  -- After a creation the subscription under the next identifier is the new one, and every other one
  -- is as it was.
  pub create-group_at :
      (ee : EeSubscription)
      → group_at (create_ee_group_subscriptions_procedure group ee c).state group' id'
        ≡ assign (group_at c) group (itoa c.ee_subscription_id_generator) (some ee) group' id'
  unfolding create_ee_group_subscriptions_procedure load_or_new_group lookup store_group
  create-group_at ee = ground (
    arith,
    ==_iff group group',
    lookup-insert group group'
        (record {
          ee_subscriptions = some (
              insert (itoa c.ee_subscription_id_generator) ee
                (entries (load_or_new_group group c).ee_subscriptions));
        })
        c.ue_group_collection,
    lookup-insert (itoa c.ee_subscription_id_generator) id' ee
        (entries (load_or_new_group group c).ee_subscriptions),
  )
