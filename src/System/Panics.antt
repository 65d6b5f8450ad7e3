-- ===== src/System/Panics.antt =====
-- Which requests to a sound context panic.
use Prim.Native.String.{String}
use mathlib.Core.Logic.Or
use mathlib.Core.HLevel.{⊥_prop}
use mathlib.Core.List.{Mem, not-mem-nil, mem-cons_self, mem-cons_of_mem, eq-or-mem_of_mem-cons}
use mathlib.Core.List as ListLib
use free5gc_udr.Base.{
  ℕ, ◌≡◌, sym, ap, ◌∙◌, inl, inr, ◌≢◌, List, [], ◌∷◌, Perm, none, some, arith, lookup, entries,
  values, Option-cases,
}
use free5gc_udr.Models.{EeSubscription}
use free5gc_udr.Context.{UdrContext, EeSubscriptionCollection}
use free5gc_udr.Sdm.{query_sdm_subscriptions_procedure}
use free5gc_udr.Ee.{
  create_ee_subscriptions_procedure, remove_ee_subscriptions_procedure,
  update_ee_subscriptions_procedure, dereferenced, query_ee_subscriptions_procedure,
}
use free5gc_udr.AmfInfo.{
  create_amf_subscriptions_procedure, remove_amf_subscriptions_info_procedure,
  get_amf_subscription_info_procedure, modify_amf_subscription_info_procedure,
}
use free5gc_udr.EeGroup.{
  create_ee_group_subscriptions_procedure, query_ee_group_subscriptions_procedure,
  remove_ee_group_subscriptions_procedure, update_ee_group_subscriptions_procedure,
}
use free5gc_udr.Notify.{
  post_subscription_data_subscriptions_procedure, remove_subscription_data_subscriptions_procedure,
  policy_data_subs_to_notify_post_procedure, policy_data_subs_to_notify_subs_id_delete_procedure,
  policy_data_subs_to_notify_subs_id_put_procedure, write_map, report_missing,
}
use free5gc_udr.Influence.{
  influence_data_subs_to_notify_get_procedure, influence_data_subs_to_notify_post_procedure,
  influence_data_subs_to_notify_put_procedure, influence_data_subs_to_notify_id_get_procedure,
  influence_data_subs_to_notify_delete_procedure,
}
use free5gc_udr.Ee.Laws.{collection_at}
use free5gc_udr.Sdm.Refinement.{create-refines, remove-refines, update-refines}
use free5gc_udr.System.{
  Environment, Request, create_sdm, query_sdm, remove_sdm, update_sdm, create_ee, query_ee,
  remove_ee, update_ee, create_infos, remove_infos, get_infos, modify_infos, create_group,
  query_group, remove_group, update_group, post_data, remove_data, post_policy, delete_policy,
  put_policy, list_influence, post_influence, put_influence, get_influence, delete_influence,
  handle,
}
use free5gc_udr.System.Soundness.{AllSubscribed, IsSound}

abbrev Entry : Type 0
Entry = String × EeSubscriptionCollection

subscribed_of_mem :
    (m : List Entry) (e : Entry) → AllSubscribed m → Mem e m → e.1.ee_subscriptions ≢ none
subscribed_of_mem [] e all h = absurd (not-mem-nil h)
subscribed_of_mem (x ∷ m) e all h = λ missing.
    Or.elim ⊥_prop (eq-or-mem_of_mem-cons h)
      (λ same. all.0 (ap (λ y. y.1.ee_subscriptions) (sym same) ∙ missing))
      (λ later. subscribed_of_mem m e all.1 later missing)

all_of_mem :
    (m : List Entry) → ((e : Entry) → Mem e m → e.1.ee_subscriptions ≢ none) → AllSubscribed m
all_of_mem [] h = tt
all_of_mem (x ∷ m) h = (h x mem-cons_self, all_of_mem m (λ e there. h e (mem-cons_of_mem x there)))

AllSubscribed-Perm : (m n : List Entry) → Perm n m → AllSubscribed m → AllSubscribed n
AllSubscribed-Perm m n p all =
    all_of_mem n (λ e there. subscribed_of_mem m e all ((ListLib.Perm.mem_iff p).0 there))

-- A list of collections that all have their subscription is dereferenced.
dereferenced_returns : (m : List Entry) → AllSubscribed m → dereferenced (values m) ≢ none
unfolding dereferenced
dereferenced_returns [] all e = cc
dereferenced_returns (x ∷ m) all e = ground (arith, dereferenced_returns m all.1)

query_ee_returns :
    (visit : List Entry → List Entry) (ue : String) (k : ℕ) (c : UdrContext)
    → ((m : List Entry) → Perm (visit m) m)
    → IsSound k c
    → (query_ee_subscriptions_procedure visit ue c).result ≡ some tt
unfolding query_ee_subscriptions_procedure
query_ee_returns visit ue k c permutes s = elim (Option-cases (lookup ue c.ue_subs_collection)) [
  | inl unknown ↦ ground arith
  | inr (subs, known) ↦
      let m : List Entry = entries subs.ee_subscription_collection in
      let all = AllSubscribed-Perm m (visit m) (permutes m) (s.subscribed ue subs known) in
      let back = dereferenced_returns (visit m) all in ground (arith, back)
]

-- A nil map holds no subscription, so that nothing is written to it.
update_group_returns :
    (group id : String) (ee : EeSubscription) (c : UdrContext)
    → (update_ee_group_subscriptions_procedure group id ee c).result ≡ some tt
unfolding update_ee_group_subscriptions_procedure lookup
update_group_returns group id ee c = ground arith

-- What a removal of AMF infos needs; every other request needs nothing.
abbrev pub Removable : UdrContext → Request → Type 0
Removable c (create_sdm sub coll ue) = Unit {0}
Removable c (query_sdm ue) = Unit {0}
Removable c (remove_sdm ue id) = Unit {0}
Removable c (update_sdm ue id sub) = Unit {0}
Removable c (create_ee ue ee) = Unit {0}
Removable c (query_ee ue) = Unit {0}
Removable c (remove_ee ue id) = Unit {0}
Removable c (update_ee ue id ee) = Unit {0}
Removable c (create_infos id ue infos) = Unit {0}
Removable c (remove_infos id ue) = collection_at c ue id ≢ none
Removable c (get_infos id ue) = Unit {0}
Removable c (modify_infos ue id items) = Unit {0}
Removable c (create_group group ee) = Unit {0}
Removable c (query_group group) = Unit {0}
Removable c (remove_group group id) = Unit {0}
Removable c (update_group group id ee) = Unit {0}
Removable c (post_data sub) = Unit {0}
Removable c (remove_data id) = Unit {0}
Removable c (post_policy sub) = Unit {0}
Removable c (delete_policy id) = Unit {0}
Removable c (put_policy id sub) = Unit {0}
Removable c (list_influence dnn snssai group supi) = Unit {0}
Removable c (post_influence id sub) = Unit {0}
Removable c (put_influence id sub) = Unit {0}
Removable c (get_influence id) = Unit {0}
Removable c (delete_influence id) = Unit {0}

-- A request to a sound context ends without a panic, if a range over a map visits each of its
-- entries, and if, for a removal of AMF infos, the context holds the subscription.
pub handle_returns :
    (env : Environment) (r : Request) (k : ℕ) (c : UdrContext)
    → ((m : List Entry) → Perm (env.visit_ee m) m)
    → IsSound k c
    → Removable c r
    → (handle env r c).result ≡ some tt
unfolding handle query_sdm_subscriptions_procedure create_ee_subscriptions_procedure
    remove_ee_subscriptions_procedure update_ee_subscriptions_procedure
    create_amf_subscriptions_procedure remove_amf_subscriptions_info_procedure
    get_amf_subscription_info_procedure modify_amf_subscription_info_procedure
    create_ee_group_subscriptions_procedure query_ee_group_subscriptions_procedure
    remove_ee_group_subscriptions_procedure update_ee_group_subscriptions_procedure
    post_subscription_data_subscriptions_procedure remove_subscription_data_subscriptions_procedure
    policy_data_subs_to_notify_post_procedure policy_data_subs_to_notify_subs_id_delete_procedure
    policy_data_subs_to_notify_subs_id_put_procedure influence_data_subs_to_notify_get_procedure
    influence_data_subs_to_notify_post_procedure influence_data_subs_to_notify_put_procedure
    influence_data_subs_to_notify_id_get_procedure influence_data_subs_to_notify_delete_procedure
    write_map report_missing
handle_returns env (create_sdm sub coll ue) k c permutes s ok = (create-refines sub coll ue c).1
handle_returns env (query_sdm ue) k c permutes s ok = ground arith
handle_returns env (remove_sdm ue id) k c permutes s ok = (remove-refines ue id c).1
handle_returns env (update_sdm ue id sub) k c permutes s ok = (update-refines ue id sub c).1
handle_returns env (create_ee ue ee) k c permutes s ok = ground arith
handle_returns env (query_ee ue) k c permutes s ok = query_ee_returns env.visit_ee ue k c permutes s
handle_returns env (remove_ee ue id) k c permutes s ok = ground arith
handle_returns env (update_ee ue id ee) k c permutes s ok = ground arith
handle_returns env (create_infos id ue infos) k c permutes s ok = ground arith
handle_returns env (remove_infos id ue) k c permutes s ok = ground (arith, ok)
handle_returns env (get_infos id ue) k c permutes s ok = ground arith
handle_returns env (modify_infos ue id items) k c permutes s ok = ground arith
handle_returns env (create_group group ee) k c permutes s ok = ground arith
handle_returns env (query_group group) k c permutes s ok = ground arith
handle_returns env (remove_group group id) k c permutes s ok = ground arith
handle_returns env (update_group group id ee) k c permutes s ok = update_group_returns group id ee c
handle_returns env (post_data sub) k c permutes s ok =
    let made = s.data_made in ground (arith, made)
handle_returns env (remove_data id) k c permutes s ok = ground arith
handle_returns env (post_policy sub) k c permutes s ok =
    let made = s.policy_made in ground (arith, made)
handle_returns env (delete_policy id) k c permutes s ok = ground arith
handle_returns env (put_policy id sub) k c permutes s ok =
    let made = s.policy_made in ground (arith, made)
handle_returns env (list_influence dnn snssai group supi) k c permutes s ok = ground arith
handle_returns env (post_influence id sub) k c permutes s ok = ground arith
handle_returns env (put_influence id sub) k c permutes s ok = ground arith
handle_returns env (get_influence id) k c permutes s ok = ground arith
handle_returns env (delete_influence id) k c permutes s ok = ground arith
