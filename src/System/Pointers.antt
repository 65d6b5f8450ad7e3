-- ===== src/System/Pointers.antt =====
-- The table of influence data subscriptions under requests.
use Prim.Native.String.{String}
use free5gc_udr.Base.{
  ◌≡◌, refl, ◌⊎◌, inl, inr, List, [], ◌∷◌, arith, lookup, insert, delete, lookup-insert,
  lookup-delete, Option-cases, Bool-cases,
}
use free5gc_udr.Models.{TrafficInfluSub}
use free5gc_udr.Context.{UdrContext, InfluEntry, pointer, init_tables}
use free5gc_udr.Influence.{rejection, unchanged}
use free5gc_udr.Influence.Laws.{AllPointers}
use free5gc_udr.Sdm.{
  create_sdm_subscriptions_procedure, remove_sdm_subscriptions_procedure,
  update_sdm_subscriptions_procedure, store_ue,
}
use free5gc_udr.EeGroup.{store_group}
use free5gc_udr.AmfInfo.{put_infos}
use free5gc_udr.Sdm.{query_sdm_subscriptions_procedure}
use free5gc_udr.Ee.{
  create_ee_subscriptions_procedure, remove_ee_subscriptions_procedure,
  update_ee_subscriptions_procedure, query_ee_subscriptions_procedure,
}
use free5gc_udr.AmfInfo.{
  create_amf_subscriptions_procedure, remove_amf_subscriptions_info_procedure,
  get_amf_subscription_info_procedure, modify_amf_subscription_info_procedure,
}
use free5gc_udr.EeGroup.{
  create_ee_group_subscriptions_procedure, query_ee_group_subscriptions_procedure,
  remove_ee_group_subscriptions_procedure, update_ee_group_subscriptions_procedure,
}
use free5gc_udr.Notify.{
  post_subscription_data_subscriptions_procedure, remove_subscription_data_subscriptions_procedure,
  policy_data_subs_to_notify_post_procedure, policy_data_subs_to_notify_subs_id_delete_procedure,
  policy_data_subs_to_notify_subs_id_put_procedure, write_map, report_missing,
}
use free5gc_udr.Influence.{
  influence_data_subs_to_notify_get_procedure, influence_data_subs_to_notify_post_procedure,
  influence_data_subs_to_notify_put_procedure, influence_data_subs_to_notify_id_get_procedure,
  influence_data_subs_to_notify_delete_procedure,
}
use free5gc_udr.System.{
  Environment, Request, create_sdm, query_sdm, remove_sdm, update_sdm, create_ee, query_ee,
  remove_ee, update_ee, create_infos, remove_infos, get_infos, modify_infos, create_group,
  query_group, remove_group, update_group, post_data, remove_data, post_policy, delete_policy,
  put_policy, list_influence, post_influence, put_influence, get_influence, delete_influence,
  handle, serve,
}

-- How a table may change: not, by a store of a pointer, or by a deletion.
abbrev Touched : List (String × InfluEntry) → List (String × InfluEntry) → Type 0
Touched old new =
    (new ≡ old)
    ⊎ ((id : String) × (sub : TrafficInfluSub) × (new ≡ insert id (pointer sub) old))
    ⊎ ((id : String) × (new ≡ delete id old))

AllPointers-Touched :
    (c d : UdrContext)
    → Touched c.influence_data_subscriptions d.influence_data_subscriptions
    → AllPointers c
    → AllPointers d
AllPointers-Touched c d (inl same) h id sub e = h id sub (rw (← same) e)
AllPointers-Touched c d (inr (inl (key, new, stored))) h id sub e =
    let at = lookup-insert key id (pointer new) c.influence_data_subscriptions in
    let old = h id sub in ground (arith, at, stored, old, e)
AllPointers-Touched c d (inr (inr (key, deleted))) h id sub e =
    let at = lookup-delete key id c.influence_data_subscriptions in
    let old = h id sub in ground (arith, at, deleted, old, e)

handle_touches :
    (env : Environment) (r : Request) (c : UdrContext)
    → Touched c.influence_data_subscriptions (handle env r c).state.influence_data_subscriptions
unfolding handle query_sdm_subscriptions_procedure create_ee_subscriptions_procedure
    remove_ee_subscriptions_procedure update_ee_subscriptions_procedure
    query_ee_subscriptions_procedure create_amf_subscriptions_procedure
    remove_amf_subscriptions_info_procedure get_amf_subscription_info_procedure
    modify_amf_subscription_info_procedure create_ee_group_subscriptions_procedure
    query_ee_group_subscriptions_procedure remove_ee_group_subscriptions_procedure
    update_ee_group_subscriptions_procedure post_subscription_data_subscriptions_procedure
    remove_subscription_data_subscriptions_procedure policy_data_subs_to_notify_post_procedure
    policy_data_subs_to_notify_subs_id_delete_procedure
    policy_data_subs_to_notify_subs_id_put_procedure influence_data_subs_to_notify_get_procedure
    influence_data_subs_to_notify_post_procedure influence_data_subs_to_notify_put_procedure
    influence_data_subs_to_notify_id_get_procedure influence_data_subs_to_notify_delete_procedure
    create_sdm_subscriptions_procedure remove_sdm_subscriptions_procedure
    update_sdm_subscriptions_procedure write_map report_missing store_ue store_group put_infos
handle_touches env (create_sdm sub coll ue) c = inl (ground arith)
handle_touches env (query_sdm ue) c = inl (ground arith)
handle_touches env (remove_sdm ue id) c = inl (ground arith)
handle_touches env (update_sdm ue id sub) c = inl (ground arith)
handle_touches env (create_ee ue ee) c = inl (ground arith)
handle_touches env (query_ee ue) c = inl (ground arith)
handle_touches env (remove_ee ue id) c = inl (ground arith)
handle_touches env (update_ee ue id ee) c = inl (ground arith)
handle_touches env (create_infos id ue infos) c = inl (ground arith)
handle_touches env (remove_infos id ue) c = inl (ground arith)
handle_touches env (get_infos id ue) c = inl (ground arith)
handle_touches env (modify_infos ue id items) c = inl (ground arith)
handle_touches env (create_group group ee) c = inl (ground arith)
handle_touches env (query_group group) c = inl (ground arith)
handle_touches env (remove_group group id) c = inl (ground arith)
handle_touches env (update_group group id ee) c = inl (ground arith)
handle_touches env (post_data sub) c = inl (ground arith)
handle_touches env (remove_data id) c = inl (ground arith)
handle_touches env (post_policy sub) c = inl (ground arith)
handle_touches env (delete_policy id) c = inl (ground arith)
handle_touches env (put_policy id sub) c = inl (ground arith)
handle_touches env (list_influence dnn snssai group supi) c = inl (ground arith)
handle_touches env (post_influence id sub) c = elim (Option-cases (rejection sub)) [
  | inr (detail, rejected) ↦ inl (ground (arith, rejected))
  | inl accepted ↦
      elim (Bool-cases (unchanged env.same sub (lookup id c.influence_data_subscriptions))) [
        | inl same ↦ inl (ground (arith, accepted, same))
        | inr new ↦ inr (inl (id, sub, ground (arith, accepted, new)))
      ]
]
handle_touches env (put_influence id sub) c = elim (Option-cases (rejection sub)) [
  | inr (detail, rejected) ↦ inl (ground (arith, rejected))
  | inl accepted ↦
      elim (Bool-cases (unchanged env.same sub (lookup id c.influence_data_subscriptions))) [
        | inl same ↦ inl (ground (arith, accepted, same))
        | inr new ↦ inr (inl (id, sub, ground (arith, accepted, new)))
      ]
]
handle_touches env (get_influence id) c = inl (ground arith)
handle_touches env (delete_influence id) c = inr (inr (id, refl))

serve-AllPointers_from :
    (env : Environment) (rs : List Request) (c : UdrContext)
    → AllPointers c
    → AllPointers (serve env rs c)
unfolding serve
serve-AllPointers_from env [] c h = h
serve-AllPointers_from env (r ∷ rs) c h =
    serve-AllPointers_from env rs (handle env r c).state
      (AllPointers-Touched c (handle env r c).state (handle_touches env r c) h)

-- After any requests to a context that is freshly initialised, with no influence data subscription,
-- the table of influence data subscriptions holds pointers only.
pub serve-AllPointers :
    (env : Environment) (rs : List Request) (c : UdrContext)
    → c.influence_data_subscriptions ≡ []
    → AllPointers (serve env rs (init_tables c))
unfolding init_tables lookup
serve-AllPointers env rs c no_entry = serve-AllPointers_from env rs (init_tables c) start
  where
    start : AllPointers (init_tables c)
    start id sub e = ground (arith, no_entry)
