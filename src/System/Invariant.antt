-- ===== src/System/Invariant.antt =====
-- The invariant of the context over requests, each of them and any number of them.
use Prim.Native.String.{String}
use free5gc_udr.Base.{
  ℕ, suc, ◌+◌, ◌^◌, ◌<◌, ◌≡◌, refl, List, [], ◌∷◌, length, Option, none, some, arith, lookup, subst,
}
use free5gc_udr.Base.Int.{pos, itoa}
use free5gc_udr.Context.{UdrContext, init_tables}
use free5gc_udr.Sdm.Spec.{sdm_at}
use free5gc_udr.Ee.Laws.{collection_at}
use free5gc_udr.EeGroup.Laws.{group_at}
use free5gc_udr.Counters.{Counted, next_is_fresh}
use free5gc_udr.System.{
  Environment, Request, create_sdm, query_sdm, remove_sdm, update_sdm, create_ee, query_ee,
  remove_ee, update_ee, create_infos, remove_infos, get_infos, modify_infos, create_group,
  query_group, remove_group, update_group, post_data, remove_data, post_policy, delete_policy,
  put_policy, list_influence, post_influence, put_influence, get_influence, delete_influence,
  handle, serve,
}
use free5gc_udr.System.Soundness.{IsSound, data_at}
use free5gc_udr.System.Changes.{Change-IsSound}
use free5gc_udr.System.Handlers
use free5gc_udr.System.Tables
use free5gc_udr.System.Creations

-- One request keeps the context sound, whatever the request is and however it ends, if each
-- counter issued fewer than 2^63 - 2 identifiers before.
pub handle-IsSound :
    (env : Environment) (r : Request) (k : ℕ) (c : UdrContext)
    → suc (suc k) < 2 ^ 63
    → IsSound k c
    → IsSound (suc k) (handle env r c).state
unfolding handle
handle-IsSound env (create_sdm sub coll ue) k c room s =
    Creations.create_sdm-IsSound s room sub coll ue
handle-IsSound env (query_sdm ue) k c room s =
    Change-IsSound (Handlers.query_sdm-Change c ue "" env.visit_sdm) s
handle-IsSound env (remove_sdm ue id) k c room s =
    Change-IsSound (Handlers.remove_sdm-Change c ue id) s
handle-IsSound env (update_sdm ue id sub) k c room s =
    Change-IsSound (Handlers.update_sdm-Change c ue id sub) s
handle-IsSound env (create_ee ue ee) k c room s = Creations.create_ee-IsSound s room ue ee
handle-IsSound env (query_ee ue) k c room s =
    Change-IsSound (Tables.query_ee-Change c env.visit_ee ue) s
handle-IsSound env (remove_ee ue id) k c room s =
    Change-IsSound (Handlers.remove_ee-Change c ue id) s
handle-IsSound env (update_ee ue id ee) k c room s =
    Change-IsSound (Handlers.update_ee-Change c ue id ee) s
handle-IsSound env (create_infos id ue infos) k c room s =
    Change-IsSound (Handlers.create_infos-Change c ue id infos) s
handle-IsSound env (remove_infos id ue) k c room s =
    Change-IsSound (Handlers.remove_infos-Change c ue id) s
handle-IsSound env (get_infos id ue) k c room s =
    Change-IsSound (Handlers.get_infos-Change c ue id) s
handle-IsSound env (modify_infos ue id items) k c room s =
    Change-IsSound (Handlers.modify_infos-Change c ue id env.patch items) s
handle-IsSound env (create_group group ee) k c room s =
    Creations.create_group-IsSound s room group ee
handle-IsSound env (query_group group) k c room s =
    Change-IsSound (Tables.query_group-Change c env.visit_group group) s
handle-IsSound env (remove_group group id) k c room s =
    Change-IsSound (Tables.remove_group-Change c group id) s
handle-IsSound env (update_group group id ee) k c room s =
    Change-IsSound (Tables.update_group-Change c group id ee) s
handle-IsSound env (post_data sub) k c room s = Creations.post_data-IsSound s room sub
handle-IsSound env (remove_data id) k c room s = Change-IsSound (Tables.remove_data-Change c id) s
handle-IsSound env (post_policy sub) k c room s = Creations.post_policy-IsSound s room sub
handle-IsSound env (delete_policy id) k c room s =
    Change-IsSound (Tables.delete_policy-Change c id) s
handle-IsSound env (put_policy id sub) k c room s =
    Change-IsSound (Tables.put_policy-Change c id sub) s
handle-IsSound env (list_influence dnn snssai group supi) k c room s =
    Change-IsSound (Tables.list_influence-Change c env.visit_influence dnn snssai group supi) s
handle-IsSound env (post_influence id sub) k c room s =
    Change-IsSound (Tables.post_influence-Change c env.same id sub) s
handle-IsSound env (put_influence id sub) k c room s =
    Change-IsSound (Tables.put_influence-Change c env.same id sub) s
handle-IsSound env (get_influence id) k c room s =
    Change-IsSound (Tables.get_influence-Change c id) s
handle-IsSound env (delete_influence id) k c room s =
    Change-IsSound (Tables.delete_influence-Change c id) s

serve-IsSound_from :
    (env : Environment) (rs : List Request) (k : ℕ) (c : UdrContext)
    → suc (k + length rs) < 2 ^ 63
    → IsSound k c
    → IsSound (k + length rs) (serve env rs c)
unfolding serve
serve-IsSound_from env [] k c room s = subst (λ n. IsSound n c) (omega arith) s
serve-IsSound_from env (r ∷ rs) k c room s =
    subst (λ n. IsSound n (serve env (r ∷ rs) c)) (omega arith)
      (serve-IsSound_from env rs (suc k) (handle env r c).state (omega arith)
        (handle-IsSound env r k c (omega arith) s))

-- The context as `Init` leaves it holds no entry for a UE or a group.
pub init-IsSound :
    (c : UdrContext)
    → c.ue_subs_collection ≡ []
    → c.ue_group_collection ≡ []
    → IsSound 0 (init_tables c)
unfolding init_tables lookup
init-IsSound c no_ue no_group = record {
  sdm = start (λ a id v e. ground arith);
  ee = start (λ a id v e. ground arith);
  group = start (λ a id v e. ground arith);
  subscription_data = start (λ a id v e. ground arith);
  data_made = λ e. cc;
  policy_made = λ e. cc;
  subscribed = λ ue subs e. ground arith;
}
  where
    start :
        {V : Type 0} {at : String → String → Option V}
        → ((a id : String) (v : V) → at a id ≡ some v → ⊥)
        → Counted 0 (pos 1) at
    start h = record {
      number = 1;
      is_pos = refl;
      positive = omega arith;
      bounded = omega arith;
      issued = λ a id v e. absurd (h a id v e);
    }

-- After any fewer than 2^63 - 1 requests to a context that is freshly initialised, with no UE
-- and no group, in any order and with whatever arguments, the context is sound: every SDM, event
-- exposure, group and subscription data subscription stands under an identifier that its counter
-- issued. So the next identifier of the SDM counter is in use for no SDM subscription of any UE, that
-- of the event exposure counter for no event exposure subscription of any UE or group, and that of the
-- counter of subscriptions to changes of subscription data for none of these. Nothing is said of
-- subscriptions to changes of policy data, which a request can put under any identifier, or to
-- influence data, whose identifiers are random.
pub serve-IsSound :
    (env : Environment) (rs : List Request) (c : UdrContext)
    → c.ue_subs_collection ≡ []
    → c.ue_group_collection ≡ []
    → suc (length rs) < 2 ^ 63
    → (let d : UdrContext = serve env rs (init_tables c) in
        IsSound (length rs) d
        × ((ue : String) → sdm_at d ue (itoa d.sdm_subscription_id_generator) ≡ none)
        × ((ue : String) → collection_at d ue (itoa d.ee_subscription_id_generator) ≡ none)
        × ((group : String) → group_at d group (itoa d.ee_subscription_id_generator) ≡ none)
        × ((a : String) → data_at d a (itoa d.subscription_data_subscription_id_generator) ≡ none))
serve-IsSound env rs c no_ue no_group room =
    let s : IsSound (length rs) (serve env rs (init_tables c)) =
      subst (λ n. IsSound n (serve env rs (init_tables c))) (omega arith)
        (serve-IsSound_from env rs 0 (init_tables c) (omega arith)
          (init-IsSound c no_ue no_group)) in
    (
      s,
      next_is_fresh s.sdm,
      next_is_fresh s.ee,
      next_is_fresh s.group,
      next_is_fresh s.subscription_data,
    )
