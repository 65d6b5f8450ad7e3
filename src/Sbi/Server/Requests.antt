-- ===== src/Sbi/Server/Requests.antt =====
-- The router as a client of the processor: the requests that the calls of the router amount to.
pub mod Subscriptions
pub mod Policies
pub mod Exposures
use Prim.Native.String.{String}
use free5gc_udr.Base.{
  ℕ, suc, ◌≤◌, ◌<◌, ◌^◌, ◌≡◌, refl, inl, inr, Bool, true, false, subst, ◌==◌, ◌&&◌, ◌||◌,
  if◌then◌else◌, List, [], ◌∷◌, ◌++◌, length, Option, none, some, arith, Bool-cases, Option-cases,
  ap, sym, ◌∙◌,
}
use free5gc_udr.Base.Int.{itoa}
use free5gc_udr.Context.{UdrContext, init_tables, udr_dr_res_uri_prefix, authorization_check}
use free5gc_udr.Gin.{M}
use free5gc_udr.Sdm.Spec.{sdm_at}
use free5gc_udr.Ee.Laws.{collection_at}
use free5gc_udr.EeGroup.Laws.{group_at}
use free5gc_udr.System.Soundness.{data_at}
use free5gc_udr.System.Invariant.{serve-IsSound}
use free5gc_udr.System.{Environment, Request, handle, serve}
use free5gc_udr.Sbi.{Incoming, Outside, World}
use free5gc_udr.Sbi.Server.Calls.{put_first, request_of, requests}
use free5gc_udr.Sbi.Server.Registrations.{serve_http-request_of}
use free5gc_udr.Sbi.Steps.{after, IsOneRequest, EachOneRequest, finished, ◌also◌, emit-IsOneRequest}
use free5gc_udr.Sbi.Routes.{Route, add_service, join_paths, index}
use free5gc_udr.Sbi.Routes.ImsSdm.{
  http_ims_sdm, http_get_nf_group_ids, get_group_id_map, get_ims_sdm_routes, first_ims_routes,
  middle_ims_routes, last_ims_routes,
}
use free5gc_udr.Sbi.Server.{
  udr_group_id_res_uri_prefix, hss_ism_sdm_uri_prefix, Oauth, Registered, Call, check, group, find,
  get_data_repository_routes, new_router, dispatch, serve_http, serve_all,
}
use free5gc_udr.Sbi.Server.Requests.Subscriptions.{
  access_routes-EachOneRequest, context_routes-EachOneRequest, subscription_routes-EachOneRequest,
}
use free5gc_udr.Sbi.Server.Requests.Policies.{
  influence_data_routes-EachOneRequest, policy_data_routes-EachOneRequest,
}
use free5gc_udr.Sbi.Server.Requests.Exposures.{
  ee_routes-EachOneRequest, exposure_data_routes-EachOneRequest,
  application_data_routes-EachOneRequest,
}

length-put_first :
    (r : Option Request) (rs : List Request) → length (put_first r rs) ≤ suc (length rs)
unfolding put_first
length-put_first none rs = omega arith
length-put_first (some r) rs = omega arith

serve-put_first :
    (env : Environment) (r : Option Request) (rs : List Request) (c : UdrContext)
    → serve env (put_first r rs) c ≡ serve env rs (after env r c)
unfolding put_first serve
serve-put_first env none rs c = refl
serve-put_first env (some r) rs c = refl

module _ {Db : Type 0} (o : Outside Db) (oauth : Oauth) where
  -- A call requests at most one thing.
  length-requests :
      (calls : List Call) (c : UdrContext) → length (requests o oauth calls c) ≤ length calls
  unfolding requests
  length-requests [] c = omega arith
  length-requests (call ∷ calls) c =
      let r = request_of o oauth c call in
      let ih = length-requests calls (after o.env r c) in
      omega (arith, length-put_first r (requests o oauth calls (after o.env r c)), ih)

  -- Whatever calls come to the router: what they leave of the context is what the requests that the
  -- table of Sbi.Expected gives for them leave of it, one after another. A call requests something if
  -- its token passes where one is required, its method and path are in the table, and the entry there
  -- gives a request for its parameters and its body.
  pub serve_all-serve :
      (calls : List Call) (w : World Db)
      → (serve_all o oauth calls w).context
        ≡ serve o.env (requests o oauth calls w.context) w.context
  unfolding serve_all requests serve
  serve_all-serve [] w = refl
  serve_all-serve (call ∷ calls) w =
      serve_all-serve calls (serve_http o oauth call w).state
      ∙ ap (λ c. serve o.env (requests o oauth calls c) c) (serve_http-request_of o oauth call w)
      ∙ sym (serve-put_first o.env (request_of o oauth w.context call) _ w.context)

  -- After any fewer than 2^63 - 1 calls to the router, from a context that is freshly initialised with
  -- no UE and no group: the next identifier of the SDM counter is in use for no SDM subscription of any
  -- UE, that of the event exposure counter for no event exposure subscription of any UE or group, and
  -- that of the counter of subscriptions to changes of subscription data for none of these. Nothing is
  -- said of subscriptions to changes of policy data or to influence data.
  pub serve_all-next_is_unused :
      (calls : List Call) (c : UdrContext) (db : Db)
      → c.ue_subs_collection ≡ []
      → c.ue_group_collection ≡ []
      → suc (length calls) < 2 ^ 63
      → (let d : UdrContext =
            (serve_all o oauth calls (record { context = init_tables c; db = db })).context in
          ((ue : String) → sdm_at d ue (itoa d.sdm_subscription_id_generator) ≡ none)
          × ((ue : String) → collection_at d ue (itoa d.ee_subscription_id_generator) ≡ none)
          × ((group : String) → group_at d group (itoa d.ee_subscription_id_generator) ≡ none)
          × ((a : String)
              → data_at d a (itoa d.subscription_data_subscription_id_generator) ≡ none))
  serve_all-next_is_unused calls c db no_ue no_group room =
      let w : World Db = record { context = init_tables c; db = db } in
      let few = length-requests calls w.context in
      let i =
        serve-IsSound o.env (requests o oauth calls w.context) c no_ue no_group
          (omega (arith, few, room)) in
      subst
        (λ (d : UdrContext).
          ((ue : String) → sdm_at d ue (itoa d.sdm_subscription_id_generator) ≡ none)
          × ((ue : String) → collection_at d ue (itoa d.ee_subscription_id_generator) ≡ none)
          × ((group : String) → group_at d group (itoa d.ee_subscription_id_generator) ≡ none)
          × ((a : String)
              → data_at d a (itoa d.subscription_data_subscription_id_generator) ≡ none))
        (sym (serve_all-serve calls w)) (i.1, i.2, i.3, i.4)
