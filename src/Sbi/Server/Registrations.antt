-- ===== src/Sbi/Server/Registrations.antt =====
-- What is registered with the router does what its method and path
-- stand for in Sbi.Expected, and every entry there is registered.
use Prim.Native.String.{String}
use free5gc_udr.Base.{
  ◌≡◌, refl, inl, inr, Bool, true, false, ◌==◌, ◌&&◌, List, [], ◌∷◌, none, some, arith, Bool-cases,
  Option-cases, ==_iff,
}
use free5gc_udr.Context.{udr_dr_res_uri_prefix}
use free5gc_udr.Sbi.{Incoming, Outside, World}
use free5gc_udr.Sbi.Expected.{
  of_valid, expected, Entry, request_at, entries, sdm_entries, data_entries, ee_entries,
  policy_entries, influence_entries,
}
use free5gc_udr.Sbi.Server.Calls.{request_of}
use free5gc_udr.Sbi.Steps.{after, EachOneRequest, emit-IsOneRequest}
use free5gc_udr.Sbi.Routes.{add_service, join_paths, index, to_upper}
use free5gc_udr.Sbi.Routes.ImsSdm.{
  http_get_nf_group_ids, get_group_id_map, get_ims_sdm_routes, first_ims_routes, middle_ims_routes,
  last_ims_routes,
}
use free5gc_udr.Sbi.Server.{
  udr_group_id_res_uri_prefix, hss_ism_sdm_uri_prefix, Oauth, Registered, Call, group, find,
  get_data_repository_routes, new_router, serve_http,
}
use free5gc_udr.Sbi.Routes.Subscriptions.{access_routes, context_routes, subscription_routes}
use free5gc_udr.Sbi.Routes.Policies.{influence_data_routes, policy_data_routes}
use free5gc_udr.Sbi.Routes.Exposures.{ee_routes, exposure_data_routes, application_data_routes}
use free5gc_udr.Sbi.Server.Requests.Subscriptions.{
  access_routes-EachOneRequest, context_routes-EachOneRequest, subscription_routes-EachOneRequest,
}
use free5gc_udr.Sbi.Server.Requests.Policies.{
  influence_data_routes-EachOneRequest, policy_data_routes-EachOneRequest,
}
use free5gc_udr.Sbi.Server.Requests.Exposures.{
  ee_routes-EachOneRequest, exposure_data_routes-EachOneRequest,
  application_data_routes-EachOneRequest,
}
use free5gc_udr.Sbi.Server.Groups.{
  EachRegistered, none_left, ◌registered◌, EachOneRequest-append, EachOneRequest-add_service,
  EachRegistered-group, EachRegistered-append, find-IsExpected, dispatch-IsOneRequest,
}

module _ {Db : Type 0} (o : Outside Db) where
  data_repository-EachOneRequest :
      EachOneRequest o udr_dr_res_uri_prefix (get_data_repository_routes o)
  unfolding get_data_repository_routes
  data_repository-EachOneRequest =
      EachOneRequest-append
        (EachOneRequest-append
          (EachOneRequest-append
            (EachOneRequest-append
              (EachOneRequest-append
                (EachOneRequest-append
                  (EachOneRequest-append (access_routes-EachOneRequest o)
                    (influence_data_routes-EachOneRequest o))
                  (policy_data_routes-EachOneRequest o))
                (context_routes-EachOneRequest o))
              (subscription_routes-EachOneRequest o))
            (ee_routes-EachOneRequest o))
          (exposure_data_routes-EachOneRequest o))
        (application_data_routes-EachOneRequest o)

-- Every entry is found in the router.
all_found : {Db : Type 0} → List (Registered Db) → List Entry → Bool
all_found rs [] = true
all_found rs (e ∷ es) = elim (find e.method e.path rs) [ none ↦ false | some r ↦ all_found rs es ]

request_at-none :
    {Db : Type 0} (method path : String) (rs : List (Registered Db)) (es : List Entry)
    (req : Incoming)
    → all_found rs es ≡ true
    → find method path rs ≡ none
    → request_at method path es req ≡ none
unfolding all_found request_at
request_at-none method path rs [] req all missing = refl
request_at-none method path rs (e ∷ es) req all missing =
    elim (Option-cases (find e.method e.path rs)) [
      | inl lost ↦ absurd (ground (arith, lost, all))
      | inr (r, found) ↦ elim (Bool-cases (e.method == method && e.path == path)) [
        | inl hit ↦
            let same_method : e.method ≡ method = ground (arith, hit, ==_iff e.method method) in
            let same_path : e.path ≡ path = ground (arith, hit, ==_iff e.path path) in
            absurd (ground (arith, missing, found, same_method, same_path))
        | inr miss ↦
            let more : all_found rs es ≡ true = ground (arith, found, all) in
            rw miss (request_at-none method path rs es req more missing)
      ]
    ]

module _ {Db : Type 0} (o : Outside Db) (oauth : Oauth) where
  group_id_map-EachRegistered :
      EachRegistered o oauth
        (group oauth.nudr_group_id_map udr_group_id_res_uri_prefix (add_service get_group_id_map))
  unfolding group add_service get_group_id_map http_get_nf_group_ids index expected to_upper
      join_paths
  group_id_map-EachRegistered =
      record { service = inr (λ req. refl); handler = λ req. emit-IsOneRequest _ }
      registered record { service = inr (λ req. refl); handler = λ req. emit-IsOneRequest _ }
      registered none_left

  ims_sdm-EachRegistered :
      EachRegistered o oauth
        (group oauth.nhss_ims_sdm hss_ism_sdm_uri_prefix (add_service get_ims_sdm_routes))
  unfolding index add_service get_ims_sdm_routes first_ims_routes middle_ims_routes last_ims_routes
      group expected join_paths
  ims_sdm-EachRegistered =
      record { service = inr (λ req. refl); handler = λ req. emit-IsOneRequest _ }
      registered none_left

  new_router-EachRegistered : EachRegistered o oauth (new_router o oauth)
  unfolding new_router
  new_router-EachRegistered =
      EachRegistered-append
        (EachRegistered-append
          (EachRegistered-group oauth
            (EachOneRequest-add_service (data_repository-EachOneRequest o)))
          group_id_map-EachRegistered)
        ims_sdm-EachRegistered

  -- Every call that requests something is registered.
  expected-none :
      (method path : String) (req : Incoming)
      → find method path (new_router o oauth) ≡ none
      → expected o method path req ≡ none
  unfolding expected all_found find new_router group join_paths add_service to_upper
      get_data_repository_routes access_routes influence_data_routes policy_data_routes
      context_routes subscription_routes ee_routes exposure_data_routes application_data_routes
      entries sdm_entries data_entries ee_entries policy_entries influence_entries
  expected-none method path req missing =
      request_at-none method path (new_router o oauth) (entries o) req refl missing

  -- A call does to the context what is requested of it.
  pub serve_http-request_of :
      (call : Call) (w : World Db)
      → (serve_http o oauth call w).state.context
        ≡ after o.env (request_of o oauth w.context call) w.context
  unfolding serve_http request_of of_valid
  serve_http-request_of call w =
      elim (Option-cases (find call.method call.path (new_router o oauth))) [
        | inl missing ↦
            let nothing = expected-none call.method call.path call.incoming missing in
            ground (arith, missing, nothing)
        | inr (r, found) ↦
            let (h, same_method, same_path) =
              find-IsExpected call.method call.path (new_router o oauth) r new_router-EachRegistered
                found in
            let ran = dispatch-IsOneRequest o oauth r call.incoming w h in rw (found, serve_http) cc
      ]
