-- ===== src/Sbi/Server.antt =====
-- internal/sbi/server.go: the groups of routes, and the check of the authorization before a handler
-- (internal/util/router_auth_check.go).
pub mod Calls
pub mod Groups
pub mod Registrations
pub mod Requests
pub mod Laws
use Prim.Native.String.{String}
use free5gc_udr.Base.{◌==◌, ◌&&◌, if◌then◌else◌, List, [], ◌∷◌, ◌++◌, Option, none, some}
use free5gc_udr.Context.{udr_dr_res_uri_prefix, authorization_check}
use free5gc_udr.Database.{by}
use free5gc_udr.Gin.{M, ◌>>=◌, ◌>>◌, emit, get_state, json, document}
use free5gc_udr.Sbi.{Incoming, Outside, World}
use free5gc_udr.Sbi.Routes.{Route, add_service, join_paths}
use free5gc_udr.Sbi.Routes.Subscriptions.{access_routes, context_routes, subscription_routes}
use free5gc_udr.Sbi.Routes.Policies.{influence_data_routes, policy_data_routes}
use free5gc_udr.Sbi.Routes.Exposures.{ee_routes, exposure_data_routes, application_data_routes}
use free5gc_udr.Sbi.Routes.ImsSdm.{get_ims_sdm_routes, get_group_id_map}

-- factory.UdrGroupIdResUriPrefix
abbrev pub udr_group_id_res_uri_prefix : String
udr_group_id_res_uri_prefix = "/nudr-group-id-map/v1"

-- factory.HSSIsmSDMUriPrefix
abbrev pub hss_ism_sdm_uri_prefix : String
hss_ism_sdm_uri_prefix = "/nhss-ims-sdm/v1"

-- What the package oauth answers to a token, a service and a certificate, and the names of the
-- services in the package models.
pub record Oauth : Type 0 where
  pub verify_oauth : String → String → String → Option String
  pub nudr_dr : String
  pub nudr_group_id_map : String
  pub nhss_ims_sdm : String

-- A route of a group: with the prefix of the group and the service that its check names.
pub record Registered (Db : Type 0) : Type 0 where
  pub service_name : String
  pub prefix : String
  pub route : Route Db

-- A request that gin has resolved to a method and a pattern.
pub record Call : Type 0 where
  pub method : String
  pub path : String
  pub incoming : Incoming

module _ {Db : Type 0} where
  -- The check of a request: whether it is authorized.
  unfoldable pub check :
      Oauth → String → Incoming → M (World Db) (Unit {0}) → M (World Db) (Unit {0})
  check oauth service_name req handler = do
    w ← get_state
    elim (authorization_check w.context oauth.verify_oauth req.authorization service_name) [
      | some e ↦ emit (json 401 (document (by "error" e)))
      | none ↦ handler
    ]

  unfoldable pub group : String → String → List (Route Db) → List (Registered Db)
  group service_name prefix [] = []
  group service_name prefix (r ∷ rs) =
      record { service_name = service_name; prefix = prefix; route = r }
      ∷ group service_name prefix rs

  -- The first registered route of the method and the path.
  unfoldable pub find : String → String → List (Registered Db) → Option (Registered Db)
  find method path [] = none
  find method path (r ∷ rs) =
      let rest = find method path rs in
      if r.route.method == method && join_paths r.prefix r.route.pattern == path
      then some r
      else rest

module _ {Db : Type 0} (o : Outside Db) where
  unfoldable pub get_data_repository_routes : List (Route Db)
  get_data_repository_routes =
      access_routes o
      ++ influence_data_routes o
      ++ policy_data_routes o
      ++ context_routes o
      ++ subscription_routes o
      ++ ee_routes o
      ++ exposure_data_routes o
      ++ application_data_routes o

module _ {Db : Type 0} (o : Outside Db) (oauth : Oauth) where
  unfoldable pub new_router : List (Registered Db)
  new_router =
      group oauth.nudr_dr udr_dr_res_uri_prefix (add_service (get_data_repository_routes o))
      ++ group oauth.nudr_group_id_map udr_group_id_res_uri_prefix (add_service get_group_id_map)
      ++ group oauth.nhss_ims_sdm hss_ism_sdm_uri_prefix (add_service get_ims_sdm_routes)

  -- The middleware of the group, and the handler if the middleware does not abort.
  unfoldable pub dispatch : Registered Db → Incoming → M (World Db) (Unit {0})
  dispatch r req = check oauth r.service_name req (r.route.handler_func req)

  -- A request to the router. What gin answers where nothing is registered is its own.
  unfoldable pub serve_http : Call → M (World Db) (Unit {0})
  serve_http call w = elim (find call.method call.path new_router) [
    | none ↦ record { result = some tt; state = w; actions = [] }
    | some r ↦ dispatch r call.incoming w
  ]

  -- The state after the requests of a list, one after another.
  unfoldable pub serve_all : List Call → World Db → World Db
  serve_all [] w = w
  serve_all (call ∷ calls) w = serve_all calls (serve_http call w).state
