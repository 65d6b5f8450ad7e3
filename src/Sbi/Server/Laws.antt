-- ===== src/Sbi/Server/Laws.antt =====
-- What the router lets through.
use Prim.Native.String.{String}
use free5gc_udr.Base.{◌≡◌, ◌≢◌, ◌⊎◌, inl, inr, refl, true, List, [], ◌∷◌, arith, none, Option-cases}
use free5gc_udr.Context.{UdrContext, authorization_check}
use free5gc_udr.Database.{by}
use free5gc_udr.Gin.{Action, json, document}
use free5gc_udr.Sbi.{Incoming, Outside, World}
use free5gc_udr.Sbi.Server.{Oauth, Call, find, new_router, check, dispatch, serve_http, serve_all}

-- No service of the context accepts the token of the request.
abbrev pub Refused : Oauth → UdrContext → Incoming → Type 0
Refused oauth c req =
    (service : String) → oauth.verify_oauth req.authorization service c.nrf_cert_pem ≢ none

abbrev pub AllRefused : Oauth → UdrContext → List Call → Type 0
AllRefused oauth c [] = Unit
AllRefused oauth c (call ∷ calls) = Refused oauth c call.incoming × AllRefused oauth c calls

-- Nothing is answered, or one answer 401.
abbrev pub IsUnauthorized : List Action → Type 0
IsUnauthorized actions =
    (actions ≡ []) ⊎ ((e : String) × (actions ≡ json 401 (document (by "error" e)) ∷ []))

module _ {Db : Type 0} (o : Outside Db) (oauth : Oauth) where
  -- A call with a token that is refused, to a context that requires OAuth2, changes neither the
  -- context nor the database, and the router answers 401 once, or nothing where no route is registered.
  pub serve_http-IsUnauthorized :
      (call : Call) (w : World Db)
      → w.context.oauth2_required ≡ true
      → Refused oauth w.context call.incoming
      → ((serve_http o oauth call w).state ≡ w) × IsUnauthorized (serve_http o oauth call w).actions
  unfolding serve_http dispatch check authorization_check
  serve_http-IsUnauthorized call w required refused =
      elim (Option-cases (find call.method call.path (new_router o oauth))) [
        | inl missing ↦ (ground (arith, missing), inl (ground (arith, missing)))
        | inr (r, found) ↦
            elim (Option-cases (
              oauth.verify_oauth call.incoming.authorization r.service_name
                w.context.nrf_cert_pem)) [
                  | inl accepted ↦ absurd (refused r.service_name accepted)
                  | inr (e, failed) ↦ (
                    ground (arith, found, required, failed),
                    inr (e, ground (arith, found, required, failed)),
                  )
                ]
      ]

  -- Calls with tokens that are refused leave a context that requires OAuth2, and the database, as they
  -- are.
  pub serve_all-refused :
      (calls : List Call) (w : World Db)
      → w.context.oauth2_required ≡ true
      → AllRefused oauth w.context calls
      → serve_all o oauth calls w ≡ w
  unfolding serve_all
  serve_all-refused [] w required refused = refl
  serve_all-refused (call ∷ calls) w required (refused, more) =
      rw ((serve_http-IsUnauthorized call w required refused).0)
        (serve_all-refused calls w required more)
