-- ===== src/Sbi/Server/Groups.antt =====
-- What is registered with the router, against the table of Sbi.Expected.
use Prim.Native.String.{String}
use free5gc_udr.Base.{
  ◌≡◌, refl, inl, inr, Bool, true, false, subst, ◌==◌, ◌&&◌, if◌then◌else◌, List, [], ◌∷◌, ◌++◌,
  Option, none, some, arith, Bool-cases, Option-cases, ◌⊎◌, ==_iff,
}
use free5gc_udr.Context.{authorization_check}
use free5gc_udr.Gin.{M}
use free5gc_udr.System.{Request}
use free5gc_udr.Sbi.{Incoming, Outside, World}
use free5gc_udr.Sbi.Expected.{of_valid, expected}
use free5gc_udr.Sbi.Server.Calls.{let_through}
use free5gc_udr.Sbi.Steps.{after, IsOneRequest, EachOneRequest, finished, ◌also◌}
use free5gc_udr.Sbi.Routes.{Route, add_service, join_paths}
use free5gc_udr.Sbi.Server.{Oauth, Registered, check, group, find, dispatch}

-- The handler of a registered route does what its method and path request, and where that is something
-- the check names the service nudr-dr.
pub record IsExpected {Db : Type 0} (o : Outside Db) (oauth : Oauth) (r : Registered Db)
    : Type 0 where
  pub service :
      (r.service_name ≡ oauth.nudr_dr)
      ⊎ ((req : Incoming)
          → expected o r.route.method (join_paths r.prefix r.route.pattern) req ≡ none)
  pub handler :
      (req : Incoming)
      → IsOneRequest o.env
          (r.route.handler_func req)
          (expected o r.route.method (join_paths r.prefix r.route.pattern) req)

infixr 5 ◌registered◌
pub data EachRegistered {Db : Type 0} (o : Outside Db) (oauth : Oauth)
    : List (Registered Db) → Type 0 where
  none_left : EachRegistered o oauth []
  ◌registered◌ :
      {r : Registered Db} {rs : List (Registered Db)}
      → IsExpected o oauth r
      → EachRegistered o oauth rs
      → EachRegistered o oauth (r ∷ rs)

module _ {Db : Type 0} {o : Outside Db} {prefix : String} where
  pub EachOneRequest-append :
      {rs ss : List (Route Db)}
      → EachOneRequest o prefix rs
      → EachOneRequest o prefix ss
      → EachOneRequest o prefix (rs ++ ss)
  EachOneRequest-append finished hs = hs
  EachOneRequest-append (h also hr) hs = h also EachOneRequest-append hr hs

  EachOneRequest-if :
      (b : Bool) {rs ss : List (Route Db)}
      → EachOneRequest o prefix rs
      → EachOneRequest o prefix ss
      → EachOneRequest o prefix (if b then rs else ss)
  EachOneRequest-if true hr hs = hr
  EachOneRequest-if false hr hs = hs

  pub EachOneRequest-add_service :
      {rs : List (Route Db)} → EachOneRequest o prefix rs → EachOneRequest o prefix (add_service rs)
  unfolding add_service
  EachOneRequest-add_service finished = finished
  EachOneRequest-add_service (h also hs) =
      EachOneRequest-if _ (h also EachOneRequest-add_service hs) (EachOneRequest-add_service hs)

  -- The routes of the group of nudr-dr.
  pub EachRegistered-group :
      (oauth : Oauth) {rs : List (Route Db)}
      → EachOneRequest o prefix rs
      → EachRegistered o oauth (group oauth.nudr_dr prefix rs)
  unfolding group
  EachRegistered-group oauth finished = none_left
  EachRegistered-group oauth (h also hs) =
      record { service = inl refl; handler = h } registered EachRegistered-group oauth hs

module _ {Db : Type 0} {o : Outside Db} {oauth : Oauth} where
  pub EachRegistered-append :
      {rs ss : List (Registered Db)}
      → EachRegistered o oauth rs
      → EachRegistered o oauth ss
      → EachRegistered o oauth (rs ++ ss)
  EachRegistered-append none_left hs = hs
  EachRegistered-append (h registered hr) hs = h registered EachRegistered-append hr hs

  -- What is found is registered, and has the method and the path.
  pub find-IsExpected :
      (method path : String) (rs : List (Registered Db)) (r : Registered Db)
      → EachRegistered o oauth rs
      → find method path rs ≡ some r
      → IsExpected o oauth r
        × (r.route.method ≡ method)
        × (join_paths r.prefix r.route.pattern ≡ path)
  unfolding find
  find-IsExpected method path [] r none_left e = absurd (ground (arith, e))
  find-IsExpected method path (s ∷ rs) r (h registered hs) e =
      elim (Bool-cases (s.route.method == method && join_paths s.prefix s.route.pattern == path)) [
        | inl hit ↦
            let same : s ≡ r = ground (arith, e, hit) in
            subst
              (λ (t : Registered Db).
                IsExpected o oauth t
                × (t.route.method ≡ method)
                × (join_paths t.prefix t.route.pattern ≡ path))
              same
              (
                h,
                ground (arith, hit, ==_iff s.route.method method),
                ground (arith, hit, ==_iff (join_paths s.prefix s.route.pattern) path),
              )
        | inr miss ↦ find-IsExpected method path rs r hs (ground (arith, e, miss))
      ]

module _ {Db : Type 0} (o : Outside Db) (oauth : Oauth) where
  -- A request that is not let through reaches no handler.
  check-IsOneRequest :
      (service_name : String) (req : Incoming) (w : World Db) (f : M (World Db) (Unit {0}))
      (r : Option Request)
      → (service_name ≡ oauth.nudr_dr) ⊎ (r ≡ none)
      → IsOneRequest o.env f r
      → (check oauth service_name req f w).state.context
        ≡ after o.env (of_valid (let_through oauth w.context req.authorization) r) w.context
  unfolding check authorization_check of_valid let_through
  check-IsOneRequest service_name req w f r (inl named) h =
      elim (Bool-cases w.context.oauth2_required) [
        | inl required ↦
            elim (Option-cases
              (oauth.verify_oauth req.authorization oauth.nudr_dr w.context.nrf_cert_pem)) [
                | inl fine ↦ ground (arith, named, required, fine, h.step w)
                | inr (e, refused) ↦ ground (arith, named, required, refused)
              ]
        | inr free ↦ ground (arith, free, h.step w)
      ]
  check-IsOneRequest service_name req w f r (inr nothing) h =
      elim (Bool-cases w.context.oauth2_required) [
        | inl required ↦
            elim (Option-cases
              (oauth.verify_oauth req.authorization service_name w.context.nrf_cert_pem)) [
                | inl fine ↦
                    let kept : (f w).state.context ≡ w.context =
                      ground (arith, nothing, h.step w) in
                    ground (arith, nothing, required, fine, kept)
                | inr (e, refused) ↦ ground (arith, nothing, required, refused)
              ]
        | inr free ↦ ground (arith, free, h.step w)
      ]

  pub dispatch-IsOneRequest :
      (r : Registered Db) (req : Incoming) (w : World Db)
      → IsExpected o oauth r
      → (dispatch o oauth r req w).state.context
        ≡ after o.env
            (of_valid
              (let_through oauth w.context req.authorization)
              (expected o r.route.method (join_paths r.prefix r.route.pattern) req))
            w.context
  unfolding dispatch
  dispatch-IsOneRequest r req w h =
      check-IsOneRequest r.service_name req w _ _ (service_of h.service) (h.handler req)
    where
      service_of :
          (r.service_name ≡ oauth.nudr_dr)
            ⊎ ((req : Incoming)
                → expected o r.route.method (join_paths r.prefix r.route.pattern) req ≡ none)
          → (r.service_name ≡ oauth.nudr_dr)
            ⊎ (expected o r.route.method (join_paths r.prefix r.route.pattern) req ≡ none)
      service_of (inl named) = inl named
      service_of (inr nothing) = inr (nothing req)
