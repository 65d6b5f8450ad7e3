-- ===== src/Sbi/Server/Calls.antt =====
-- What a list of calls to the router requests of the context, by the table of Sbi.Expected.
use Prim.Native.String.{String}
use free5gc_udr.Base.{Bool, true, false, not, ◌||◌, List, [], ◌∷◌, Option, none, some}
use free5gc_udr.Context.{UdrContext}
use free5gc_udr.System.{Request}
use free5gc_udr.Sbi.{Outside}
use free5gc_udr.Sbi.Expected.{of_valid, expected}
use free5gc_udr.Sbi.Steps.{after}
use free5gc_udr.Sbi.Server.{Oauth, Call}

abbrev accepted : Option String → Bool
accepted none = true
accepted (some e) = false

-- A token passes if none is required, or if the service nudr-dr accepts it.
unfoldable pub let_through : Oauth → UdrContext → String → Bool
let_through oauth c token =
    not c.oauth2_required || accepted (oauth.verify_oauth token oauth.nudr_dr c.nrf_cert_pem)

unfoldable pub put_first : Option Request → List Request → List Request
put_first none rs = rs
put_first (some r) rs = r ∷ rs

module _ {Db : Type 0} (o : Outside Db) (oauth : Oauth) where
  -- The request of one call: what its method and path stand for, if its token passes.
  unfoldable pub request_of : UdrContext → Call → Option Request
  unfolding let_through
  request_of c call =
      of_valid (let_through oauth c call.incoming.authorization)
        (expected o call.method call.path call.incoming)

  -- The requests of calls one after another, each in the context that those before it left.
  unfoldable pub requests : List Call → UdrContext → List Request
  unfolding request_of put_first
  requests [] c = []
  requests (call ∷ calls) c =
      put_first (request_of c call) (requests calls (after o.env (request_of c call) c))
