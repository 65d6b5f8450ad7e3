-- ===== src/Nrf.antt =====
-- internal/sbi/consumer/nrf_service.go and pkg/service/init.go: the registration of the service at the
-- NRF. The API of the NRF and the clock are outside the repository: what one round of the loop meets is
-- a value. The client of the registration is not nil: it is nil only for an empty URI, which the
-- configuration replaces by its default.
pub mod Laws
use Prim.Native.Char.{Char, code}
use Prim.Native.String.{String, [], ◌∷◌, ◌++◌}
use free5gc_udr.Base.{ℕ, Bool, true, false, ◌=ℕ=◌, if◌then◌else◌, List, [], ◌∷◌, Option, none, some}
use free5gc_udr.Models.{Document, get, bool}
use free5gc_udr.Context.{UdrContext}
use free5gc_udr.Sbi.Patterns.{strip}

-- The answer of the NRF: its location, and the custom information of its profile, which may be nil.
pub record Registered : Type 0 where
  pub location : String
  pub custom_info : Option Document

-- What a round of the loop meets: the context is done, the request fails and the loop sleeps, there is
-- neither an answer nor an error, or there is an answer.
pub data Round : Type 0 where
  context_done : Round
  failed : Round
  nothing : Round
  answered : Registered → Round

-- What the loop has come to after some rounds. The error text of nothing is asked for: a panic.
pub data Registration : Type 0 where
  waiting : Registration
  ended : Registration
  panicked : Registration
  returned : String → String → Registration

-- strings.Cut(s, sep): the text before the separator, or all of it.
unfoldable pub cut : String → String → String
unfolding strip
cut sep [] = []
cut sep (c ∷ s) = let rest = cut sep s in elim (strip sep (c ∷ s)) [ some _ ↦ [] | none ↦ c ∷ rest ]

last_part : String → String → String
last_part best [] = best
last_part best (c ∷ s) = if code c =ℕ= b'/' then last_part s s else last_part best s

-- `s[strings.LastIndex(s, "/")+1:]`
unfoldable pub after_last_slash : String → String
unfolding last_part
after_last_slash s = last_part s s

-- The setting of OAuth2 in the custom information.
unfoldable pub oauth2_of : Option Document → Bool
oauth2_of none = false
oauth2_of (some d) = elim (get "oauth2" d) [ some (bool b) ↦ b | _ ↦ false ]

-- SendRegisterNFInstance
unfoldable pub send_register_nf_instance : List Round → UdrContext → Registration × UdrContext
unfolding cut after_last_slash oauth2_of
send_register_nf_instance [] c = (waiting, c)
send_register_nf_instance (context_done ∷ rounds) c = (ended, c)
send_register_nf_instance (failed ∷ rounds) c = send_register_nf_instance rounds c
send_register_nf_instance (nothing ∷ rounds) c = (panicked, c)
send_register_nf_instance (answered rsp ∷ rounds) c = (
  returned (cut "/nnrf-nfm/" rsp.location) (after_last_slash rsp.location),
  record c { oauth2_required = oauth2_of rsp.custom_info },
)

-- registerToNrf: where the registration returns, the context takes what it returns.
unfoldable pub keep_registration : Registration → UdrContext → UdrContext
keep_registration waiting c = c
keep_registration ended c = c
keep_registration panicked c = c
keep_registration (returned uri id) c = record c { nrf_uri = uri; nf_id = id }

unfoldable pub register_to_nrf : List Round → UdrContext → UdrContext
unfolding send_register_nf_instance keep_registration
register_to_nrf rounds c = let r = send_register_nf_instance rounds c in keep_registration r.0 r.1
