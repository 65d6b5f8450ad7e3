-- ===== src/Nrf/Laws.antt =====
-- When the registration ends, and what the context holds then.
use Prim.Native.Char.{code}
use Prim.Native.String.{String, [], ◌∷◌, ◌++◌}
use package.text.Mathlib.TextEquality.{Char-path}
use package.text.Mathlib.TextLemmas.{nil-append, cons-append, append_assoc}
use free5gc_udr.Base.{
  ◌≡◌, ◌≢◌, ◌↔◌, Bool, true, false, Option, none, some, Option-cases, ◌∙◌, sym, ap, refl, inl, inr,
  if◌then◌else◌, Bool-cases, List, [], ◌∷◌, ◌++◌ as ◌+++◌, arith, ◌=ℕ=◌,
}
use free5gc_udr.Context.{UdrContext}
use free5gc_udr.Convert.Laws.{Lacks}
use free5gc_udr.Models.{Json, Document, null, number, text, other, array, object, get, bool}
use free5gc_udr.Sbi.Patterns.{strip}
use free5gc_udr.Nrf.{
  Registered, Round, context_done, failed, nothing, answered, waiting, send_register_nf_instance,
  register_to_nrf, keep_registration, cut, after_last_slash, last_part, oauth2_of,
}

-- Every request fails.
abbrev pub AllFail : List Round → Type 0
AllFail [] = Unit
AllFail (r ∷ rounds) = (r ≡ failed) × AllFail rounds

-- The registration goes on waiting as long as every request fails, and ends with the first round that
-- meets anything else.
pub send_register_nf_instance_waits_iff :
    (rounds : List Round) (c : UdrContext)
    → ((send_register_nf_instance rounds c).0 ≡ waiting) ↔ AllFail rounds
unfolding send_register_nf_instance
send_register_nf_instance_waits_iff [] c = (λ _. tt, λ _. refl)
send_register_nf_instance_waits_iff (context_done ∷ rounds) c = ground arith
send_register_nf_instance_waits_iff (failed ∷ rounds) c =
    let h = send_register_nf_instance_waits_iff rounds c in (λ e. (refl, h.0 e), λ a. h.1 a.1)
send_register_nf_instance_waits_iff (nothing ∷ rounds) c = ground arith
send_register_nf_instance_waits_iff (answered rsp ∷ rounds) c = ground arith

last_part_of_lacking : (best id : String) → Lacks b'/' id → last_part best id ≡ best
unfolding last_part
last_part_of_lacking best [] h = refl
last_part_of_lacking best (c ∷ s) h = ground (arith, last_part_of_lacking best s h.1)

last_part-append : (best x id : String) → Lacks b'/' id → last_part best (x ++ ("/" ++ id)) ≡ id
unfolding last_part
last_part-append best [] id h =
    rw (nil-append, cons-append, nil-append) (last_part_of_lacking id id h)
last_part-append best (c ∷ x) id h = rw cons-append (elim (Bool-cases (code c =ℕ= b'/')) [
  | inl slash ↦ rw slash (last_part-append (x ++ ("/" ++ id)) x id h)
  | inr differs ↦ rw differs (last_part-append best x id h)
])

-- The separator stands nowhere in the base followed by the tail, but at the tail or later.
abbrev pub NotBefore : String → String → String → Type 0
NotBefore sep [] tail = Unit
NotBefore sep (c ∷ base) tail =
    ((z : String) → (c ∷ base) ++ tail ≢ sep ++ z) × NotBefore sep base tail

strip_lem : (p s z : String) → strip p s ≡ some z → s ≡ p ++ z
unfolding strip
strip_lem [] s z e = rw nil-append (ground (arith, e))
strip_lem (c ∷ p) [] z e = absurd (ground (arith, e))
strip_lem (c ∷ p) (d ∷ s) z e = elim (Bool-cases (code d =ℕ= code c)) [
  | inl same ↦
      let same_char : d ≡ c = Char-path d c (ground (arith, same)) in
      let rest : s ≡ p ++ z = strip_lem p s z (ground (arith, same, e)) in
      rw cons-append (ap (λ x. x ∷ s) same_char ∙ ap (λ t. c ∷ t) rest)
  | inr differs ↦ absurd (ground (arith, differs, e))
]

strip-append : (p z : String) → strip p (p ++ z) ≡ some z
unfolding strip
strip-append [] z = rw nil-append refl
strip-append (c ∷ p) z = rw cons-append (ground (arith, strip-append p z))

-- A text that a pattern is not stripped from does not start with it.
not_prefix : (p s : String) → strip p s ≡ none → (z : String) → s ≢ p ++ z
not_prefix p s none_left z e = absurd (ground (arith, none_left, e, strip-append p z))

-- A test for it.
abbrev pub is_nowhere : Option String → Bool
is_nowhere none = true
is_nowhere (some z) = false

unfoldable pub stands_not_before : String → String → String → Bool
unfolding strip
stands_not_before sep [] tail = true
stands_not_before sep (c ∷ base) tail =
    let rest = stands_not_before sep base tail in
    if is_nowhere (strip sep ((c ∷ base) ++ tail)) then rest else false

pub NotBefore-stands_not_before :
    (sep base tail : String) → stands_not_before sep base tail ≡ true → NotBefore sep base tail
unfolding stands_not_before
NotBefore-stands_not_before sep [] tail e = tt
NotBefore-stands_not_before sep (c ∷ base) tail e =
    elim (Option-cases (strip sep ((c ∷ base) ++ tail))) [
      | inl nowhere ↦ (
        not_prefix sep ((c ∷ base) ++ tail) nowhere,
        NotBefore-stands_not_before sep base tail (ground (arith, nowhere, e)),
      )
      | inr (z, here) ↦ absurd (ground (arith, here, e))
    ]

cut_here : (sep s z : String) → strip sep s ≡ some z → cut sep s ≡ ""
unfolding cut
cut_here sep [] z e = refl
cut_here sep (c ∷ s) z e = rw (e, cut) refl

cut_lem :
    (sep base tail : String)
    → NotBefore sep base (sep ++ tail)
    → cut sep (base ++ (sep ++ tail)) ≡ base
unfolding cut
cut_lem sep [] tail h = rw nil-append (cut_here sep (sep ++ tail) tail (strip-append sep tail))
cut_lem sep (c ∷ base) tail (h, hs) =
    rw cons-append (elim (Option-cases (strip sep (c ∷ (base ++ (sep ++ tail))))) [
      | inl nowhere ↦ rw (nowhere, cut) (ap (λ t. c ∷ t) (cut_lem sep base tail hs))
      | inr (z, here) ↦ absurd (
          h z
            (cons-append c base (sep ++ tail) ∙ strip_lem sep (c ∷ (base ++ (sep ++ tail))) z here))
    ])

-- The custom information asks for OAuth2.
abbrev pub AsksOauth2 : Option Document → Type 0
AsksOauth2 info = (d : Document) × (info ≡ some d) × (get "oauth2" d ≡ some (bool true))

oauth2_of_value :
    (d : Document) (v : Option Json)
    → get "oauth2" d ≡ v
    → (oauth2_of (some d) ≡ true) ↔ AsksOauth2 (some d)
unfolding oauth2_of
oauth2_of_value d none e = ground (arith, e)
oauth2_of_value d (some null) e = ground (arith, e)
oauth2_of_value d (some (bool b)) e = ground (arith, e)
oauth2_of_value d (some (number n)) e = ground (arith, e)
oauth2_of_value d (some (text t)) e = ground (arith, e)
oauth2_of_value d (some (other t)) e = ground (arith, e)
oauth2_of_value d (some (array js)) e = ground (arith, e)
oauth2_of_value d (some (object f)) e = ground (arith, e)

oauth2_of_iff : (info : Option Document) → (oauth2_of info ≡ true) ↔ AsksOauth2 info
unfolding oauth2_of
oauth2_of_iff none = ground arith
oauth2_of_iff (some d) = oauth2_of_value d (get "oauth2" d) refl

same_test : {P : Type 0} (a b : Bool) → (a ≡ true) ↔ P → (b ≡ true) ↔ P → a ≡ b
same_test true true ha hb = refl
same_test true false ha hb = sym (hb.1 (ha.0 refl))
same_test false true ha hb = ha.1 (hb.0 refl)
same_test false false ha hb = refl

-- After any number of requests that fail, the first answer of the NRF ends the registration. Its
-- location is a base, `/nnrf-nfm/`, more, a slash and an identifier with no slash, where `/nnrf-nfm/`
-- does not occur before the end of the base. The context then has the base as the URI of the NRF, the
-- identifier as its own, requires OAuth2 exactly if the answer holds custom information in which
-- `oauth2` is true, and is otherwise as it was.
pub register_to_nrf-answered :
    (failures : List Round) (rsp : Registered) (more : List Round) (base middle id : String)
    (asked : Bool) (c : UdrContext)
    → AllFail failures
    → rsp.location ≡ base ++ ("/nnrf-nfm/" ++ (middle ++ ("/" ++ id)))
    → NotBefore "/nnrf-nfm/" base ("/nnrf-nfm/" ++ (middle ++ ("/" ++ id)))
    → Lacks b'/' id
    → (asked ≡ true) ↔ AsksOauth2 rsp.custom_info
    → register_to_nrf (failures +++ (answered rsp ∷ more)) c
      ≡ record c { oauth2_required = asked; nrf_uri = base; nf_id = id }
unfolding register_to_nrf send_register_nf_instance keep_registration after_last_slash
register_to_nrf-answered [] rsp more base middle id asked c fails at first lacks asks =
    let last : after_last_slash rsp.location ≡ id =
      rw
        (at
          ∙ sym (
              append_assoc base ("/nnrf-nfm/" ++ middle) ("/" ++ id)
              ∙ ap (λ t. base ++ t) (append_assoc "/nnrf-nfm/" middle ("/" ++ id))))
        (last_part-append _ (base ++ ("/nnrf-nfm/" ++ middle)) id lacks) in
    let uri : cut "/nnrf-nfm/" rsp.location ≡ base = rw at (cut_lem "/nnrf-nfm/" base _ first) in
    let oauth2 : oauth2_of rsp.custom_info ≡ asked =
      same_test _ asked (oauth2_of_iff rsp.custom_info) asks in
    rw (last, uri, oauth2) refl
register_to_nrf-answered (r ∷ failures) rsp more base middle id asked c (f, fails) at first lacks
      asks =
    rw f
      (register_to_nrf-answered failures rsp more base middle id asked c fails at first lacks asks)
