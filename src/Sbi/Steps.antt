-- ===== src/Sbi/Steps.antt =====
-- What a handler does to the context of the service, in terms of the requests of the processor.
use Prim.Native.String.{String}
use free5gc_udr.Base.{
  ◌≡◌, refl, inl, inr, Bool, true, false, ◌==◌, if◌then◌else◌, Option, none, some, arith,
  Bool-cases, List, [], ◌∷◌,
}
use free5gc_udr.Context.{UdrContext}
use free5gc_udr.Problem.{ProblemDetails}
use free5gc_udr.Gin.{M, ◌>>◌, Action, emit}
use free5gc_udr.Database.{Result, Result-cases}
use free5gc_udr.System.{Environment, Request, handle}
use free5gc_udr.Sbi.Routes.{Route, join_paths}
use free5gc_udr.Sbi.Expected.{of_ue, of_body, of_valid, expected}
use free5gc_udr.Sbi.{
  Incoming, Outside, World, on_context, on_db, answer_unread, answer_malformed, with_body,
  get_data_from_request_body, empty_ue_id_problem_json, with_ue,
}

-- The context after at most one request.
abbrev pub after : Environment → Option Request → UdrContext → UdrContext
after env none c = c
after env (some r) c = (handle env r c).state

-- The context after the computation is the context before it, or what the request leaves of it.
pub record IsOneRequest {Db : Type 0} (env : Environment) (f : M (World Db) (Unit {0}))
    (r : Option Request) : Type 0 where
  pub step : (w : World Db) → (f w).state.context ≡ after env r w.context

-- Every handler of a table under a prefix does what its method and its path request.
infixr 5 ◌also◌
pub data EachOneRequest {Db : Type 0} (o : Outside Db) (prefix : String)
    : List (Route Db) → Type 0 where
  finished : EachOneRequest o prefix []
  ◌also◌ :
      {r : Route Db} {rs : List (Route Db)}
      → ((req : Incoming)
          → IsOneRequest o.env
              (r.handler_func req)
              (expected o r.method (join_paths prefix r.pattern) req))
      → EachOneRequest o prefix rs
      → EachOneRequest o prefix (r ∷ rs)

module _ {Db : Type 0} {env : Environment} where
  pub on_db-IsOneRequest : (p : UdrContext → M Db (Unit {0})) → IsOneRequest env (on_db p) none
  unfolding on_db
  on_db-IsOneRequest p = record { step = λ w. refl }

  pub on_context-IsOneRequest :
      (r : Request) → IsOneRequest {Db = Db} env (on_context (handle env r)) (some r)
  unfolding on_context
  on_context-IsOneRequest r = record { step = λ w. refl }

  pub emit-IsOneRequest : (a : Action) → IsOneRequest {Db = Db} env (emit a) none
  emit-IsOneRequest a = record { step = λ w. refl }

  pub emit_then-IsOneRequest :
      (a : Action) {f : M (World Db) (Unit {0})} {r : Option Request}
      → IsOneRequest env f r
      → IsOneRequest env (emit a >> f) r
  emit_then-IsOneRequest a h = record { step = λ w. h.step w }

  pub if-IsOneRequest :
      (b : Bool) {f g : M (World Db) (Unit {0})} {r : Option Request}
      → IsOneRequest env f r
      → IsOneRequest env g r
      → IsOneRequest env (if b then f else g) r
  if-IsOneRequest true hf hg = hf
  if-IsOneRequest false hf hg = hg

  pub valid-IsOneRequest :
      (b : Bool) {f g : M (World Db) (Unit {0})} {r : Option Request}
      → IsOneRequest env f r
      → IsOneRequest env g none
      → IsOneRequest env (if b then f else g) (of_valid b r)
  unfolding of_valid
  valid-IsOneRequest true hf hg = hf
  valid-IsOneRequest false hf hg = hg

  -- The guard on the identifier of the UE, before a request and before none.
  pub with_ue-IsOneRequest :
      (req : Incoming) {k : String → M (World Db) (Unit {0})} {r : String → Option Request}
      → ((ue : String) → IsOneRequest env (k ue) (r ue))
      → IsOneRequest env (with_ue req k) (of_ue req r)
  unfolding with_ue empty_ue_id_problem_json of_ue
  with_ue-IsOneRequest req h = record {
    step = λ w. elim (Bool-cases (req.param "ueId" == "")) [
      | inl empty ↦ ground (arith, empty)
      | inr named ↦ ground (arith, named, (h (req.param "ueId")).step w)
    ];
  }

  pub ue_db :
      (req : Incoming) (p : String → UdrContext → M Db (Unit {0}))
      → IsOneRequest env (with_ue req (λ ue. on_db (p ue))) none
  unfolding with_ue empty_ue_id_problem_json on_db
  ue_db req p =
      if-IsOneRequest (req.param "ueId" == "") (record { step = λ w. refl })
        (on_db-IsOneRequest (p (req.param "ueId")))

  pub with_body-IsOneRequest :
      {A : Type 0} (decode : String → Result A) (req : Incoming) {k : A → M (World Db) (Unit {0})}
      {r : A → Option Request}
      → ((a : A) → IsOneRequest env (k a) (r a))
      → IsOneRequest env (with_body decode req k) (of_body decode req r)
  unfolding with_body answer_unread answer_malformed of_body
  with_body-IsOneRequest decode req h = record {
    step = λ w. elim (Result-cases req.body) [
      | inl (e, unread) ↦ ground (arith, unread)
      | inr (raw, read) ↦ elim (Result-cases (decode raw)) [
        | inl (e, malformed) ↦ ground (arith, read, malformed)
        | inr (a, decoded) ↦ ground (arith, read, decoded, (h a).step w)
      ]
    ];
  }

  pub body_none :
      {A : Type 0} (decode : String → Result A) (req : Incoming) {k : A → M (World Db) (Unit {0})}
      → ((a : A) → IsOneRequest env (k a) none)
      → IsOneRequest env (with_body decode req k) none
  unfolding with_body answer_unread answer_malformed
  body_none decode req h = record {
    step = λ w. elim (Result-cases req.body) [
      | inl (e, unread) ↦ ground (arith, unread)
      | inr (raw, read) ↦ elim (Result-cases (decode raw)) [
        | inl (e, malformed) ↦ ground (arith, read, malformed)
        | inr (a, decoded) ↦ ground (arith, read, decoded, (h a).step w)
      ]
    ];
  }

  pub data_none :
      {A : Type 0} (failure : String → ProblemDetails) (decode : String → Result A) (req : Incoming)
      {k : A → M (World Db) (Unit {0})}
      → ((a : A) → IsOneRequest env (k a) none)
      → IsOneRequest env (get_data_from_request_body failure decode req k) none
  unfolding get_data_from_request_body
  data_none failure decode req h = record {
    step = λ w. elim (Result-cases req.body) [
      | inl (e, unread) ↦ ground (arith, unread)
      | inr (raw, read) ↦ elim (Result-cases (decode raw)) [
        | inl (e, malformed) ↦ ground (arith, read, malformed)
        | inr (a, decoded) ↦ ground (arith, read, decoded, (h a).step w)
      ]
    ];
  }

  -- The shapes of the handlers that work on the database.
  pub body_ue_db :
      {A : Type 0} (decode : String → Result A) (req : Incoming)
      (p : A → String → UdrContext → M Db (Unit {0}))
      → IsOneRequest env (with_body decode req (λ a. with_ue req (λ ue. on_db (p a ue)))) none
  body_ue_db decode req p = body_none decode req (λ a. ue_db req (p a))

  pub data_ue_db :
      {A : Type 0} (failure : String → ProblemDetails) (decode : String → Result A) (req : Incoming)
      (p : A → String → UdrContext → M Db (Unit {0}))
      → IsOneRequest env
          (get_data_from_request_body failure decode req (λ a. with_ue req (λ ue. on_db (p a ue))))
          none
  data_ue_db failure decode req p = data_none failure decode req (λ a. ue_db req (p a))
