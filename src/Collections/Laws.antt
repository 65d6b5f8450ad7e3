-- ===== src/Collections/Laws.antt =====
-- What the collections answer with, against the documents that the database gives for each key.
use Prim.Native.String.{String}
use mathlib.Core.List.{append_assoc, append-nil}
use free5gc_udr.Base.{
  ◌≡◌, refl, sym, ap, ◌∙◌, ◌⊎◌, inl, inr, map, List, [], ◌∷◌, ◌++◌, Option, none, some, false,
  arith,
}
use free5gc_udr.Models.{Document}
use free5gc_udr.Gin.{Action, set_problem, json, problem, documents}
use free5gc_udr.Problem.{not_found}
use free5gc_udr.Database.{Mongo, Result, ok, err, by, get_data_from_db}
use free5gc_udr.Collections.{
  Gathered, gathered, broken, shared_loop, after_shared, get_shared_data_procedure,
}

-- The documents of a list of answers of the database, up to the first error.
unfoldable pub documents_of : {Db : Type 0} → Mongo Db → List (Result (Option Document)) → Gathered
documents_of m [] = gathered []
documents_of m (err e ∷ more) = broken (m.system_failure e)
documents_of m (ok none ∷ more) = documents_of m more
documents_of m (ok (some d) ∷ more) = elim (documents_of m more) [
  | broken pd ↦ broken pd
  | gathered ds ↦ gathered (d ∷ ds)
]

abbrev prepend : List Document → Gathered → Gathered
prepend acc (broken pd) = broken pd
prepend acc (gathered ds) = gathered (acc ++ ds)

Result-cases :
    (r : Result (Option Document))
    → ((e : String) × (r ≡ err e)) ⊎ (r ≡ ok none) ⊎ ((d : Document) × (r ≡ ok (some d)))
Result-cases (err e) = inl (e, refl)
Result-cases (ok none) = inr (inl refl)
Result-cases (ok (some d)) = inr (inr (d, refl))

prepend_one :
    (acc : List Document) (d : Document) (g : Gathered)
    → prepend (acc ++ d ∷ []) g
      ≡ prepend acc (elim g [ broken pd ↦ broken pd | gathered ds ↦ gathered (d ∷ ds) ])
prepend_one acc d (broken pd) = refl
prepend_one acc d (gathered ds) = ap gathered (append_assoc acc (d ∷ []) ds)

module _ {Db : Type 0} (m : Mongo Db) (coll : String) (db : Db)
    (fails : (e : String) → (m.system_failure e).status ≡ 500) where
  -- What the database gives for a shared data identifier.
  abbrev pub given : String → Result (Option Document)
  given id = m.get_one db coll (by "sharedDataId" id) false

  shared_loop_lem :
      (ids : List String) (acc : List Document)
      → shared_loop m coll acc ids db ≡ record {
        result = some (prepend acc (documents_of m (map given ids)));
        state = db;
        actions = [];
      }
  unfolding shared_loop documents_of after_shared get_data_from_db not_found
  shared_loop_lem [] acc =
      ap (λ ds. record { result = some (gathered ds); state = db; actions = [] })
        (sym (append-nil acc))
  shared_loop_lem (id ∷ ids) acc = elim (Result-cases (given id)) [
    | inl (e, failed) ↦ rw failed (rw (fails e) refl)
    | inr (inl missing) ↦ rw missing (shared_loop_lem ids acc)
    | inr (inr (d, there)) ↦ rw there (
        shared_loop_lem ids (acc ++ d ∷ [])
        ∙ ap (λ g. record { result = some g; state = db; actions = [] })
            (prepend_one acc d (documents_of m (map given ids))))
  ]

  -- The answer for the documents that the database gives.
  abbrev pub shared_answer : Gathered → List Action
  shared_answer (broken pd) = set_problem pd.cause ∷ json pd.status (problem pd) ∷ []
  shared_answer (gathered []) =
      set_problem "DATA_NOT_FOUND" ∷ json 404 (problem (not_found "DATA_NOT_FOUND")) ∷ []
  shared_answer (gathered (d ∷ ds)) = json 200 (documents (d ∷ ds)) ∷ []

  -- The query of shared data answers with the documents of the identifiers that have one, in the order
  -- of the identifiers, with the 404 if there is none, and with the problem of the first identifier for
  -- which the database fails, whatever was found before. The database stays as it is. This is so if
  -- the problem of a failure of the database has the status 500.
  pub get_shared_data_lem :
      (ids : List String)
      → get_shared_data_procedure m coll ids db ≡ record {
        result = some tt;
        state = db;
        actions = shared_answer (documents_of m (map given ids));
      }
  unfolding get_shared_data_procedure not_found
  get_shared_data_lem ids = let loop = shared_loop_lem ids [] in ground (arith, loop)
