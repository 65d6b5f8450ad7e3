-- ===== src/Database.antt =====
-- internal/database/mongodb/mongo_db_inplement.go over the operations of github.com/free5gc/util/
-- mongoapi, which are not part of the repository and stand as a parameter.
use Prim.Native.String.{String}
use free5gc_udr.Base.{◌≡◌, refl, ◌⊎◌, inl, inr, Bool, true, false, List, [], Option, none, some}
use free5gc_udr.Models.{Document, end, field, text, PatchItem}
use free5gc_udr.Problem.{ProblemDetails, not_found}
use free5gc_udr.Gin.{M, ◌>>=◌, pure, get_state}

-- A value, or the text of an error.
pub data Result (A : Type 0) : Type 0 where
  ok : A → Result A
  err : String → Result A

pub Result-cases :
    {A : Type 0} (r : Result A) → ((e : String) × (r ≡ err e)) ⊎ ((a : A) × (r ≡ ok a))
Result-cases (ok a) = inr (a, refl)
Result-cases (err e) = inl (e, refl)

-- The operations of mongoapi on a database, with encoding/json's Marshal of a list of patch items.
-- The Boolean asks for the collation that ignores case. `none` is nil.
pub record Mongo (Db : Type 0) : Type 0 where
  pub get_one : Db → String → Document → Bool → Result (Option Document)
  pub get_many : Db → String → Document → Bool → Result (Option (List Document))
  pub put_one : Db → String → Document → Document → Db × Result Bool
  pub delete_one : Db → String → Document → Db × Result (Unit {0})
  pub json_patch : Db → String → Document → String → Db × Result (Unit {0})
  pub json_patch_extend : Db → String → Document → String → String → Db × Result (Unit {0})
  pub merge_patch : Db → String → Document → Document → Db × Result (Unit {0})
  pub marshal_patch : List PatchItem → Result String
  -- openapi.ProblemDetailsSystemFailure, of another package
  pub system_failure : String → ProblemDetails

-- The pair of a document and problem details of which one is nil.
pub data Found : Type 0 where
  found : Document → Found
  problem : ProblemDetails → Found

-- The named results of PatchDataToDBAndNotify: the values that were set when it returned.
pub record PatchResult : Type 0 where
  pub orig_value : Option Document
  pub new_value : Option Document
  pub error : Option String

-- `bson.M{k: v}` for a text.
abbrev pub by : String → String → Document
by k v = field k (text v) end

abbrev pub by2 : String → String → String → String → Document
by2 k v k' v' = field k (text v) (field k' (text v') end)

module _ {Db : Type 0} (m : Mongo Db) where
  -- A call that changes the database.
  abbrev pub run : {A : Type 0} → (Db → Db × Result A) → M Db (Result A)
  run f db = let r = f db in record { result = some r.1; state = r.0; actions = [] }

  found_or_problem : Result (Option Document) → Found
  found_or_problem (err e) = problem (m.system_failure e)
  found_or_problem (ok none) = problem (not_found "DATA_NOT_FOUND")
  found_or_problem (ok (some d)) = found d

  unfoldable pub get_data_from_db : String → Document → M Db Found
  unfolding found_or_problem
  get_data_from_db coll_name filter = do
    db ← get_state
    pure (found_or_problem (m.get_one db coll_name filter false))

  -- The strength that is passed is COLLATION_STRENGTH_IGNORE_CASE in every call.
  unfoldable pub get_data_from_db_with_arg : String → Document → M Db Found
  unfolding found_or_problem
  get_data_from_db_with_arg coll_name filter = do
    db ← get_state
    pure (found_or_problem (m.get_one db coll_name filter true))

  -- An error is only logged.
  unfoldable pub delete_data_from_db : String → Document → M Db (Unit {0})
  delete_data_from_db coll_name filter = do
    _ ← run (λ db. m.delete_one db coll_name filter)
    pure tt

  unfoldable pub after_patch :
      String → Document → Option Document → Result (Unit {0}) → M Db PatchResult
  after_patch coll_name filter orig (err e) =
      pure (record { orig_value = orig; new_value = none; error = some e })
  after_patch coll_name filter orig (ok _) = do
    db ← get_state
    elim (m.get_one db coll_name filter false) [
      | err e ↦ pure (record { orig_value = orig; new_value = none; error = some e })
      | ok new ↦ pure (record { orig_value = orig; new_value = new; error = none })
    ]

  unfoldable pub patch_data_to_db_and_notify :
      String → String → List PatchItem → Document → M Db PatchResult
  unfolding after_patch
  patch_data_to_db_and_notify coll_name ue_id patch_item filter = do
    db ← get_state
    elim (m.get_one db coll_name filter false) [
      | err e ↦ pure (record { orig_value = none; new_value = none; error = some e })
      | ok orig ↦ elim (m.marshal_patch patch_item) [
        | err e ↦ pure (record { orig_value = orig; new_value = none; error = some e })
        | ok patch_json ↦ do
          r ← run (λ db. m.json_patch db coll_name filter patch_json)
          after_patch coll_name filter orig r
      ]
    ]
