-- ===== src/Policy/SmData/Laws.antt =====
-- How the change of the session management policy data ends.
use Prim.Native.String.{String}
use free5gc_udr.Base.{
  ◌≡◌, refl, sym, ap, ◌∙◌, ◌⊎◌, inl, inr, Bool, true, false, List, [], ◌∷◌, ◌++◌, Option, none,
  some,
}
use mathlib.Core.List.{append_assoc}
use free5gc_udr.Models.{Document, UsageMonData}
use free5gc_udr.Problem.{ProblemDetails}
use free5gc_udr.Gin.{M, Step, ◌>>=◌, Action, set_problem, json, problem, answer_problem}
use free5gc_udr.Policy.{emit_all}
use free5gc_udr.Database.{Mongo, Found, Result-cases, get_data_from_db, by, by2}
use free5gc_udr.Policy.SmData.{
  SmPolicyCodec, is_internal, Merged, merged, broken, report_change, merge_one, merge_loop,
  all_merged, end_patch, after_loop, sm_data_patch_procedure,
}

-- The last answer is a problem.
abbrev pub EndsWithProblem : {S : Type 0} → Step S (Unit {0}) → Type 0
EndsWithProblem s =
    (s.result ≡ some tt)
    × ((before : List Action) × (pd : ProblemDetails) × (s.actions
          ≡ before ++ set_problem pd.cause ∷ json pd.status (problem pd) ∷ []))

module _ {S : Type 0} where
  abbrev Returns : {A : Type 0} → Step S A → Type 0
  Returns {A} s = (a : A) × (s.result ≡ some a)

  then-EndsWithProblem :
      {A : Type 0} (p : M S A) (f : A → M S (Unit {0})) (s : S)
      → Returns (p s)
      → ((a : A) (t : S) → EndsWithProblem (f a t))
      → EndsWithProblem ((p >>= f) s)
  then-EndsWithProblem p f s (a, e) h =
      let (r, rest) = h a (p s).state in
      let (before, pd, last) = rest in
      rw e (
        r,
        (
          (p s).actions ++ before,
          pd,
          ap (λ l. (p s).actions ++ l) last ∙ sym (append_assoc (p s).actions before _),
        ),
      )

  answer-EndsWithProblem : (pd : ProblemDetails) (s : S) → EndsWithProblem (answer_problem pd s)
  answer-EndsWithProblem pd s = (refl, ([], pd, refl))

  then-Returns :
      {A B : Type 0} (p : M S A) (f : A → M S B) (s : S)
      → Returns (p s)
      → ((a : A) (t : S) → Returns (f a t))
      → Returns ((p >>= f) s)
  then-Returns p f s (a, e) h = rw e (h a (p s).state)

Merged-cases :
    (r : Merged) → ((pd : ProblemDetails) × (r ≡ broken pd)) ⊎ ((b : Bool) × (r ≡ merged b))
Merged-cases (broken pd) = inl (pd, refl)
Merged-cases (merged b) = inr (b, refl)

module _ {Db : Type 0} (m : Mongo Db) (codec : SmPolicyCodec) where
  get_data_from_db-Returns :
      (coll : String) (filter : Document) (db : Db) → Returns (get_data_from_db m coll filter db)
  unfolding get_data_from_db
  get_data_from_db-Returns coll filter db = (_, refl)

  report_change-Returns :
      (ue limit_id : String) (success : Bool) (now : Found) (pd : Option ProblemDetails) (db : Db)
      → Returns (report_change m codec ue limit_id success now pd db)
  unfolding report_change emit_all
  report_change-Returns ue limit_id success now (some pd) db = (broken pd, refl)
  report_change-Returns ue limit_id success now none db = (merged success, refl)

  merge_one-Returns :
      (coll ue : String) (success : Bool) (entry : String × UsageMonData) (db : Db)
      → Returns (merge_one m codec coll ue success entry db)
  unfolding merge_one
  merge_one-Returns coll ue success entry db =
      let filter = by2 "ueId" ue "limitId" entry.0 in
      elim (Result-cases ((m.merge_patch db coll filter (codec.to_bson_m entry.1)).1)) [
        | inl (e, failed) ↦ rw failed (merged false, refl)
        | inr (a, changed) ↦ rw changed (
            then-Returns (get_data_from_db m coll (by "ueId" ue))
              (λ now. report_change m codec ue entry.0 success now (is_internal m codec now)) _
              (get_data_from_db-Returns coll (by "ueId" ue) _)
              (λ now u. report_change-Returns ue entry.0 success now (is_internal m codec now) u))
      ]

  merge_loop-Returns :
      (coll ue : String) (success : Bool) (changes : List (String × UsageMonData)) (db : Db)
      → Returns (merge_loop m codec coll ue success changes db)
  unfolding merge_loop
  merge_loop-Returns coll ue success [] db = (merged success, refl)
  merge_loop-Returns coll ue success (entry ∷ more) db =
      let (r, e) = merge_one-Returns coll ue success entry db in
      elim (Merged-cases r) [
        | inl (pd, ended) ↦ rw (e ∙ ap some ended) (broken pd, refl)
        | inr (so_far, went_on) ↦ rw (e ∙ ap some went_on) (
            merge_loop-Returns coll ue so_far more
              (merge_one m codec coll ue success entry db).state)
      ]

  all_merged-Returns : (coll ue : String) (db : Db) → Returns (all_merged m codec coll ue db)
  unfolding all_merged get_data_from_db emit_all
  all_merged-Returns coll ue db = elim (Result-cases (m.get_one db coll (by "ueId" ue) false)) [
    | inl (e, failed) ↦ rw failed (_, refl)
    | inr (none, missing) ↦ rw missing (_, refl)
    | inr (some d, found) ↦ rw found (none, refl)
  ]

  end_patch-EndsWithProblem :
      (ended : Option ProblemDetails) (db : Db) → EndsWithProblem (end_patch m codec ended db)
  unfolding end_patch
  end_patch-EndsWithProblem (some pd) db = answer-EndsWithProblem pd db
  end_patch-EndsWithProblem none db = answer-EndsWithProblem _ db

  after_loop-EndsWithProblem :
      (coll ue : String) (r : Merged) (db : Db) → EndsWithProblem (after_loop m codec coll ue r db)
  unfolding after_loop
  after_loop-EndsWithProblem coll ue (broken pd) db = answer-EndsWithProblem pd db
  after_loop-EndsWithProblem coll ue (merged false) db = answer-EndsWithProblem _ db
  after_loop-EndsWithProblem coll ue (merged true) db =
      then-EndsWithProblem (all_merged m codec coll ue) (end_patch m codec) db
        (all_merged-Returns coll ue db) end_patch-EndsWithProblem

  -- The change of the session management policy data of a UE never ends with a success: whatever the
  -- database does, the procedure returns, and the last answer that it writes is a problem.
  pub sm_data_patch_procedure-EndsWithProblem :
      (coll ue : String) (changes : List (String × UsageMonData)) (db : Db)
      → EndsWithProblem (sm_data_patch_procedure m codec coll ue changes db)
  unfolding sm_data_patch_procedure
  sm_data_patch_procedure-EndsWithProblem coll ue changes db =
      then-EndsWithProblem (merge_loop m codec coll ue true changes) (after_loop m codec coll ue) db
        (merge_loop-Returns coll ue true changes db) (after_loop-EndsWithProblem coll ue)
