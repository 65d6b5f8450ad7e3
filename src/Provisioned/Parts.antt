-- ===== src/Provisioned/Parts.antt =====
-- What the parts of a query of the provisioned data answer.
use Prim.Native.String.{String}
use free5gc_udr.Base.{
  ℕ, suc, arith, ◌≡◌, ◌⊎◌, inl, inr, refl, true, false, ◌=ℕ=◌, Bool-cases, Option-cases, List,
  Option, none, some,
}
use free5gc_udr.Models.{Json, Document, ProvisionedDataSets}
use free5gc_udr.Problem.{ProblemDetails, not_found}
use free5gc_udr.Gin.{M, Step, answers, answer_problem, panic}
use free5gc_udr.Database.{Mongo, ok, err, Result-cases, get_data_from_db}
use free5gc_udr.Provisioned.{
  ProvisionedCodec, is_no_data, part, answer_failed, sm_part, answer_sets, query_last_parts,
  query_sms_and_sm_parts,
}

module _ {Db : Type 0} (m : Mongo Db) (codec : ProvisionedCodec) where
  -- The list of session management data is there and decoded, and SmData is a nil pointer.
  abbrev pub SmPanics : Document → Db → Type 0
  SmPanics filter db =
      (ds : List Document) × (sets : ProvisionedDataSets) × (m.get_many db
          "subscriptionData.provisionedData.smData" filter true
        ≡ ok (some ds))
      × ((codec.decode_sm_data ds).1 ≡ none)
      × (codec.set_sm_data ((codec.decode_sm_data ds).0) sets ≡ none)

  -- The step leaves the database and has the number of answers, or has panicked on a nil pointer with
  -- one answer less.
  abbrev pub Ends : Document → ℕ → Db → Step Db (Unit {0}) → Type 0
  Ends filter n db r =
      (r.state ≡ db)
      × (((r.result ≡ none) × (suc (answers r.actions) ≡ n) × SmPanics filter db)
          ⊎ ((r.result ≡ some tt) × (answers r.actions ≡ n)))

  -- The step leaves the database, ends without a panic, and has one answer.
  abbrev pub EndsOnce : Db → Step Db (Unit {0}) → Type 0
  EndsOnce db r = (r.state ≡ db) × (r.result ≡ some tt) × (answers r.actions ≡ 1)

  pub answers_problem : (pd : ProblemDetails) (db : Db) → EndsOnce db (answer_problem pd db)
  unfolding answers
  answers_problem pd db = (refl, refl, refl)

  pub answers_failed :
      (j : Json) (e : String) (db : Db) → EndsOnce db (answer_failed m codec j e db)
  unfolding answer_failed
  answers_failed j e db = answers_problem (m.system_failure e) db

  pub problem_once :
      (filter : Document) (pd : ProblemDetails) (db : Db) → Ends filter 1 db (answer_problem pd db)
  unfolding answers
  problem_once filter pd db = (refl, inr (refl, refl))

  failed_once :
      (filter : Document) (j : Json) (e : String) (db : Db)
      → Ends filter 1 db (answer_failed m codec j e db)
  unfolding answer_failed
  failed_once filter j e db = problem_once filter (m.system_failure e) db

  sets_once :
      (filter : Document) (sets : ProvisionedDataSets) (db : Db)
      → Ends filter 1 db (answer_sets m codec sets db)
  unfolding answer_sets answers
  sets_once filter sets db = elim (Bool-cases (is_no_data sets)) [
    | inl empty ↦ rw empty (refl, inr (refl, refl))
    | inr some_data ↦ rw some_data (refl, inr (refl, refl))
  ]

  -- A document was read, and its decoding failed.
  abbrev pub DecodingFails : String → String → Document → Db → Type 0
  DecodingFails type_name coll filter db =
      (d : Document) × (e : String) × (m.get_one db coll filter false ≡ ok (some d))
      × ((codec.decode type_name d).1 ≡ some e)

  -- The database failed, with a status that ends the procedure.
  abbrev pub ReadingFails : String → Document → Db → Type 0
  ReadingFails coll filter db =
      (e : String) × (m.get_one db coll filter false ≡ err e) × ((m.system_failure e).status ≡ 500)

  -- The procedure ends at the data on access and mobility.
  abbrev pub EndsFirst : Document → Db → Type 0
  EndsFirst filter db =
      ReadingFails "subscriptionData.provisionedData.amData" filter db
      ⊎ DecodingFails "AccessAndMobilitySubscriptionData" "subscriptionData.provisionedData.amData"
          filter db

  abbrev pub SelectionFails : Document → Db → Type 0
  SelectionFails filter db =
      DecodingFails "SmfSelectionSubscriptionData"
        "subscriptionData.provisionedData.smfSelectionSubscriptionData" filter db

  -- What holds of the answer of a problem, of what follows an error of the decoding, and of what
  -- follows the part where neither ends it, holds of all.
  pub part_rule :
      (Q : Step Db (Unit {0}) → Type 0) (type_name coll : String) (filter : Document)
      (failed : Json → String → M Db (Unit {0})) (k : Option Json → M Db (Unit {0})) (db : Db)
      → (ReadingFails coll filter db → (pd : ProblemDetails) → Q (answer_problem pd db))
      → ((d : Document) (e : String)
          → m.get_one db coll filter false ≡ ok (some d)
          → (codec.decode type_name d).1 ≡ some e
          → Q (failed (codec.decode type_name d).0 e db))
      → ((¬ ReadingFails coll filter db)
          → (¬ DecodingFails type_name coll filter db)
          → (v : Option Json) → Q (k v db))
      → Q (part m codec type_name coll filter failed k db)
  unfolding part get_data_from_db not_found
  part_rule Q type_name coll filter failed k db hp hf hk =
      elim (Result-cases (m.get_one db coll filter false)) [
        | inl (e, broken) ↦ elim (Bool-cases ((m.system_failure e).status =ℕ= 500)) [
          | inl ends ↦ rw (broken, ends) (hp (e, broken, ground (arith, ends)) (m.system_failure e))
          | inr goes_on ↦
              rw (broken, goes_on)
                (hk (λ f. absurd (ground (arith, broken, goes_on, f.1, f.2)))
                  (λ f. absurd (ground (arith, broken, f.2))) none)
        ]
        | inr (none, missing) ↦ rw missing (
            hk (λ f. absurd (ground (arith, missing, f.1)))
              (λ f. absurd (ground (arith, missing, f.2))) none)
        | inr (some d, there) ↦ rw there (elim (Option-cases (codec.decode type_name d).1) [
          | inl fine ↦ rw fine (
              hk (λ f. absurd (ground (arith, there, f.1)))
                (λ f. absurd (ground (arith, there, fine, f.2, f.3)))
                (some (codec.decode type_name d).0))
          | inr (e, bad) ↦ rw bad (hf d e there bad)
        ])
      ]

  part_once :
      (type_name coll : String) (filter : Document) (failed : Json → String → M Db (Unit {0}))
      (k : Option Json → M Db (Unit {0})) (db : Db)
      → ((j : Json) (e : String) → Ends filter 1 db (failed j e db))
      → ((v : Option Json) → Ends filter 1 db (k v db))
      → Ends filter 1 db (part m codec type_name coll filter failed k db)
  part_once type_name coll filter failed k db hf hk =
      part_rule (Ends filter 1 db) type_name coll filter failed k db
        (λ _ pd. problem_once filter pd db) (λ d e there bad. hf (codec.decode type_name d).0 e)
        (λ _ _. hk)

  sm_rule :
      (Q : Step Db (Unit {0}) → Type 0) (filter : Document) (sets : ProvisionedDataSets)
      (k : ProvisionedDataSets → M Db (Unit {0})) (db : Db)
      → ((pd : ProblemDetails) → Q (answer_problem pd db))
      → (SmPanics filter db → Q (panic db))
      → ((sets' : ProvisionedDataSets) → Q (k sets' db))
      → Q (sm_part m codec filter sets k db)
  unfolding sm_part
  sm_rule Q filter sets k db hp hn hk =
      elim (Result-cases (m.get_many db "subscriptionData.provisionedData.smData" filter true)) [
        | inl (e, broken) ↦ rw broken (hp (m.system_failure e))
        | inr (none, missing) ↦ rw missing (hk sets)
        | inr (some ds, there) ↦ rw there (elim (Option-cases (codec.decode_sm_data ds).1) [
          | inr (e, bad) ↦ rw bad (hp (m.system_failure e))
          | inl fine ↦
              rw fine (elim (Option-cases (codec.set_sm_data (codec.decode_sm_data ds).0 sets)) [
                | inl nil ↦ rw nil (hn (ds, sets, there, fine, nil))
                | inr (sets', set) ↦ rw set (hk sets')
              ])
        ])
      ]

  sm_once :
      (filter : Document) (sets : ProvisionedDataSets) (k : ProvisionedDataSets → M Db (Unit {0}))
      (db : Db)
      → ((sets' : ProvisionedDataSets) → Ends filter 1 db (k sets' db))
      → Ends filter 1 db (sm_part m codec filter sets k db)
  unfolding answers
  sm_once filter sets k db hk =
      sm_rule (Ends filter 1 db) filter sets k db (λ pd. problem_once filter pd db)
        (λ nil. (refl, inl (refl, refl, nil))) hk

  last_once :
      (filter : Document) (sets : ProvisionedDataSets) (db : Db)
      → Ends filter 1 db (query_last_parts m codec filter sets db)
  unfolding query_last_parts
  last_once filter sets db =
      part_once "TraceData" "subscriptionData.provisionedData.traceData" filter _ _ db
        (λ j e. failed_once filter j e db)
        (λ trace.
          part_once "SmsManagementSubscriptionData" "subscriptionData.provisionedData.smsMngData"
            filter _ _ db (λ j e. failed_once filter j e db) (λ sms_mng. sets_once filter _ db))

  pub sms_and_sm_once :
      (filter : Document) (sets : ProvisionedDataSets) (db : Db)
      → Ends filter 1 db (query_sms_and_sm_parts m codec filter sets db)
  unfolding query_sms_and_sm_parts
  sms_and_sm_once filter sets db =
      part_once "SmsSubscriptionData" "subscriptionData.provisionedData.smsData" filter _ _ db
        (λ j e. failed_once filter j e db)
        (λ sms. sm_once filter _ _ db (λ sets'. last_once filter sets' db))
