-- ===== src/Tests/Documents.antt =====
-- Concrete databases, and the theorems on documents at concrete inputs.
use Prim.Native.String.{String}
use free5gc_udr.Collections.{get_shared_data_procedure}
use free5gc_udr.Collections.Laws.{documents_of, given, shared_answer, get_shared_data_lem}
use free5gc_udr.Base.{map, ◌≡◌, refl, ◌↔◌, true, false, [], ◌∷◌, Option, none, some}
use free5gc_udr.Tests.Notifications.{data_of_ue, context_with_sub}
use free5gc_udr.Models.{end, Document}
use free5gc_udr.Problem.{system_failure}
use free5gc_udr.Gin.{answers}
use free5gc_udr.Database.{Mongo, by}
use free5gc_udr.Database as Database
use free5gc_udr.Documents.{query, query_and_go_on}
use free5gc_udr.Documents.Laws.{query_once, query_and_go_on_once_iff}
use free5gc_udr.InfluenceData.{Codec, original_of, influence_data_influence_id_put_procedure}
use free5gc_udr.InfluenceData.Laws.{spawned, put_notifies_iff}
use free5gc_udr.Registrations.{amf_context_3gpp_procedure}
use free5gc_udr.Registrations.Laws.{spawns, Fails, amf_context_3gpp_twice_iff}

-- A database that is one optional document, whatever the collection and the filter.
abbrev pub one_document : Mongo (Option Document)
one_document = record {
  get_one = λ db coll filter any_case. Database.ok db;
  get_many = λ db coll filter any_case. Database.ok none;
  put_one = λ db coll filter d. (some d, Database.ok true);
  delete_one = λ db coll filter. (none, Database.ok tt);
  json_patch = λ db coll filter p. (db, Database.err "no document");
  json_patch_extend = λ db coll filter p key. (db, Database.err "no document");
  merge_patch = λ db coll filter d. (db, Database.ok tt);
  marshal_patch = λ items. Database.ok "[]";
  system_failure = system_failure;
}

query_once_example :
    ((query one_document "c" end none).result ≡ some tt)
    × ((query one_document "c" end none).state ≡ none)
    × (answers (query one_document "c" end none).actions ≡ 1)
query_once_example = query_once one_document "c" end none

query_and_go_on_once_iff_example :
    (answers (query_and_go_on one_document "c" end none).actions ≡ 1)
    ↔ ((d : Document) × (one_document.get_one none "c" end false ≡ Database.ok (some d)))
query_and_go_on_once_iff_example = query_and_go_on_once_iff one_document "c" end none

abbrev pub codec : Codec
codec = record { decode = λ d. Database.ok data_of_ue; to_bson_m = λ d. end }

put_notifies_iff_example :
    (let done =
        influence_data_influence_id_put_procedure one_document codec context_with_sub "c" "i"
          data_of_ue
          (some (by "a" "b")) in
      (answers done.actions ≡ 1)
      × ((spawned done.actions ≡ []) ↔ (some data_of_ue ≡ some data_of_ue)))
unfolding original_of
put_notifies_iff_example =
    put_notifies_iff one_document codec context_with_sub "c" "i" data_of_ue (some (by "a" "b"))
      (some (by "a" "b")) (some data_of_ue) true refl refl refl

amf_context_3gpp_twice_iff_example :
    (spawns (amf_context_3gpp_procedure one_document "c" "imsi-1" [] none).actions ≡ 1)
    × ((answers (amf_context_3gpp_procedure one_document "c" "imsi-1" [] none).actions ≡ 2)
        ↔ Fails one_document "c" "imsi-1" [] none)
amf_context_3gpp_twice_iff_example = amf_context_3gpp_twice_iff one_document "c" "imsi-1" [] none

fails_with_500 : (e : String) → (system_failure e).status ≡ 500
unfolding system_failure
fails_with_500 e = refl

get_shared_data_lem_example :
    get_shared_data_procedure one_document "c" ("x" ∷ "y" ∷ []) (some end) ≡ record {
      result = some tt;
      state = some end;
      actions = shared_answer one_document "c" (some end) fails_with_500 (
          documents_of one_document
            (map (given one_document "c" (some end) fails_with_500) ("x" ∷ "y" ∷ [])));
    }
get_shared_data_lem_example =
    get_shared_data_lem one_document "c" (some end) fails_with_500 ("x" ∷ "y" ∷ [])
