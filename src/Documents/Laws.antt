-- ===== src/Documents/Laws.antt =====
-- How often the procedures that answer with a document answer.
use Prim.Native.String.{String}
use free5gc_udr.Base.{◌≡◌, ◌↔◌, false, some, arith}
use free5gc_udr.Models.{Document}
use free5gc_udr.Gin.{answers}
use free5gc_udr.Database.{Mongo, ok, get_data_from_db}
use free5gc_udr.Documents.{query, query_and_go_on, answer_found, answer_found_and_go_on}

module _ {Db : Type 0} (m : Mongo Db) (coll : String) (filter : Document) (db : Db) where
  -- A query ends without a panic, leaves the database as it is and answers once, whether it finds a
  -- document, finds none or fails.
  pub query_once :
      ((query m coll filter db).result ≡ some tt)
      × ((query m coll filter db).state ≡ db)
      × (answers (query m coll filter db).actions ≡ 1)
  unfolding query get_data_from_db answer_found answers
  query_once = (ground arith, ground arith, ground arith)

  -- A query that goes on after its problem answers once exactly if the database gives a
  -- document.
  pub query_and_go_on_once_iff :
      (answers (query_and_go_on m coll filter db).actions ≡ 1)
      ↔ ((d : Document) × (m.get_one db coll filter false ≡ ok (some d)))
  unfolding query_and_go_on get_data_from_db answer_found_and_go_on answers
  query_and_go_on_once_iff = (λ h. ground arith, λ h. ground arith)
