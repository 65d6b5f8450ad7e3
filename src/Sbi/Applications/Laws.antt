-- ===== src/Sbi/Applications/Laws.antt =====
-- The query parameter shared-data-ids, which may be repeated or hold several identifiers between
-- commas (HandleGetSharedData of internal/sbi/api_datarepository.go).
use Prim.Native.String.{String, [], ◌∷◌}
use free5gc_udr.Base.{◌≡◌, refl, List, [], ◌∷◌}
use free5gc_udr.Convert.Laws.{Lacks}
use free5gc_udr.Sbi.{Incoming, Outside, World}
use free5gc_udr.Sbi.Patterns.Laws.{
  join_comma, AllLack, free_of_lem, free_of-comma, split_comma-join_comma,
}
use free5gc_udr.Sbi.Applications.{shared_data_ids, handle_get_shared_data}

shared_data_ids_of_parts :
    (x : String) (xs : List String) → Lacks b',' x → shared_data_ids (x ∷ xs) ≡ x ∷ xs
unfolding shared_data_ids
shared_data_ids_of_parts x xs h = rw (free_of_lem x h) refl

shared_data_ids_of_join :
    (x : String) (xs : List String)
    → AllLack (x ∷ xs)
    → shared_data_ids (join_comma (x ∷ xs) ∷ []) ≡ x ∷ xs
unfolding shared_data_ids
shared_data_ids_of_join x [] (h, hs) = shared_data_ids_of_parts x [] h
shared_data_ids_of_join x (y ∷ ys) h =
    rw (free_of-comma x (join_comma (y ∷ ys))) (split_comma-join_comma x (y ∷ ys) h)

-- A request that gives identifiers of shared data, none with a comma, in one value between commas is
-- handled like a request that gives them in repeated values.
pub handle_get_shared_data-join_comma :
    {Db : Type 0} (o : Outside Db) (x : String) (xs : List String)
    → AllLack (x ∷ xs)
    → (joined repeated : Incoming) → joined.query_array "shared-data-ids" ≡ join_comma (x ∷ xs) ∷ []
    → repeated.query_array "shared-data-ids" ≡ x ∷ xs
    → (w : World Db) → handle_get_shared_data o joined w ≡ handle_get_shared_data o repeated w
unfolding handle_get_shared_data
handle_get_shared_data-join_comma o x xs (h, hs) joined repeated one many w = rw one (
    rw many (rw (shared_data_ids_of_join x xs (h, hs)) (rw (shared_data_ids_of_parts x xs h) refl)))
