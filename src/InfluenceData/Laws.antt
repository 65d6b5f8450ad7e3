-- ===== src/InfluenceData/Laws.antt =====
-- When a replacement of influence data is told to the subscribers.
use Prim.Native.String.{String}
use free5gc_udr.Base.{◌≡◌, ◌↔◌, Bool, false, List, [], ◌∷◌, Option, none, some, arith}
use free5gc_udr.DeepEqual.{influ_data_eq_iff}
use free5gc_udr.Models.{Document, TrafficInfluData, put, text}
use free5gc_udr.Context.{UdrContext}
use free5gc_udr.Gin.{
  plain, Action, Task, spawn, answers, json, status, content, header, set_problem,
}
use free5gc_udr.Callback.{pre_handle_influence_data_update_notification}
use free5gc_udr.Database.{Mongo, ok, by}
use free5gc_udr.InfluenceData.{
  Codec, original_of, changed_from, notify_change, answer_put,
  influence_data_influence_id_put_procedure,
}

-- The goroutines that a handler starts.
unfoldable pub spawned : List Action → List Task
spawned [] = []
spawned (spawn t ∷ more) = t ∷ spawned more
spawned (json _ _ ∷ more) = spawned more
spawned (status _ ∷ more) = spawned more
spawned (content _ _ ∷ more) = spawned more
spawned (plain _ _ ∷ more) = spawned more
spawned (header _ _ ∷ more) = spawned more
spawned (set_problem _ ∷ more) = spawned more

changed_from_iff :
    (o : Option TrafficInfluData) (d : TrafficInfluData) → (changed_from o d ≡ false) ↔ (o ≡ some d)
unfolding changed_from
changed_from_iff none d = (λ h. cc, λ h. cc)
changed_from_iff (some o) d =
    let e = influ_data_eq_iff o d in (λ h. ground (arith, e), λ h. ground (arith, e))

module _ {Db : Type 0} (m : Mongo Db) (codec : Codec) (c : UdrContext) (coll id : String)
    (request : TrafficInfluData) (db : Db) where
  -- A replacement whose calls of the database and whose decoding of the original succeed answers
  -- once, and starts no notification exactly if the original is the data of the request.
  pub put_notifies_iff :
      (stored : Option Document) (original : Option TrafficInfluData) (existed : Bool)
      → m.get_one db coll (by "influenceId" id) false ≡ ok stored
      → original_of codec stored ≡ ok original
      → (m.put_one db coll
          (by "influenceId" id)
          (put "influenceId" (text id) (codec.to_bson_m request))).1
        ≡ ok existed
      → (let done = influence_data_influence_id_put_procedure m codec c coll id request db in
          (answers done.actions ≡ 1) × ((spawned done.actions ≡ []) ↔ (original ≡ some request)))
  unfolding influence_data_influence_id_put_procedure notify_change answer_put answers spawned
      pre_handle_influence_data_update_notification
  put_notifies_iff stored original existed got decoded written =
      let e = changed_from_iff original request in
      (
        ground (arith, got, decoded, written),
        (
          λ h. ground (arith, got, decoded, written, e),
          λ h. ground (arith, got, decoded, written, e),
        ),
      )
