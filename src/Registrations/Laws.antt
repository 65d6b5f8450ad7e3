-- ===== src/Registrations/Laws.antt =====
-- What a patch of a registration answers and tells.
use Prim.Native.String.{String}
use free5gc_udr.Base.{◌≡◌, ◌↔◌, ◌≢◌, List, [], ℕ, length, none, some, arith, inl, inr, Option-cases}
use free5gc_udr.Models.{PatchItem}
use free5gc_udr.Gin.{Action, Step, answers}
use free5gc_udr.InfluenceData.Laws.{spawned}
use free5gc_udr.Database.{Mongo, by, PatchResult, patch_data_to_db_and_notify, after_patch}
use free5gc_udr.Registrations.{amf_context_3gpp_procedure, patch_and_go_on, notify_and_end}
use free5gc_udr.Callback.{pre_handle_on_data_change_notify}

-- How many goroutines a handler starts.
abbrev pub spawns : List Action → ℕ
spawns actions = length (spawned actions)

module _ {Db : Type 0} (m : Mongo Db) (coll ue : String) (items : List PatchItem) (db : Db) where
  -- Whether the patch of the UE's document fails.
  abbrev pub Fails : Type 0
  Fails =
      (r : PatchResult) × (e : String) × ((patch_data_to_db_and_notify m coll ue items
          (by "ueId" ue) db).result
        ≡ some r)
      × (r.error ≡ some e)

  abbrev patched : Step Db PatchResult
  patched = patch_data_to_db_and_notify m coll ue items (by "ueId" ue) db

  -- The patch itself answers nothing and starts nothing.
  patch_silent : patched.actions ≡ []
  unfolding patch_data_to_db_and_notify after_patch
  patch_silent = ground arith

  patch_returns : patched.result ≢ none
  unfolding patch_data_to_db_and_notify after_patch
  patch_returns h = ground arith

  -- The patch of the 3GPP access registration starts one goroutine, whether the patch of the
  -- document succeeds or fails, and it answers twice exactly if it fails.
  pub amf_context_3gpp_twice_iff :
      (spawns (amf_context_3gpp_procedure m coll ue items db).actions ≡ 1)
      × ((answers (amf_context_3gpp_procedure m coll ue items db).actions ≡ 2) ↔ Fails)
  unfolding amf_context_3gpp_procedure patch_and_go_on notify_and_end answers spawned
      pre_handle_on_data_change_notify
  amf_context_3gpp_twice_iff = elim (Option-cases patched.result) [
    | inl never ↦ absurd (patch_returns never)
    | inr (r, returned) ↦ (
      ground (arith, returned, patch_silent),
      (
        λ h. elim (Option-cases r.error) [
          | inl fine ↦ absurd (ground (arith, returned, patch_silent, fine, h))
          | inr (e, failed) ↦ (r, e, returned, failed)
        ],
        λ (r', e, back, failed). ground (arith, patch_silent, back, failed),
      ),
    )
  ]
