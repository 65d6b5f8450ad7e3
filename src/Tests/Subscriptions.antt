-- ===== src/Tests/Subscriptions.antt =====
-- Concrete runs, and the theorems at concrete inputs.
use Prim.Native.String.{String}
use free5gc_udr.Base.{
  ◌≡◌, refl, ◌↔◌, ◌≢◌, false, List, [], ◌∷◌, length, none, some, arith, lookup, assign,
}
use free5gc_udr.Base.Int.{pos, itoa}
use free5gc_udr.Models.{
  TrafficInfluSub, null, other, SdmSubscription, EeSubscription, AmfSubscriptionInfo,
}
use free5gc_udr.Context.{UdrContext, EeSubscriptionCollection, init_tables}
use free5gc_udr.Gin.{header, json, sdm_subscription, amf_subscription_infos}
use free5gc_udr.Sdm.{
  create_sdm_subscriptions_procedure, remove_sdm_subscriptions_procedure,
  update_sdm_subscriptions_procedure,
}
use free5gc_udr.Sdm.Spec.{view, created, location, sdm_at}
use free5gc_udr.Sdm.Refinement.{Implements, create-refines, remove-refines, update-refines}
use free5gc_udr.Ee.{
  create_ee_subscriptions_procedure, remove_ee_subscriptions_procedure,
  update_ee_subscriptions_procedure,
}
use free5gc_udr.Ee.Laws.{
  collection_at, create-collection_at, remove-collection_at, update-collection_at, rewritten,
}
use free5gc_udr.AmfInfo.{
  create_amf_subscriptions_procedure, remove_amf_subscriptions_info_procedure,
  get_amf_subscription_info_procedure, undecodable,
}
use free5gc_udr.AmfInfo.Laws.{remove_panics_iff, get-create}
use free5gc_udr.EeGroup.{
  create_ee_group_subscriptions_procedure, remove_ee_group_subscriptions_procedure,
  update_ee_group_subscriptions_procedure,
}
use free5gc_udr.EeGroup.Laws.{group_at, create-group_at, remove-group_at, update-group_at}
use free5gc_udr.Influence.Laws.{AllPointers}
use free5gc_udr.System.Pointers.{serve-AllPointers}
use free5gc_udr.System.{
  post_influence, put_influence, delete_influence, query_ee, Environment, Request, create_sdm,
  create_ee, remove_sdm, handle, serve,
}
use free5gc_udr.System.Soundness.{IsSound, data_at}
use mathlib.Core.List.Perm
use free5gc_udr.System.Panics.{handle_returns}
use free5gc_udr.System.Invariant.{handle-IsSound, serve-IsSound, init-IsSound}

abbrev pub sdm : SdmSubscription
sdm = record { subscription_id = ""; rest = other "first" }

abbrev sdm2 : SdmSubscription
sdm2 = record { subscription_id = ""; rest = other "second" }

abbrev ee : EeSubscription
ee = record { rest = other "ee" }

abbrev infos : List AmfSubscriptionInfo
infos = record { rest = other "amf" } ∷ []

abbrev collection : EeSubscriptionCollection
collection = record { ee_subscriptions = some ee; amf_subscription_infos = none }

-- A context with no subscription.
abbrev pub blank_context : UdrContext
blank_context = record {
  name = "udr";
  uri_scheme = "http";
  binding_ipv4 = "127.0.0.4";
  register_ipv4 = "127.0.0.4";
  nf_id = "1";
  nrf_uri = "https://127.0.0.10:8000";
  nrf_cert_pem = "";
  sbi_port = pos 8000;
  ee_subscription_id_generator = pos 1;
  sdm_subscription_id_generator = pos 1;
  subscription_data_subscription_id_generator = pos 1;
  policy_data_subscription_id_generator = pos 1;
  ue_subs_collection = [];
  ue_group_collection = [];
  subscription_data_subscriptions = some [];
  policy_data_subscriptions = some [];
  influence_data_subscriptions = [];
  app_data_influ_data_subscription_id_generator = 0;
  oauth2_required = false;
}

-- One UE with an SDM and an event exposure subscription, and one group with a subscription.
abbrev full_context : UdrContext
full_context = record blank_context {
  ee_subscription_id_generator = pos 3;
  sdm_subscription_id_generator = pos 2;
  ue_subs_collection =
      (
        "imsi-1",
        record {
          ee_subscription_collection = some (("1", collection) ∷ []);
          sdm_subscriptions = some (("1", sdm) ∷ []);
        },
      )
      ∷ [];
  ue_group_collection = ("g", record { ee_subscriptions = some (("2", ee) ∷ []) }) ∷ [];
}

abbrev pub env : Environment
env = record {
  visit_sdm = λ m. m;
  visit_ee = λ m. m;
  visit_group = λ m. m;
  visit_influence = λ m. m;
  patch = λ items old. undecodable;
  same = λ a b. false;
}

abbrev requests : List Request
requests =
    create_sdm sdm "subscriptionData" "imsi-1"
    ∷ create_ee "imsi-1" ee
    ∷ create_sdm sdm2 "subscriptionData" "imsi-2"
    ∷ remove_sdm "imsi-1" "1"
    ∷ []

serve-IsSound_example :
    (let d : UdrContext = serve env requests (init_tables blank_context) in
      IsSound (length requests) d
      × ((ue : String) → sdm_at d ue (itoa d.sdm_subscription_id_generator) ≡ none)
      × ((ue : String) → collection_at d ue (itoa d.ee_subscription_id_generator) ≡ none)
      × ((group : String) → group_at d group (itoa d.ee_subscription_id_generator) ≡ none)
      × ((a : String) → data_at d a (itoa d.subscription_data_subscription_id_generator) ≡ none))
serve-IsSound_example = serve-IsSound env requests blank_context refl refl (omega arith)

handle-IsSound_example :
    IsSound 1
      (handle env (create_sdm sdm "subscriptionData" "imsi-1") (init_tables blank_context)).state
handle-IsSound_example =
    handle-IsSound env (create_sdm sdm "subscriptionData" "imsi-1") 0 (init_tables blank_context)
      (omega arith) (init-IsSound blank_context refl refl)

create-refines_example :
    (view (create_sdm_subscriptions_procedure sdm2 "subscriptionData" "imsi-1" full_context).state
      ≡ created (view full_context) "imsi-1" sdm2)
    × ((create_sdm_subscriptions_procedure sdm2 "subscriptionData" "imsi-1" full_context).result
        ≡ some tt)
    × ((create_sdm_subscriptions_procedure sdm2 "subscriptionData" "imsi-1" full_context).actions
        ≡ header "Location" (location full_context "imsi-1" (itoa (pos 2)))
          ∷ json 201 (sdm_subscription (record sdm2 { subscription_id = itoa (pos 2) }))
          ∷ [])
create-refines_example = create-refines sdm2 "subscriptionData" "imsi-1" full_context

remove-refines_example :
    Implements full_context "imsi-1" "1" none
      (remove_sdm_subscriptions_procedure "imsi-1" "1" full_context)
remove-refines_example = remove-refines "imsi-1" "1" full_context

update-refines_example :
    Implements full_context "imsi-1" "1"
      (some (record sdm2 { subscription_id = "1" }))
      (update_sdm_subscriptions_procedure "imsi-1" "1" sdm2 full_context)
update-refines_example = update-refines "imsi-1" "1" sdm2 full_context

create-collection_at_example :
    collection_at (create_ee_subscriptions_procedure "imsi-1" ee full_context).state "imsi-1" "3"
    ≡ assign (collection_at full_context) "imsi-1" (itoa (pos 3)) (some collection) "imsi-1" "3"
create-collection_at_example = create-collection_at full_context "imsi-1" "imsi-1" "3" ee

remove-collection_at_example :
    collection_at (remove_ee_subscriptions_procedure "imsi-1" "1" full_context).state "imsi-1" "1"
    ≡ assign (collection_at full_context) "imsi-1" "1" none "imsi-1" "1"
remove-collection_at_example = remove-collection_at full_context "imsi-1" "1" "imsi-1" "1"

update-collection_at_example :
    collection_at
      (update_ee_subscriptions_procedure "imsi-1" "1" (record { rest = null }) full_context).state
      "imsi-1"
      "1"
    ≡ assign
        (collection_at full_context)
        "imsi-1"
        "1"
        (rewritten full_context "imsi-1" "1" "imsi-1" "1"
          (λ col. record col { ee_subscriptions = some (record { rest = null }) }))
        "imsi-1"
        "1"
update-collection_at_example =
    update-collection_at full_context "imsi-1" "1" "imsi-1" "1" (record { rest = null })

remove_panics_iff_example :
    ((remove_amf_subscriptions_info_procedure "7" "imsi-1" full_context).result ≡ none)
    ↔ (collection_at full_context "imsi-1" "7" ≡ none)
remove_panics_iff_example = remove_panics_iff full_context "imsi-1" "7"

there : collection_at full_context "imsi-1" "1" ≢ none
unfolding lookup
there e = cc

get-create_example :
    (get_amf_subscription_info_procedure "1" "imsi-1"
      (create_amf_subscriptions_procedure "1" "imsi-1" (some infos) full_context).state).actions
    ≡ json 200 (amf_subscription_infos infos) ∷ []
get-create_example = get-create full_context "imsi-1" "1" infos there

create-group_at_example :
    group_at (create_ee_group_subscriptions_procedure "g" ee full_context).state "g" "3"
    ≡ assign (group_at full_context) "g" (itoa (pos 3)) (some ee) "g" "3"
create-group_at_example = create-group_at full_context "g" "g" "3" ee

remove-group_at_example :
    group_at (remove_ee_group_subscriptions_procedure "g" "2" full_context).state "g" "2"
    ≡ assign (group_at full_context) "g" "2" none "g" "2"
remove-group_at_example = remove-group_at full_context "g" "2" "g" "2"

update-group_at_example :
    group_at
      (update_ee_group_subscriptions_procedure "g" "2" (record { rest = null }) full_context).state
      "g"
      "2"
    ≡ assign (group_at full_context) "g" "2" (some (record { rest = null })) "g" "2"
unfolding lookup
update-group_at_example = update-group_at full_context "g" "2" "g" "2" (record { rest = null })

abbrev one_ee : UdrContext
one_ee = (handle env (create_ee "imsi-1" ee) (init_tables blank_context)).state

handle_returns_example : (handle env (query_ee "imsi-1") one_ee).result ≡ some tt
handle_returns_example =
    handle_returns env (query_ee "imsi-1") 1 one_ee (λ m. Perm.refl m)
      (handle-IsSound env (create_ee "imsi-1" ee) 0 (init_tables blank_context) (omega arith)
        (init-IsSound blank_context refl refl))
      tt

abbrev influence : TrafficInfluSub
influence = record {
  dnns = "internet" ∷ [];
  snssais = [];
  internal_group_ids = [];
  supis = [];
  notification_uri = "http://af";
  rest = null;
}

serve-AllPointers_example : AllPointers (
    serve env
      (post_influence "1" influence ∷ put_influence "2" influence ∷ delete_influence "1" ∷ [])
      (init_tables blank_context))
serve-AllPointers_example =
    serve-AllPointers env
      (post_influence "1" influence ∷ put_influence "2" influence ∷ delete_influence "1" ∷ [])
      blank_context refl
