-- ===== src/Tests/Notifications.antt =====
-- Concrete subscriptions and data, and the theorems on notifications and conversions at
-- concrete inputs.
use Prim.Native.String.{String, ◌++◌}
use free5gc_udr.Base.{
  ◌⊎◌, ◌≡◌, refl, ◌↔◌, ◌≢◌, inl, Bool, true, false, List, [], ◌∷◌, none, some, arith, lookup,
  if◌then◌else◌, ◌==◌,
}
use free5gc_udr.Base.Int.{pos}
use free5gc_udr.Models.{
  null, SubscriptionDataSubscriptions, PolicyDataSubscription, Snssai, TrafficInfluSub,
  TrafficInfluData,
}
use free5gc_udr.Problem.{not_found}
use free5gc_udr.Context.{UdrContext, pointer, nudr_dr, get_ipv4_group_uri}
use free5gc_udr.Gin.{answers, header, json, set_problem, problem, influ_sub}
use free5gc_udr.Matching.{check_influence_data_subscription}
use free5gc_udr.Matching.Laws.{Listed, BothCovered, check_influence_data_subscription_iff}
use free5gc_udr.Callback.{
  DataChangePost, InfluencePost, send_on_data_change_notify,
  send_influence_data_update_notification,
}
use free5gc_udr.Callback.Laws.{
  Told, send_on_data_change_notify_iff, send_influence_data_update_notification_iff,
}
use free5gc_udr.Influence.{
  store_sub, influence_data_subs_to_notify_post_procedure,
  influence_data_subs_to_notify_put_procedure, influence_data_subs_to_notify_id_get_procedure,
  influence_data_subs_to_notify_delete_procedure,
}
use free5gc_udr.Influence.Laws.{
  NamesSomething, bad_request, nothing_named, no_uri, IsComplete, AllPointers, get-post,
  put-stores_or_rejects, get-delete,
}
use free5gc_udr.Notify.{policy_data_subs_to_notify_subs_id_put_procedure}
use free5gc_udr.Notify.Laws.{policy_at, put_answers_once_iff}
use free5gc_udr.Convert.{escape_dnn, unescape_dnn, snssai_models_to_hex, snssai_hex_to_models, ok}
use free5gc_udr.Convert.Laws.{
  Lacks, unescape_dnn-escape_dnn, snssai_hex_to_models-snssai_models_to_hex,
}

abbrev slice : Snssai
slice = record { sst = pos 1; sd = "010203" }

abbrev sub : TrafficInfluSub
sub = record {
  dnns = "internet" ∷ [];
  snssais = slice ∷ [];
  internal_group_ids = [];
  supis = "imsi-1" ∷ [];
  notification_uri = "http://af/notify";
  rest = null;
}

abbrev pub data_of_ue : TrafficInfluData
data_of_ue = record {
  dnn = "internet";
  snssai = some slice;
  inter_group_id = "";
  supi = "imsi-1";
  rest = null;
}

abbrev pub context_with_sub : UdrContext
context_with_sub = record {
  name = "udr";
  uri_scheme = "http";
  binding_ipv4 = "127.0.0.4";
  register_ipv4 = "127.0.0.4";
  nf_id = "1";
  nrf_uri = "https://127.0.0.10:8000";
  nrf_cert_pem = "";
  sbi_port = pos 8000;
  ee_subscription_id_generator = pos 1;
  sdm_subscription_id_generator = pos 1;
  subscription_data_subscription_id_generator = pos 1;
  policy_data_subscription_id_generator = pos 1;
  ue_subs_collection = [];
  ue_group_collection = [];
  subscription_data_subscriptions = some [];
  policy_data_subscriptions = some [];
  influence_data_subscriptions = ("00000001", pointer sub) ∷ [];
  app_data_influ_data_subscription_id_generator = 0;
  oauth2_required = false;
}

check_influence_data_subscription_iff_example :
    (check_influence_data_subscription (some data_of_ue) (some sub) ≡ true)
    ↔ BothCovered (some data_of_ue) (some sub)
check_influence_data_subscription_iff_example =
    check_influence_data_subscription_iff (some data_of_ue) (some sub)

abbrev subscriber : String → SubscriptionDataSubscriptions
subscriber ue = record {
  ue_id = ue;
  callback_reference = "http://nf/" ++ ue;
  original_callback_reference = "";
  rest = null;
}

abbrev subscribers : List SubscriptionDataSubscriptions
subscribers = subscriber "imsi-1" ∷ subscriber "imsi-2" ∷ []

abbrev post : DataChangePost
post = record {
  url = "http://nf/imsi-2";
  ue_id = "imsi-2";
  original_callback_reference = "" ∷ [];
  notify_items = [];
}

send_on_data_change_notify_iff_example :
    Listed post (send_on_data_change_notify "imsi-2" [] subscribers) ↔ (
      (s : SubscriptionDataSubscriptions) × Listed s subscribers
      × (s.ue_id ≡ "imsi-2")
      × (record {
        url = s.callback_reference;
        ue_id = "imsi-2";
        original_callback_reference = s.original_callback_reference ∷ [];
        notify_items = [];
      }
          ≡ post))
send_on_data_change_notify_iff_example = send_on_data_change_notify_iff "imsi-2" [] subscribers post

abbrev removal : InfluencePost
removal = record { url = "http://af/notify"; res_uri = "r"; traffic_influ_data = none }

send_influence_data_update_notification_iff_example :
    Listed removal
      (send_influence_data_update_notification "r" (some data_of_ue) none (pointer sub ∷ []))
    ↔ ((s : TrafficInfluSub) × Listed (pointer s) (pointer sub ∷ [])
        × Told "r" (some data_of_ue) none s removal)
send_influence_data_update_notification_iff_example =
    send_influence_data_update_notification_iff "r" (some data_of_ue) none (pointer sub ∷ [])
      removal

pointers : AllPointers context_with_sub
unfolding lookup
pointers id s e = ground arith

complete : IsComplete sub
complete = (inl (λ e. cc), λ e. cc)

abbrev same : TrafficInfluSub → TrafficInfluSub → Bool
same a b = true

get-post_example :
    (influence_data_subs_to_notify_post_procedure same "00000001" sub context_with_sub ≡ record {
      result = some tt;
      state = store_sub "00000001" sub context_with_sub;
      actions =
          header "Location" (
            get_ipv4_group_uri nudr_dr context_with_sub
            ++ "/application-data/influenceData/subs-to-notify/"
            ++ "00000001")
          ∷ json 201 (influ_sub sub)
          ∷ [];
    })
    × ((influence_data_subs_to_notify_id_get_procedure "00000001"
          (store_sub "00000001" sub context_with_sub)).actions
        ≡ json 200 (influ_sub sub) ∷ [])
get-post_example = get-post same "00000001" sub context_with_sub pointers complete

put-stores_or_rejects_example :
    (IsComplete sub
      × (influence_data_subs_to_notify_put_procedure same "00000001" sub context_with_sub ≡ record {
        result = some tt;
        state = store_sub "00000001" sub context_with_sub;
        actions = json 200 (influ_sub sub) ∷ [];
      }))
    ⊎ ((¬ NamesSomething sub)
        × (influence_data_subs_to_notify_put_procedure same "00000001" sub context_with_sub
            ≡ record {
              result = some tt;
              state = context_with_sub;
              actions = bad_request nothing_named;
            }))
    ⊎ (NamesSomething sub
        × (sub.notification_uri ≡ "")
        × (influence_data_subs_to_notify_put_procedure same "00000001" sub context_with_sub
            ≡ record { result = some tt; state = context_with_sub; actions = bad_request no_uri }))
put-stores_or_rejects_example = put-stores_or_rejects same "00000001" sub context_with_sub pointers

get-delete_example :
    (let d : UdrContext =
        (influence_data_subs_to_notify_delete_procedure "00000001" context_with_sub).state in
      ((influence_data_subs_to_notify_id_get_procedure "00000001" d).actions
        ≡ set_problem "USER_NOT_FOUND" ∷ json 404 (problem (not_found "USER_NOT_FOUND")) ∷ [])
      × (lookup "2" d.influence_data_subscriptions ≡ (
          if "00000001" == "2"
          then none
          else lookup "2" context_with_sub.influence_data_subscriptions)))
get-delete_example = get-delete "00000001" "2" context_with_sub

abbrev policy : PolicyDataSubscription
policy = record { notification_uri = "http://pcf"; rest = null }

put_answers_once_iff_example :
    ((id' : String)
      → policy_at
          (policy_data_subs_to_notify_subs_id_put_procedure "5" policy context_with_sub).state
          id'
        ≡ (if "5" == id' then some policy else policy_at context_with_sub id'))
    × ((answers
            (policy_data_subs_to_notify_subs_id_put_procedure "5" policy context_with_sub).actions
          ≡ 1)
        ↔ (policy_at context_with_sub "5" ≢ none))
put_answers_once_iff_example = put_answers_once_iff context_with_sub "5" policy [] refl

lacks : Lacks b'_' "a.b"
lacks = (λ e. omega arith, (λ e. omega arith, (λ e. omega arith, tt)))

unescape_dnn-escape_dnn_example : unescape_dnn (escape_dnn "a.b") ≡ "a.b"
unescape_dnn-escape_dnn_example = unescape_dnn-escape_dnn "a.b" lacks

snssai_hex_to_models-snssai_models_to_hex_example :
    snssai_hex_to_models (snssai_models_to_hex slice) ≡ ok slice
snssai_hex_to_models-snssai_models_to_hex_example =
    snssai_hex_to_models-snssai_models_to_hex 1 "010203" (omega arith)
