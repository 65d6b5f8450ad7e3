-- ===== src/Callback.antt =====
-- internal/sbi/processor/callback.go: which notifications a change makes, and to whom they go. The
-- requests are sent by the generated client, outside the repository: a sender is the list of the
-- requests that it makes. The visits are the orders in which the maps are ranged over.
pub mod Laws
use Prim.Native.String.{String, ◌++◌}
use free5gc_udr.Base.{
  Bool, true, false, List, [], ◌∷◌, map, Option, none, some, ◌==◌, if◌then◌else◌, values,
}
use free5gc_udr.Models.{
  Document, PatchItem, ChangeItem, NotifyItem, PolicyValue, am_policy_data, ue_policy_set,
  sm_policy_data, usage_mon_data, sponsor_connectivity_data, bdt_data, unlisted,
  PolicyDataChangeNotification, SubscriptionDataSubscriptions, PolicyDataSubscription,
  TrafficInfluSub, TrafficInfluData,
}
use free5gc_udr.Context.{UdrContext, InfluEntry, pointer, struct, nudr_dr, get_ipv4_group_uri}
use free5gc_udr.Gin.{Action, Task, data_change, policy_change, influence_update, spawn}
use free5gc_udr.Matching.{check_influence_data_subscription}

-- CurrentResourceUri: a package variable that nothing in the repository assigns.
abbrev pub current_resource_uri : String
current_resource_uri = ""

change_of : Option Document → Option Document → PatchItem → ChangeItem
change_of orig_value new_value item = record {
  op = item.op;
  path = item.path;
  from = item.from;
  orig_value = orig_value;
  new_value = new_value;
}

unfoldable pub pre_handle_on_data_change_notify :
    String → String → List PatchItem → Option Document → Option Document → Action
unfolding change_of
pre_handle_on_data_change_notify ue_id resource_id patch_items orig_value new_value = spawn (
    data_change ue_id (
      record {
        resource_id = resource_id;
        changes = map (change_of orig_value new_value) patch_items;
      }
      ∷ []))

-- The notification before the type switch.
abbrev pub blank : String → PolicyDataChangeNotification
blank ue_id = record {
  ue_id = ue_id;
  am_policy_data = none;
  ue_policy_set = none;
  sm_policy_data = none;
  usage_mon_id = "";
  usage_mon_data = none;
  sponsor_id = "";
  sponsor_connectivity_data = none;
  bdt_ref_id = "";
  bdt_data = none;
}

-- The type switch; `none` is its default.
unfoldable pub policy_notification :
    String → String → PolicyValue → Option PolicyDataChangeNotification
policy_notification ue_id data_id (am_policy_data v) =
    some (record (blank ue_id) { am_policy_data = some v })
policy_notification ue_id data_id (ue_policy_set v) =
    some (record (blank ue_id) { ue_policy_set = some v })
policy_notification ue_id data_id (sm_policy_data v) =
    some (record (blank ue_id) { sm_policy_data = some v })
policy_notification ue_id data_id (usage_mon_data v) =
    some (record (blank ue_id) { usage_mon_id = data_id; usage_mon_data = some v })
policy_notification ue_id data_id (sponsor_connectivity_data v) =
    some (record (blank ue_id) { sponsor_id = data_id; sponsor_connectivity_data = some v })
policy_notification ue_id data_id (bdt_data v) =
    some (record (blank ue_id) { bdt_ref_id = data_id; bdt_data = some v })
policy_notification ue_id data_id (unlisted v) = none

unfoldable pub pre_handle_policy_data_change_notification :
    String → String → PolicyValue → List Action
unfolding policy_notification
pre_handle_policy_data_change_notification ue_id data_id value =
    elim (policy_notification ue_id data_id value) [
      | none ↦ []
      | some n ↦ spawn (policy_change n) ∷ []
    ]

unfoldable pub pre_handle_influence_data_update_notification :
    UdrContext → String → Option TrafficInfluData → Option TrafficInfluData → Action
pre_handle_influence_data_update_notification c influence_id original modified = spawn (
    influence_update
      (get_ipv4_group_uri nudr_dr c ++ "/application-data/influenceData/" ++ influence_id) original
      modified)

-- The request of SendOnDataChangeNotify.
pub record DataChangePost : Type 0 where
  pub url : String
  pub ue_id : String
  pub original_callback_reference : List String
  pub notify_items : List NotifyItem

data_change_post : String → List NotifyItem → SubscriptionDataSubscriptions → DataChangePost
data_change_post ue_id items sub = record {
  url = sub.callback_reference;
  ue_id = ue_id;
  original_callback_reference = sub.original_callback_reference ∷ [];
  notify_items = items;
}

unfoldable pub send_on_data_change_notify :
    String → List NotifyItem → List SubscriptionDataSubscriptions → List DataChangePost
unfolding data_change_post
send_on_data_change_notify ue_id items [] = []
send_on_data_change_notify ue_id items (sub ∷ more) =
    let rest = send_on_data_change_notify ue_id items more in
    if ue_id == sub.ue_id then data_change_post ue_id items sub ∷ rest else rest

-- The request of SendPolicyDataChangeNotification: the URL and the list with the notification.
unfoldable pub send_policy_data_change_notification :
    PolicyDataChangeNotification
    → List PolicyDataSubscription
    → List (String × List PolicyDataChangeNotification)
send_policy_data_change_notification n [] = []
send_policy_data_change_notification n (sub ∷ more) =
    (sub.notification_uri, n ∷ []) ∷ send_policy_data_change_notification n more

-- The request of SendInfluenceDataUpdateNotification; data that is nil tells a removal.
pub record InfluencePost : Type 0 where
  pub url : String
  pub res_uri : String
  pub traffic_influ_data : Option TrafficInfluData

-- What one subscription is told, if anything.
unfoldable pub influence_post :
    String
    → Option TrafficInfluData
    → Option TrafficInfluData
    → TrafficInfluSub
    → Option InfluencePost
influence_post res_uri original modified sub =
    if check_influence_data_subscription modified (some sub)
    then some
        (record { url = sub.notification_uri; res_uri = res_uri; traffic_influ_data = modified })
    else if check_influence_data_subscription original (some sub)
    then some (record { url = sub.notification_uri; res_uri = res_uri; traffic_influ_data = none })
    else none

-- The callback of Range: a value that is not a pointer to a subscription is passed over.
unfoldable pub send_influence_data_update_notification :
    String
    → Option TrafficInfluData
    → Option TrafficInfluData
    → List InfluEntry
    → List InfluencePost
send_influence_data_update_notification res_uri original modified [] = []
send_influence_data_update_notification res_uri original modified (struct _ ∷ more) =
    send_influence_data_update_notification res_uri original modified more
send_influence_data_update_notification res_uri original modified (pointer sub ∷ more) =
    let rest = send_influence_data_update_notification res_uri original modified more in
    elim (influence_post res_uri original modified sub) [ none ↦ rest | some p ↦ p ∷ rest ]
