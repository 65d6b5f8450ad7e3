-- ===== src/Models.antt =====
-- The data that the handlers pass on. The types of the package github.com/free5gc/openapi/models
-- are not part of the repository: a record here has the fields that the repository's code reads or
-- writes, and `rest` stands for all the others.
use Prim.Native.String.{String}
use free5gc_udr.Base.{◌==◌, if◌then◌else◌, Bool, Option, none, some, List}
use free5gc_udr.Base.Int.{ℤ}

-- A Go `interface{}` as it is decoded from JSON or BSON, and `map[string]interface{}` (bson.M).
-- `other` stands for values that the code only passes on, such as a date, by their printed form.
mutual
  pub data Json : Type 0 where
    null : Json
    bool : Bool → Json
    number : ℤ → Json
    text : String → Json
    other : String → Json
    array : Items → Json
    object : Document → Json

  pub data Items : Type 0 where
    nil : Items
    cons : Json → Items → Items

  pub data Document : Type 0 where
    end : Document
    field : String → Json → Document → Document

-- `v, ok := d[k]`
unfoldable pub get : String → Document → Option Json
get k end = none
get k (field j v d) = if j == k then some v else get k d

-- `d[k] = v`
unfoldable pub put : String → Json → Document → Document
put k v end = field k v end
put k v (field j w d) = if j == k then field k v d else field j w (put k v d)

-- `delete(d, k)`
unfoldable pub remove : String → Document → Document
remove k end = end
remove k (field j w d) = if j == k then remove k d else field j w (remove k d)

pub record SdmSubscription : Type 0 where
  pub subscription_id : String
  pub rest : Json

pub record EeSubscription : Type 0 where
  pub rest : Json

pub record AmfSubscriptionInfo : Type 0 where
  pub rest : Json

pub record SubscriptionDataSubscriptions : Type 0 where
  pub ue_id : String
  pub callback_reference : String
  pub original_callback_reference : String
  pub rest : Json

pub record PolicyDataSubscription : Type 0 where
  pub notification_uri : String
  pub rest : Json

pub record Snssai : Type 0 where
  pub sst : ℤ
  pub sd : String

pub record TrafficInfluSub : Type 0 where
  pub dnns : List String
  pub snssais : List Snssai
  pub internal_group_ids : List String
  pub supis : List String
  pub notification_uri : String
  pub rest : Json

pub record TrafficInfluData : Type 0 where
  pub dnn : String
  pub snssai : Option Snssai
  pub inter_group_id : String
  pub supi : String
  pub rest : Json

pub record PatchItem : Type 0 where
  pub op : String
  pub path : String
  pub from : String
  pub rest : Json

pub record ChangeItem : Type 0 where
  pub op : String
  pub path : String
  pub from : String
  pub orig_value : Option Document
  pub new_value : Option Document

pub record NotifyItem : Type 0 where
  pub resource_id : String
  pub changes : List ChangeItem

-- The cases of the type switch in PreHandlePolicyDataChangeNotification.
pub data PolicyValue : Type 0 where
  am_policy_data ue_policy_set sm_policy_data usage_mon_data : Json → PolicyValue
  sponsor_connectivity_data bdt_data unlisted : Json → PolicyValue

-- An empty text or `none` stands for a field that is not set.
pub record PolicyDataChangeNotification : Type 0 where
  pub ue_id : String
  pub am_policy_data : Option Json
  pub ue_policy_set : Option Json
  pub sm_policy_data : Option Json
  pub usage_mon_id : String
  pub usage_mon_data : Option Json
  pub sponsor_id : String
  pub sponsor_connectivity_data : Option Json
  pub bdt_ref_id : String
  pub bdt_data : Option Json

pub record UsageMonData : Type 0 where
  pub limit_id : String
  pub rest : Json

-- A `SmPolicyDnnData` that is a nil map and an empty one are not told apart.
pub record SmPolicySnssaiData : Type 0 where
  pub sm_policy_dnn_data : List (String × Json)
  pub rest : Json

-- `none` is a nil map.
pub record SmPolicyData : Type 0 where
  pub sm_policy_snssai_data : List (String × SmPolicySnssaiData)
  pub um_data : Option (List (String × UsageMonData))
  pub rest : Json

-- models.ProvisionedDataSets: `sm_data` is the slice SmData.IndividualSmSubsData, and `none` is nil.
pub record ProvisionedDataSets : Type 0 where
  pub am_data : Option Json
  pub smf_sel_data : Option Json
  pub sms_subs_data : Option Json
  pub sm_data : Option (List Json)
  pub trace_data : Option Json
  pub sms_mng_data : Option Json

pub record IdentityData : Type 0 where
  pub gpsi_list : List String
  pub supi_list : List String
