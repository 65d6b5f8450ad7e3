-- ===== src/Context.antt =====
-- internal/context/context.go: the state that the handlers share. The models of the sync.Map fields
-- are association lists; the pointers that they hold are never shared between two keys, so a write
-- through one is a write at its key.
use Prim.Native.String.{String, ◌++◌}
use free5gc_udr.Base.{ℕ, ◌+◌, ◌%◌, ◌^◌, List, [], Option, none, some, Bool, if◌then◌else◌, GoMap}
use free5gc_udr.Base.Int.{ℤ, pos, itoa}
use free5gc_udr.Base.Numbers.{print, pad_zeros}
use free5gc_udr.Models.{
  SdmSubscription, EeSubscription, AmfSubscriptionInfo, SubscriptionDataSubscriptions,
  PolicyDataSubscription, TrafficInfluSub,
}

-- `none` is a nil pointer, and a nil slice.
pub record EeSubscriptionCollection : Type 0 where
  pub ee_subscriptions : Option EeSubscription
  pub amf_subscription_infos : Option (List AmfSubscriptionInfo)

pub record UeSubsData : Type 0 where
  pub ee_subscription_collection : GoMap EeSubscriptionCollection
  pub sdm_subscriptions : GoMap SdmSubscription

pub record UeGroupSubsData : Type 0 where
  pub ee_subscriptions : GoMap EeSubscription

-- A Go `interface{}` that holds a models.TrafficInfluSub or a pointer to one, as the values of the
-- sync.Map of influence data subscriptions do: every store in the repository is of a pointer.
pub data InfluEntry : Type 0 where
  pointer struct : TrafficInfluSub → InfluEntry

pub record UdrContext : Type 0 where
  pub name : String
  pub uri_scheme : String
  pub binding_ipv4 : String
  pub register_ipv4 : String
  pub nf_id : String
  pub nrf_uri : String
  pub nrf_cert_pem : String
  pub sbi_port : ℤ
  pub ee_subscription_id_generator : ℤ
  pub sdm_subscription_id_generator : ℤ
  pub subscription_data_subscription_id_generator : ℤ
  pub policy_data_subscription_id_generator : ℤ
  pub ue_subs_collection : List (String × UeSubsData)
  pub ue_group_collection : List (String × UeGroupSubsData)
  pub subscription_data_subscriptions : GoMap SubscriptionDataSubscriptions
  pub policy_data_subscriptions : GoMap PolicyDataSubscription
  pub influence_data_subscriptions : List (String × InfluEntry)
  pub app_data_influ_data_subscription_id_generator : ℕ
  pub oauth2_required : Bool

-- The counters and tables that `Init` sets up; the other fields come from the configuration.
unfoldable pub init_tables : UdrContext → UdrContext
init_tables c = record c {
  name = "udr";
  ee_subscription_id_generator = pos 1;
  sdm_subscription_id_generator = pos 1;
  subscription_data_subscription_id_generator = pos 1;
  policy_data_subscription_id_generator = pos 1;
  subscription_data_subscriptions = some [];
  policy_data_subscriptions = some [];
}

-- A loop that deletes every key of a map: a nil map stays nil.
clear : {V : Type 0} → GoMap V → GoMap V
clear none = none
clear (some m) = some []

-- `https` is models.UriScheme_HTTPS.
unfoldable pub reset : String → UdrContext → UdrContext
unfolding clear
reset https c = record c {
  ue_subs_collection = [];
  ue_group_collection = [];
  subscription_data_subscriptions = clear c.subscription_data_subscriptions;
  policy_data_subscriptions = clear c.policy_data_subscriptions;
  influence_data_subscriptions = [];
  ee_subscription_id_generator = pos 1;
  sdm_subscription_id_generator = pos 1;
  subscription_data_subscription_id_generator = pos 1;
  policy_data_subscription_id_generator = pos 1;
  uri_scheme = https;
  name = "udr";
}

-- `%s://%s:%d` of the scheme, the registered address and the port.
unfoldable pub get_ipv4_uri : UdrContext → String
get_ipv4_uri c = c.uri_scheme ++ "://" ++ c.register_ipv4 ++ ":" ++ itoa c.sbi_port

pub data UdrServiceType : Type 0 where
  nudr_dr unknown_service : UdrServiceType

-- factory.UdrDrResUriPrefix
abbrev pub udr_dr_res_uri_prefix : String
udr_dr_res_uri_prefix = "/nudr-dr/v2"

service_uri : UdrServiceType → String
service_uri nudr_dr = udr_dr_res_uri_prefix
service_uri unknown_service = ""

unfoldable pub get_ipv4_group_uri : UdrServiceType → UdrContext → String
unfolding service_uri
get_ipv4_group_uri t c =
    c.uri_scheme ++ "://" ++ c.register_ipv4 ++ ":" ++ itoa c.sbi_port ++ service_uri t

-- The uint64 counter under the lock: the new context and the identifier.
unfoldable pub new_app_data_influ_data_subscription_id : UdrContext → UdrContext × ℕ
new_app_data_influ_data_subscription_id c =
    let next = (c.app_data_influ_data_subscription_id_generator + 1) % 2 ^ 64 in
    (record c { app_data_influ_data_subscription_id_generator = next }, next)

-- `%08x` of the number that the random generator draws, below 2^32.
unfoldable pub new_influence_data_subscription_id : ℕ → String
new_influence_data_subscription_id drawn = pad_zeros 8 (print 16 drawn)

-- The answer of oauth.VerifyOAuth, which is not part of the repository, is `verify_oauth`:
-- an error text or none. The token is looked at only if OAuth2 is required.
unfoldable pub authorization_check :
    UdrContext → (String → String → String → Option String) → String → String → Option String
authorization_check c verify_oauth token service_name =
    if c.oauth2_required then verify_oauth token service_name c.nrf_cert_pem else none
