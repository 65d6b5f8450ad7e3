-- ===== src/Sbi/Expected.antt =====
-- What a call to the API stands for, apart from how the code gets there: the request of the processor
-- of each method and path that concerns the context, and when a call has none. Where the code departs
-- from the API, by what a body is decoded into or by a missing return, the table says what the code does.
use Prim.Native.String.{String, ◌++◌}
use free5gc_udr.Base.{
  Bool, ◌==◌, ◌&&◌, if◌then◌else◌, List, [], ◌∷◌, ◌++◌ as ◌+++◌, Option, none, some,
}
use free5gc_udr.Models.{Snssai}
use free5gc_udr.Context.{new_influence_data_subscription_id}
use free5gc_udr.Database.{Result, ok, err}
use free5gc_udr.System.{
  Request, create_sdm, query_sdm, remove_sdm, update_sdm, create_ee, query_ee, remove_ee, update_ee,
  create_infos, remove_infos, get_infos, modify_infos, create_group, query_group, remove_group,
  update_group, post_data, remove_data, post_policy, delete_policy, put_policy, post_influence,
  put_influence, get_influence, delete_influence, list_influence,
}
use free5gc_udr.Sbi.{Incoming, Outside, Decoder, query_value}
use free5gc_udr.Sbi.Patterns.{is_ue_id, is_ue_group_id}
use free5gc_udr.Sbi.Policies.{zero_subscription}

-- Nothing is requested for a UE with no identifier.
unfoldable pub of_ue : Incoming → (String → Option Request) → Option Request
of_ue req k = if req.param "ueId" == "" then none else k (req.param "ueId")

-- Nothing is requested with a body that cannot be read or decoded.
unfoldable pub of_body :
    {A : Type 0} → (String → Result A) → Incoming → (A → Option Request) → Option Request
of_body decode req k = elim req.body [
  | err e ↦ none
  | ok raw ↦ elim (decode raw) [ err e ↦ none | ok a ↦ k a ]
]

-- Nothing is requested for a parameter that is not valid.
unfoldable pub of_valid : Bool → Option Request → Option Request
of_valid valid r = if valid then r else none

-- The S-NSSAI of a query, which may be left out.
abbrev pub asked_slice : Decoder → String → Option Snssai
asked_slice decode query = if query == "" then none else some ((decode.snssai_with_error query).0)

-- A method and a path, and what they request.
pub record Entry : Type 0 where
  pub method : String
  pub path : String
  pub request : Incoming → Option Request

abbrev entry : String → String → (Incoming → Option Request) → Entry
entry method path request = record {
  method = method;
  path = "/nudr-dr/v2" ++ path;
  request = request;
}

module _ {Db : Type 0} (o : Outside Db) where
  -- Subscriptions to influence data.
  unfoldable pub influence_entries : List Entry
  influence_entries =
      entry "DELETE" "/application-data/influenceData/:influenceId/:subscriptionId"
        (λ req. some (delete_influence (req.param "subscriptionId")))
      ∷ entry "GET" "/application-data/influenceData/:influenceId/:subscriptionId"
          (λ req. some (get_influence (req.param "subscriptionId")))
      ∷ entry "PUT" "/application-data/influenceData/:influenceId/:subscriptionId" (λ req.
        of_body o.decode.influ_sub req
          (λ sub. some (put_influence (req.param "subscriptionId") sub)))
      ∷ entry "GET" "/application-data/influenceData/subs-to-notify" (λ req. some (
          list_influence (query_value req "dnn") (asked_slice o.decode (query_value req "snssai"))
            (query_value req "internal-Group-Id") (query_value req "supi")))
      ∷ entry "POST" "/application-data/influenceData/subs-to-notify" (λ req.
        of_body o.decode.influ_sub req
          (λ sub. some (post_influence (new_influence_data_subscription_id req.drawn) sub)))
      ∷ []

  -- Subscriptions to changes of policy data; what is posted or put is the zero subscription.
  unfoldable pub policy_entries : List Entry
  policy_entries =
      entry "POST" "/policy-data/subs-to-notify" (λ req. some (post_policy zero_subscription))
      ∷ entry "DELETE" "/policy-data/subs-to-notify/:subsId"
          (λ req. some (delete_policy (req.param "subsId")))
      ∷ entry "PUT" "/policy-data/subs-to-notify/:subsId"
          (λ req. some (put_policy (req.param "subsId") zero_subscription))
      ∷ []

  -- SDM subscriptions.
  unfoldable pub sdm_entries : List Entry
  sdm_entries =
      entry "DELETE" "/subscription-data/:ueId/:servingPlmnId/sdm-subscriptions/:subsId"
        (λ req. of_ue req (λ ue_id. some (remove_sdm ue_id (req.param "subsId"))))
      ∷ entry "PUT" "/subscription-data/:ueId/:servingPlmnId/sdm-subscriptions/:subsId" (λ req.
        of_body o.decode.sdm_subscription req
          (λ sub. of_ue req (λ ue_id. some (update_sdm ue_id (req.param "subsId") sub))))
      ∷ entry "POST" "/subscription-data/:ueId/:servingPlmnId/sdm-subscriptions" (λ req.
        of_body o.decode.sdm_subscription req (λ sub.
          of_ue req
            (λ ue_id. some (create_sdm sub "subscriptionData.contextData.amfNon3gppAccess" ue_id))))
      ∷ entry "GET" "/subscription-data/:ueId/:servingPlmnId/sdm-subscriptions"
          (λ req. of_ue req (λ ue_id. some (query_sdm ue_id)))
      ∷ []

  -- Subscription infos of the AMF, and subscriptions to changes of subscription data.
  unfoldable pub data_entries : List Entry
  data_entries =
      entry "PUT"
        "/subscription-data/:ueId/:servingPlmnId/ee-subscriptions/:subsId/amf-subscriptions"
        (λ req.
          of_body o.decode.amf_subscription_infos req
            (λ infos. of_ue req (λ ue_id. some (create_infos (req.param "subsId") ue_id infos))))
      ∷ entry "PATCH"
          "/subscription-data/:ueId/:servingPlmnId/ee-subscriptions/:subsId/amf-subscriptions"
          (λ req.
            of_body o.decode.patch_items req
              (λ items. of_ue req (λ ue_id. some (modify_infos ue_id (req.param "subsId") items))))
      ∷ entry "DELETE"
          "/subscription-data/:ueId/:servingPlmnId/ee-subscriptions/:subsId/amf-subscriptions"
          (λ req. of_ue req (λ ue_id. some (remove_infos (req.param "subsId") ue_id)))
      ∷ entry "GET"
          "/subscription-data/:ueId/:servingPlmnId/ee-subscriptions/:subsId/amf-subscriptions"
          (λ req. of_ue req (λ ue_id. some (get_infos (req.param "subsId") ue_id)))
      ∷ entry "POST" "/subscription-data/subs-to-notify"
          (λ req. of_body o.decode.data_subscription req (λ sub. some (post_data sub)))
      ∷ entry "DELETE" "/subscription-data/subs-to-notify/:subsId"
          (λ req. some (remove_data (req.param "subsId")))
      ∷ []

  -- Event exposure subscriptions, of UEs and of groups.
  unfoldable pub ee_entries : List Entry
  ee_entries =
      entry "POST" "/subscription-data/group-data/:ueGroupId/ee-subscriptions" (λ req.
        of_body o.decode.ee_subscription req (λ sub.
          of_valid (is_ue_group_id (req.param "ueGroupId"))
            (some (create_group (req.param "ueGroupId") sub))))
      ∷ entry "GET" "/subscription-data/group-data/:ueGroupId/ee-subscriptions" (λ req.
        of_valid (is_ue_group_id (req.param "ueGroupId"))
          (some (query_group (req.param "ueGroupId"))))
      ∷ entry "POST" "/subscription-data/:ueId/context-data/ee-subscriptions" (λ req.
        of_body o.decode.ee_subscription req
          (λ sub. of_ue req (λ ue_id. of_valid (is_ue_id ue_id) (some (create_ee ue_id sub)))))
      ∷ entry "GET" "/subscription-data/:ueId/context-data/ee-subscriptions"
          (λ req. of_ue req (λ ue_id. of_valid (is_ue_id ue_id) (some (query_ee ue_id))))
      ∷ entry "DELETE" "/subscription-data/:ueId/context-data/ee-subscriptions/:subsId"
          (λ req. of_ue req (λ ue_id. some (remove_ee ue_id (req.param "subsId"))))
      ∷ entry "PUT" "/subscription-data/:ueId/context-data/ee-subscriptions/:subsId" (λ req.
        of_body o.decode.ee_subscription req
          (λ sub. of_ue req (λ ue_id. some (update_ee ue_id (req.param "subsId") sub))))
      ∷ entry "PUT" "/subscription-data/group-data/:ueGroupId/ee-subscriptions/:subsId" (λ req.
        of_body o.decode.ee_subscription req
          (λ sub. some (update_group (req.param "ueGroupId") (req.param "subsId") sub)))
      ∷ entry "DELETE" "/subscription-data/group-data/:ueGroupId/ee-subscriptions/:subsId"
          (λ req. some (remove_group (req.param "ueGroupId") (req.param "subsId")))
      ∷ []

-- The request of the first entry with the method and the path.
unfoldable pub request_at : String → String → List Entry → Incoming → Option Request
request_at method path [] req = none
request_at method path (e ∷ es) req =
    let rest = request_at method path es req in
    if e.method == method && e.path == path then e.request req else rest

module _ {Db : Type 0} (o : Outside Db) where
  unfoldable pub entries : List Entry
  entries =
      influence_entries o +++ policy_entries o +++ sdm_entries o +++ data_entries o +++ ee_entries o

  -- What a call with a method and a path requests of the context; any other call requests nothing.
  unfoldable pub expected : String → String → Incoming → Option Request
  unfolding request_at entries influence_entries policy_entries sdm_entries data_entries ee_entries
  expected method path req = request_at method path entries req
