-- ===== src/Tests/Http.antt =====
-- Concrete requests to the router, and the theorems on the router, the handlers and the registration at
-- concrete inputs.
use Prim.Native.String.{String, ◌++◌}
use free5gc_udr.Base.{
  ℕ, ◌≡◌, ◌≢◌, ◌↔◌, ◌=ℕ=◌, refl, true, false, List, [], ◌∷◌, Option, none, some, arith, entries,
  lookup,
}
use free5gc_udr.Base.Int.{pos, itoa}
use free5gc_udr.Models.{get, Document, end, field, bool, null}
use free5gc_udr.Context.{UdrContext, init_tables}
use free5gc_udr.Gin.{answers}
use free5gc_udr.Database as Database
use free5gc_udr.Database.{by}
use free5gc_udr.Sdm.Spec.{sdm_at}
use free5gc_udr.Ee.Laws.{collection_at}
use free5gc_udr.EeGroup.Laws.{group_at}
use free5gc_udr.System.Soundness.{data_at}
use free5gc_udr.System.{serve}
use free5gc_udr.Provisioned.{ProvisionedCodec}
use free5gc_udr.Policy.SmData.{SmPolicyCodec, sm_data_patch_procedure}
use free5gc_udr.Policy.SmData.Laws.{EndsWithProblem, sm_data_patch_procedure-EndsWithProblem}
use free5gc_udr.Sbi.{Incoming, Decoder, Outside, World}
use free5gc_udr.Sbi.Applications.{handle_get_shared_data}
use free5gc_udr.Sbi.Applications.Laws.{handle_get_shared_data-join_comma}
use free5gc_udr.Sbi.Policies.{handle_policy_data_subs_to_notify_post, zero_subscription}
use free5gc_udr.Sbi.Answers.{handle_policy_data_subs_to_notify_post_lem}
use free5gc_udr.Sbi.Server.{Oauth, Call, serve_http, serve_all}
use free5gc_udr.Sbi.Server.Calls.{requests}
use free5gc_udr.Sbi.Server.Laws.{IsUnauthorized, serve_http-IsUnauthorized}
use free5gc_udr.Sbi.Server.Requests.{serve_all-serve, serve_all-next_is_unused}
use free5gc_udr.Nrf.{
  Registered, failed, answered, context_done, waiting, send_register_nf_instance, register_to_nrf,
}
use free5gc_udr.Nrf.Laws.{
  AsksOauth2, NotBefore, stands_not_before, NotBefore-stands_not_before, AllFail,
  send_register_nf_instance_waits_iff, register_to_nrf-answered,
}
use free5gc_udr.Tests.Subscriptions.{blank_context, env, sdm}
use free5gc_udr.Tests.Documents.{one_document, codec}

abbrev provisioned : ProvisionedCodec
provisioned = record {
  decode = λ type_name d. (null, some "not decoded");
  decode_sm_data = λ ds. (none, none);
  set_sm_data = λ list sets. some (record sets { sm_data = list });
  session_management_data = λ d. none;
}

abbrev sm_policy : SmPolicyCodec
sm_policy = record {
  equal_fold = λ a b. false;
  visit = λ d. d;
  sm_policy = λ d. record { sm_policy_snssai_data = []; um_data = none; rest = null };
  usage_mon = λ d. record { limit_id = ""; rest = null };
  usage_mons = λ ds. [];
  to_bson_m = λ u. end;
  sm_policy_json = λ s. null;
  usage_mon_json = λ u. null;
}

-- A decoder that takes every text for an SDM subscription and for nothing else.
abbrev decode : Decoder
decode = record {
  patch_items = λ s. Database.err "no items";
  sdm_subscription = λ s. Database.ok sdm;
  ee_subscription = λ s. Database.err "no subscription";
  amf_subscription_infos = λ s. Database.err "no infos";
  data_subscription = λ s. Database.err "no subscription";
  influ_sub = λ s. Database.err "no subscription";
  influ_data = λ s. Database.err "no data";
  value = λ type_name s. Database.err "no value";
  to_bson_m = λ v. end;
  snssai = λ s. record { sst = pos 0; sd = "" };
  snssais = λ s. [];
  snssai_with_error = λ s. (record { sst = pos 0; sd = "" }, none);
  by_value = λ s. some "no pointer";
  ue_policy_set = λ d. Database.err "no set";
  usage_mon_data = λ s. Database.err "no map";
}

abbrev outside : Outside (Option Document)
outside = record {
  mongo = one_document;
  codec = codec;
  provisioned = provisioned;
  sm_policy = sm_policy;
  decode = decode;
  env = env;
}

-- Every token is refused.
abbrev oauth : Oauth
oauth = record {
  verify_oauth = λ token service cert. some "refused";
  nudr_dr = "nudr-dr";
  nudr_group_id_map = "nudr-group-id-map";
  nhss_ims_sdm = "nhss-ims-sdm";
}

-- The UE is `imsi-1`, whatever the name of the parameter.
abbrev incoming : Incoming
incoming = record {
  param = λ name. "imsi-1";
  query_array = λ key. [];
  authorization = "";
  body = Database.ok "{}";
  partial_body = "";
  drawn = 7;
}

abbrev calls : List Call
calls =
    record {
      method = "POST";
      path = "/nudr-dr/v2/subscription-data/:ueId/:servingPlmnId/sdm-subscriptions";
      incoming = incoming;
    }
    ∷ record { method = "GET"; path = "/nhss-ims-sdm/v1/"; incoming = incoming }
    ∷ []

abbrev world : World (Option Document)
world = record { context = init_tables blank_context; db = none }

abbrev locked_world : World (Option Document)
locked_world = record { context = record blank_context { oauth2_required = true }; db = none }

serve_all-serve_example :
    (serve_all outside oauth calls world).context
    ≡ serve env (requests outside oauth calls world.context) world.context
serve_all-serve_example = serve_all-serve outside oauth calls world

serve_all-next_is_unused_example :
    (let d : UdrContext = (serve_all outside oauth calls world).context in
      ((ue : String) → sdm_at d ue (itoa d.sdm_subscription_id_generator) ≡ none)
      × ((ue : String) → collection_at d ue (itoa d.ee_subscription_id_generator) ≡ none)
      × ((group : String) → group_at d group (itoa d.ee_subscription_id_generator) ≡ none)
      × ((a : String) → data_at d a (itoa d.subscription_data_subscription_id_generator) ≡ none))
serve_all-next_is_unused_example =
    serve_all-next_is_unused outside oauth calls blank_context none refl refl (omega arith)

abbrev get_am_data : Call
get_am_data = record {
  method = "GET";
  path = "/nudr-dr/v2/subscription-data/:ueId/:servingPlmnId/provisioned-data/am-data";
  incoming = incoming;
}

refused : (service : String) → ◌≢◌ {A = Option String} (some "refused") none
refused service = λ e. absurd (ground (arith, e))

serve_http-IsUnauthorized_example :
    ((serve_http outside oauth get_am_data locked_world).state ≡ locked_world)
    × IsUnauthorized (serve_http outside oauth get_am_data locked_world).actions
serve_http-IsUnauthorized_example =
    serve_http-IsUnauthorized outside oauth get_am_data locked_world refl refused

handle_policy_data_subs_to_notify_post_lem_example :
    (lookup (itoa (pos 1)) (
        entries
          (handle_policy_data_subs_to_notify_post outside incoming
            world).state.context.policy_data_subscriptions)
      ≡ some zero_subscription)
    × (answers (handle_policy_data_subs_to_notify_post outside incoming world).actions ≡ 2)
unfolding init_tables
handle_policy_data_subs_to_notify_post_lem_example =
    handle_policy_data_subs_to_notify_post_lem outside incoming world [] refl

sm_data_patch_procedure-EndsWithProblem_example : EndsWithProblem (
    sm_data_patch_procedure one_document sm_policy "c" "imsi-1"
      (("m", record { limit_id = "m"; rest = null }) ∷ [])
      (some end))
sm_data_patch_procedure-EndsWithProblem_example =
    sm_data_patch_procedure-EndsWithProblem one_document sm_policy "c" "imsi-1"
      (("m", record { limit_id = "m"; rest = null }) ∷ []) (some end)

other_than_comma : (n : ℕ) → (n =ℕ= b',') ≡ false → n ≢ b','
other_than_comma n h = ground (arith, h)

abbrev asking_for : List String → Incoming
asking_for ids = record incoming { query_array = λ key. ids }

handle_get_shared_data-join_comma_example :
    handle_get_shared_data outside (asking_for ("a,b" ∷ [])) world
    ≡ handle_get_shared_data outside (asking_for ("a" ∷ "b" ∷ [])) world
handle_get_shared_data-join_comma_example =
    handle_get_shared_data-join_comma outside "a" ("b" ∷ [])
      ((other_than_comma b'a' refl, tt), ((other_than_comma b'b' refl, tt), tt))
      (asking_for ("a,b" ∷ [])) (asking_for ("a" ∷ "b" ∷ [])) refl refl world

send_register_nf_instance_waits_iff_example :
    ((send_register_nf_instance (failed ∷ context_done ∷ []) blank_context).0 ≡ waiting)
    ↔ AllFail (failed ∷ context_done ∷ [])
send_register_nf_instance_waits_iff_example =
    send_register_nf_instance_waits_iff (failed ∷ context_done ∷ []) blank_context

abbrev answer : Registered
answer = record {
  location = "https://127.0.0.10:8000/nnrf-nfm/v1/nf-instances/42";
  custom_info = some (field "oauth2" (bool true) end);
}

asked : (true ≡ true) ↔ AsksOauth2 answer.custom_info
unfolding get
asked = (λ _. (field "oauth2" (bool true) end, refl, refl), λ _. refl)

base_first :
    NotBefore "/nnrf-nfm/" "https://127.0.0.10:8000"
      ("/nnrf-nfm/" ++ ("v1/nf-instances" ++ ("/" ++ "42")))
unfolding stands_not_before
base_first =
    NotBefore-stands_not_before "/nnrf-nfm/" "https://127.0.0.10:8000"
      ("/nnrf-nfm/" ++ ("v1/nf-instances" ++ ("/" ++ "42"))) refl

register_to_nrf-answered_example :
    register_to_nrf (failed ∷ answered answer ∷ []) blank_context ≡ record blank_context {
      oauth2_required = true;
      nrf_uri = "https://127.0.0.10:8000";
      nf_id = "42";
    }
register_to_nrf-answered_example =
    register_to_nrf-answered (failed ∷ []) answer [] "https://127.0.0.10:8000" "v1/nf-instances"
      "42" true blank_context (refl, tt) refl base_first (omega arith, (omega arith, tt)) asked
