-- ===== src/Lib.antt =====
-- The Unified Data Repository of a 5G core network, in Go: an HTTP service that keeps subscription,
-- policy and application data. Handlers read a request and call a procedure of the processor; a
-- procedure reads and writes the context in memory or the documents of a MongoDB database, answers
-- through gin, and may start goroutines that notify subscribers. This library models the procedures
-- and what they rest on, and proves what they do.
--
-- Shared: Base holds the helpers on numbers, texts, association lists (Go maps) and signed 64-bit
-- integers. Models holds the data types with the fields that the code looks at. Gin is the handler
-- monad: a step has a result (none is a panic), a state and the list of the actions asked of gin, the
-- answers and the goroutines. DeepEqual is reflect.DeepEqual on the types that the code compares.
--
-- What models which part of the repository:
--   Context          internal/context/context.go, UDRContext with Init, Reset, GetIPv4Uri,
--                    GetIPv4GroupUri, NewAppDataInfluDataSubscriptionID,
--                    NewInfluenceDataSubscriptionId, AuthorizationCheck
--   Problem          internal/util/util.go
--   Sbi              internal/sbi: Sbi.Queries, Writes, Contexts, Policies and Applications hold the
--                    handlers of api_datarepository.go, Sbi.Patterns what they use of regexp and
--                    strings, Sbi.Routes the tables of routes there and in api_imsSDM.go and
--                    api_groupIdMap.go with router.go, and Sbi.Server newRouter of server.go with
--                    internal/util/router_auth_check.go. internal/util/problem_json.go is in Sbi
--   Nrf              SendRegisterNFInstance of internal/sbi/consumer/nrf_service.go and registerToNrf
--                    of pkg/service/init.go
--   Config           pkg/factory/config.go; Config.Setup is initUdrContext of internal/context/context.go
--                    and InitUdrContext of internal/util/init_context.go
--   Convert          internal/util/convert.go, SnssaiHexToModels, SnssaiModelsToHex, EscapeDnn,
--                    UnescapeDnn
--   Database         internal/database/mongodb/mongo_db_inplement.go
--   and of internal/sbi/processor:
--   Sdm              sdm_subscriptions_collection.go, sdm_subscription_document.go; Sdm.Spec is the
--                    registry that they implement
--   Ee               event_exposure_subscriptions_collection.go, event_exposure_subscription_document.go
--   AmfInfo          event_amf_subscription_info_document.go, amf_subscription_info_document.go,
--                    query_amf_subscription_info_document.go
--   EeGroup          event_exposure_group_subscriptions_collection.go,
--                    event_exposure_group_subscription_document.go
--   Notify           subs_to_notify_collection.go, subs_to_notify_document.go and the
--                    PolicyDataSubsToNotify procedures of default.go
--   Matching         checkInfluenceDataSubscription of callback.go, with internal/util/list.go
--   Influence        the SubsToNotify procedures of influence_data_subscriptions_collection.go and
--                    individual_influence_data_subscription_document.go
--   InfluenceData    individual_influence_data_document.go, influence_data.go and the delete procedure
--                    of influence_data_subscriptions_collection.go
--   Callback         callback.go
--   Documents        the procedures that answer with one document, such as QueryAmDataProcedure
--   Registrations    the registration, authentication, operator specific and parameter documents
--   Collections      retrieval_of_shared_data.go, query_identity_data_by_supi_or_gpsi_document.go,
--                    smf_registrations_collection.go and the PFD procedures of default.go
--   Policy           the policy data procedures of default.go; those of session management policy
--                    data are in Policy.SmData
--   Provisioned      provisioned_data_document.go, session_management_subscription_data.go
--   System           the procedures on the context as one machine: a request is a call of one of them
--   Counters         the identifiers that the counters of the context hand out
--   Tests            concrete runs
--
-- What a call stands for is stated apart from the handlers: Sbi.Expected is the table of the requests of
-- the processor by method and path, and Sbi.Server.Calls the requests of a list of calls.
--
-- How the parts are composed. A call of Sbi.Server names the method and the pattern that gin resolves
-- a request to. The router checks the authorization of its group and runs the handler of the route; the
-- handler reads the body and the parameters and runs a procedure, on the context (on_context) or on the
-- database (on_db). The state of the service, World, is the pair of both.
--
-- How state is modelled. The context is a record that is passed through; a sync.Map or a map is an
-- association list, a map that may be nil an option of one. The pointers that a map holds are never
-- shared between keys, so a write through one is a write at its key. The order in which a map is
-- ranged over is a parameter. The procedures run one after another: the code takes no lock on the
-- counters and the plain maps, and interleavings of two procedures are not modelled.
--
-- Outside the repository, and parameters here: mongoapi (Database.Mongo), encoding/json
-- and mapstructure (InfluenceData.Codec, Provisioned.ProvisionedCodec, Policy.SmData.SmPolicyCodec,
-- Sbi.Decoder), gin's resolution of paths, the JSON patch package (System.Environment), the comparison of two
-- subscriptions, OAuth, the NRF, and the validation of structs. What a procedure logs is left out.
--
-- Bounds. Identifiers are 64-bit counters that start at 1, so that the theorems on sequences of
-- requests ask for fewer than 2^63 - 1 of them. Numbers are printed with their own value as the bound
-- on the rounds, which is enough since a quotient is smaller than what is divided.
--
-- Not modelled: the listener of server.go, which is net/http's; the profile, the deregistration and the
-- search of the NRF consumer, which only call its generated client; the reading of the configuration
-- file; the start and stop of the service and its log.
pub mod Base
pub mod Models
pub mod Problem
pub mod Gin
pub mod Context
pub mod Sdm
pub mod Ee
pub mod AmfInfo
pub mod EeGroup
pub mod Notify
pub mod Matching
pub mod Influence
pub mod Callback
pub mod Convert
pub mod Database
pub mod Documents
pub mod Registrations
pub mod Collections
pub mod DeepEqual
pub mod InfluenceData
pub mod Policy
pub mod Provisioned
pub mod Counters
pub mod System
pub mod Sbi
pub mod Nrf
pub mod Config
pub mod Tests
