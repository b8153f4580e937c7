-- ===== src/Lib.antt =====
-- cckit, a toolkit for Hyperledger Fabric chaincode in Go: a model of its own logic.
--
-- A chaincode is called with a stub (shim.ChaincodeStubInterface), which gives access to the ledger.
-- The router (router/) picks the handler that the first argument names, wraps it in middleware and
-- gives it a context. The context gives out the state (state/), which turns entries into keys and
-- values into bytes (convert/) and calls the stub; wrappers of the state cache its writes
-- (state/state_cached.go) or encrypt keys and values (extensions/encryption/). What a handler returns
-- becomes a response (response/).
--
-- Files:
-- - Base and its children: shared names, texts and Go maps (association lists, read by key only).
-- - Lang: errors, results with panics, actions that return the state beside an error, values of
--   interface{}, and the parts of strings and strconv that the code uses.
-- - Convert: convert/to_bytes.go, convert/from_bytes.go.
-- - Response: response/response.go.
-- - State/Stub: the stub, a parameter; State/Key: state/key.go; State/Transformer:
--   state/tranformer.go; State/Invoke: state/invoke.go; State/Impl: state/state.go, with Listing for
--   List, Keys and state/state_list.go, and Private for private data; State/Cached: state/state_cached.go;
--   State/Event: state/event.go.
-- - Encryption/Padding, Aes and Codec: extensions/encryption/aes.go, encryption.go, and the
--   transformers of state.go and event.go.
-- - Router/Context: router/context.go; Router/Group: router/router.go; Router/Params: router/param.
-- - Mapping/Schema: the entities, with state/schema/keyref.pb.go; Mapping/Keyers and
--   Mapping/Options: state/mapping/state_mapping_opt.go; Mapping/StateMappings and Mapping/Diff:
--   state/mapping/state_mapping.go; Mapping/KeyRefs: state_keyref.go and state_mapped.go;
--   Mapping/Interface: the state.State that is wrapped, Mapping/Spec what it promises, and
--   Mapping/Filled: Impl of state/state.go as that state, on a ledger;
--   Mapping/MappedState with Private: state/mapping/state.go; Mapping/Index: the unique indexes of
--   what is held, after an Insert, a Delete and a Put; Mapping/Events: event.go, event_mapping.go
--   and event_mapped.go.
-- - Erc20: examples/erc20; Identity: the short ids of identity/; Lang/Int64: Go's int at 64 bits.
-- - CPaper: examples/cpaper, with Sale for what a sale and a redemption do, Lifecycle for the steps
--   of a paper, Ledger and History for sequences of transactions; CPaperService: service/service.go of
--   examples/cpaper_asservice, with Messages for its schema, Mapped for the keys of a paper, Handlers,
--   Ledger and Lookup; CPaperExtended: examples/cpaper_extended/chaincode.go.
-- - Mock/Keys, Mock/PrivateData and Mock/MockStub: testing/mockstub.go.
-- - Encryption/Middleware: extensions/encryption/middleware_pre.go and middleware_after.go;
--   Encryption/Invoke: extensions/encryption/invoke.go.
-- - Debug: extensions/debug/state.go and debug_state.go, with Service for the calls on one entry.
-- - Cars: examples/cars.
-- - Owner: extensions/owner, with CreateEntry of identity/entry.go.
-- - Tests: tests, stubs in memory, and the theorems at concrete inputs; MappingMemory runs
--   state/mapping and the commercial papers on Impl of state/state.go.
--
-- Correspondence: a function has its Go name in snake case; Impl.Key is `key_of`, List `list_state`,
-- Group.Group `subgroup`, Group.Use `use_middleware`, Response constructors end in `_response`. A
-- method that changes the ledger is an action on the state `S` of the stub. The types of an
-- application are a parameter `U`, with its methods (Keyer, ToByter, proto.Message, …) in a record
-- `Methods`. An iterator is the list of what its calls of Next return. The maps of handlers that
-- groups share are a registry beside the groups.
--
-- Parameters: the stub, the block cipher and base64, protobuf and JSON, and the texts of errors.
-- Their laws, where a theorem needs them, are records (CompositeKeys, ReadsWrites, CipherLaws,
-- Base64). What reflect shows of an entity is a parameter too, and the state that state/mapping wraps:
-- of it the theorems take what StateSpec says, which Impl of state/state.go keeps on a ledger (Ledger)
-- with messages that protobuf reads back (Messages), read at one type for each key (impl_promises in
-- Mapping/Filled/Promises). A committed transaction is one whose handler succeeds; a ledger is a sequence of them. The stub for tests stands on
-- shimtest.MockStub (Shim, ShimLaws), and the owner on what
-- crypto/x509 reads of a creator (Identities). Loops run over lists. Fuel bounds the loop over an
-- iterator (drain), where the number of keys is enough, and decimal digits (format_nat), where the
-- number plus one is enough.
--
-- Not modelled: GetHistory of state/state.go, which hands a nil value on for a deleted modification
-- where the model has an empty one, logging, the tracing of errors beyond their sentinel and notes,
-- nil slices but for the argument of FromBytes, bytes that a decryption overwrites in place, the gateway, code
-- generation, test assertions, the tables of routes of the examples, and the examples but for the
-- token, the cars and the commercial papers.
pub mod Base
pub mod CPaper
pub mod CPaperExtended
pub mod CPaperService
pub mod Cars
pub mod Convert
pub mod Debug
pub mod Encryption
pub mod Erc20
pub mod Identity
pub mod Lang
pub mod Mapping
pub mod Mock
pub mod Owner
pub mod Response
pub mod Router
pub mod State
pub mod Tests
