-- ===== src/Lib.antt =====
-- A verification library of agent-action-control, the service that decides whether an agent may
-- perform a proposed action.
--
-- The program. `internal/domain` holds the entities: principals, actors, targets, action
-- parameters, authorization evidence, proposed actions and their digest, decisions and policy
-- effects; every one is built by a constructor that validates it. `internal/application` holds the
-- use case: the normaliser turns the input of an authenticated runtime into a proposed action, a
-- policy evaluates the action, the composer turns reasons into a decision, and the decision service
-- calls these and a ledger, which makes a request idempotent. `internal/policy` holds the
-- policies, `internal/auth` says which runtime a credential stands for, `internal/storage/sqlite` is
-- the ledger, and `internal/transport/http` answers requests with decisions.
--
-- Files, by the code they are about:
--   Errors, Time: Go's errors as chains of sentinel errors (internal/domain/errors.go,
--     internal/application/errors.go), and `time.Time` as an instant and a location.
--   Strings, Containers: `strings.TrimSpace`, `ToUpper`, `HasPrefix`, the order of strings, maps
--     with string keys, and `sort`, as far as the program uses them.
--   Domain.Identifier, Domain.Principal: internal/domain/principal.go.
--   Domain.Action, Domain.ProposedAction: internal/domain/proposed_action.go.
--   Domain.Normalize, Domain.Parameters: internal/domain/action_parameters.go.
--   Domain.Payload: internal/domain/payload_facts.go.
--   Domain.Evidence: internal/domain/authorization_evidence.go.
--   Domain.Decision: internal/domain/decision.go, reason_code.go and required_action.go.
--   Domain.Effect: internal/domain/policy_effect.go.
--   Domain.Canonical, Domain.CanonicalValue: internal/domain/action_digest.go.
--   Json: what the program uses of `encoding/json`: values as trees, `Marshal`, and `Unmarshal` as a
--     parser of texts (Json.Parse) and decoders of trees (Json.Unmarshal).
--   Storage.Persisted, Unmarshal, Decode, Encode: internal/storage/sqlite/serialization.go.
--   Storage.Tables: internal/storage/sqlite/migrations/0001_minimal_ledger.sql.
--   Storage.Ledger: internal/storage/sqlite/ledger.go, on Storage.Database: the calls it makes of
--     the database, run by a schedule of failures and of the commits of other processes.
--   Application.Evaluation, Ports, Runtime: internal/application/evaluation.go, ports.go, clock.go,
--     ids.go and runtime_context.go.
--   Application.Normalizer: internal/application/action_normalizer.go.
--   Application.Composer: internal/application/decision_composer.go.
--   Application.Service: internal/application/decision_service.go.
--   Auth: internal/auth/runtime.go.
--   Policy.Embedded: internal/policy/embedded/evaluator.go.
--   Policy.Osprey: internal/policy/osprey/evaluator.go; Policy.Osprey.Facts: action_json.go beside it;
--     Policy.Osprey.Coordinator: coordinator.go and its call; Policy.Osprey.Stated: what the facts
--     say, told without the code's own names for them.
--   Transport.Dto, Decode: internal/transport/http/dto.go.
--   Transport.Mapper: internal/transport/http/mapper.go.
--   Transport.Server: internal/transport/http/server.go, the handler of decisions.
--   Tests: concrete inputs.
--
-- A Go function that returns a value and an error is a function into `Result`; its name is the
-- source's in snake case, and a type keeps its name. A method is named after its type where the
-- plain name would be unclear: `Valid` of `ReasonCode` is `reason_code_valid`. A string type of Go is
-- `String`, since it may hold any text, and the code tests it. What calls the ports of the decision
-- service is a function from a state to a result and a state, for any type of state.
--
-- Parameters: `Unicode` stands for the case table of package `unicode`, and `Digests` for SHA-256 and
-- for the format of a time. `Times` stands for `time.Parse` and `Format` with `time.RFC3339Nano`, of
-- which only what it reads back of the years 0 to 9999 is used, `JsonTimes` and `WrittenTimes` for the
-- JSON of a `time.Time`, and `Checks` for the CHECK clauses of the schema. Every loop is structural
-- recursion on a list or a text. Fuel is given for the decimal digits of a number, where the number
-- itself is enough, and to the parser of JSON, where one more than the length of the text is enough
-- for what `Marshal` writes.
--
-- Not modelled: messages of errors, contexts and their cancellation, concurrency of goroutines; the
-- client of the coordinator, the opening and the migrations of the database, the encoding of HTTP
-- responses, and cmd.
pub mod Prelude
pub mod Strings
pub mod Containers
pub mod Errors
pub mod Time
pub mod Json
pub mod Domain
pub mod Application
pub mod Storage
pub mod Auth
pub mod Policy
pub mod Transport
pub mod Tests
