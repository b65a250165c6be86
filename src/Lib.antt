-- ===== src/Lib.antt =====
-- A model of kms-platform: the virtual HSM that holds the master key, the client that talks to it,
-- and parts of the HTTP service in front of them.
--
-- Parts, and the files that model them:
-- - crates/vhsm-daemon keeps the master key. Vhsm/Protocol and Vhsm/State are its requests
--   (crates/kms-core/src/hsm/protocol.rs) and its state, Vhsm/Crypto its use of AES-256-GCM and of
--   shares, Vhsm/Certificate its certificate builders. Vhsm/Handler is `handle_request` with an arm
--   a function (Handler/Ceremony, DataKeys, Authority), each cut where it lets go of the state's
--   lock: `start` runs to the cut, `resume` from it. Vhsm/Tasks has the steps of several tasks at
--   once, Vhsm/Frames one connection of listener.rs.
-- - Sss is crates/kms-core/src/crypto/sss.rs, HsmClient is crates/kms-core/src/hsm/client.rs,
--   Containers is crates/kms-core/src/crypto/aes.rs and keys.rs.
-- - crates/kms-service: Service/Security is the check of signed requests
--   (server/middleware/security.rs), Service/RateLimiter the limiter and the nonce store in memory
--   (domain/rate_limiter.rs), Service/Acl the access rules (config/acl.rs), Service/Iam the
--   policies of config/iam_json.rs, Service/KeyCache the cache of keys (server/state.rs),
--   Service/Errors the errors and their answers (errors/app_error.rs), Service/VhsmClient and
--   Service/CryptoService the files of infrastructure/crypto, Service/Crypto the shared types.
-- - Keys is the table of keys with the statements of crates/kms-db/src/repositories.rs,
--   Keys/Repository with Keys/Repository/Statuses the repository of
--   infrastructure/postgres/keys.rs, and Keys/Rewrap the loop of
--   application/use_cases/rewrap_keys.rs.
-- - Audit is the audit chain: the hash of crates/kms-core/src/audit.rs, its recording
--   (infrastructure/postgres/audit.rs) and its check (handlers/audit.rs). Audit/Reasons and
--   Audit/Details redact secrets, Audit/Entries makes the entries (domain/audit).
-- - UseCases has the actions that run on the table, the cache and the audit chain at once, and the
--   `execute` of application/use_cases: UseCases/Rotate, Generate, Fetch (private, symmetric and
--   public keys), Sign, DataKeys (data keys, encryption and decryption), Authority (intermediate
--   certificates, over hsm/client.rs). UseCases/Workers is a round of each worker (workers). The
--   other files beside them have the theorems.
-- - Host has the libraries that the vHSM calls, as parameters, and Host/Laws what is assumed of
--   them. Common has lists, text, results, association lists, and what it is to pick elements.
-- - Tests runs the models at concrete inputs.
--
-- How the parts interact: the client frames a request, the connection reads it, the handler answers
-- it, and the frame goes back. The check of signed requests asks the nonce store. A use case asks the
-- access rules, reads and writes the table through the repository, calls the crypto service, keeps
-- the cache, and records what it did in the audit chain. It is an action on a `World`: one that ends
-- in an error keeps what it wrote before, and whether the database answers is a parameter by the
-- number of the call.
--
-- Numbers are ℕ. Where the source has a fixed width, the model writes it out: the length in a frame
-- is modulo 2 ^ 32, a share's index modulo 256, the next version of a key modulo 2 ^ 32. Durations
-- and instants do not overflow here. The versions of keys are read back as they were bound. Random
-- bytes are numbered by the call that draws them. `rewrap_loop` runs on fuel, a round each, and gives
-- `none` where the fuel is spent; its result is stated for all fuel. `redact_loop` runs on as much
-- fuel as the text has characters and one more, which is enough.
--
-- Not modelled: logs, the wiping of memory, sockets and timeouts but for their outcomes, JSON and
-- DER texts, the Redis stores, the credentials of agents, the import at bootstrap and the making of
-- a root CA, identities and principals, the HTTP handlers, the rest of the configuration, the SPIRE plugin,
-- the command line and the migrations. The order in which PostgreSQL runs the parts of one statement,
-- and its `ORDER BY`, are parameters. The loops of the workers on timers are left out, and two use
-- cases do not interleave.
pub mod Common
pub mod Host
pub mod Containers
pub mod Sss
pub mod Vhsm
pub mod HsmClient
pub mod Service
pub mod Keys
pub mod Audit
pub mod UseCases
pub mod Tests
