-- ===== src/Lib.antt =====
-- The device management platform: a panel behind which browsers reach devices in remote networks,
-- through nodes that hold the tunnels. The Go backend keeps accounts, login sessions, second factors
-- and access sessions in a SQLite database, and limits failed logins in memory.
--
-- Base: what the modules share: maps as association lists (Base/Assoc), tables as lists of rows with
--   functions for SELECT, UPDATE, DELETE and COUNT (Base/Rows, Base/RowLaws), results (Base/Results),
--   Boolean tests (Base/Tests).
-- Auth/LoginLimiter: backend/internal/auth/login_limiter.go, every method. The limiter is a record;
--   Blocked, Failure, Success, evictOldest and cleanup are blocked, failure, success, evict_oldest and
--   cleanup.
-- Store: backend/internal/store. Store/Schema has the tables (migrations.go, models.go) in one record
--   Db, the errors, insertAudit, and transactions: one that fails is rolled back. A handler is a
--   function from the database to the database and a result. Its name is that of the Go method.
-- Store/Users: users.go, the accounts; Store/Users/Sessions, the login sessions.
-- Store/Mfa: mfa.go, the challenges of a login, the TOTP counters and the recovery codes.
-- Store/Access: access_sessions.go, the sessions in which a browser reaches a device;
--   Store/Access/Grants has the operations that compare times.
-- Store/PortForwards: port_forwards.go, the forwards and the port pool of a node.
-- Store/Policies: HasPolicyCapability of policies.go.
-- Lifecycle: backend/internal/lifecycle/manager.go, the sweep over expired forwards and sessions; what
--   the node answers is a parameter.
-- Api/Authorization, Api/Authentication: authorizeRequest and requireAuth of
--   backend/internal/api/api.go; hashing and the functions of package strings are parameters.
-- Store/Discovery: discovery.go, the jobs of a scan and what it found; Store/Discovery/Jobs and
--   Store/Discovery/Machine are about the states of a job.
--   Store/Discovery/Import is ImportDiscoveryDevice.
-- Store/Devices: devices.go, the creation of devices; Store/Devices/Edits, UpdateDevice and
--   DeleteDevice; Store/Devices/Verify, VerifyDeviceEndpoints.
-- Store/Projects: DeleteProject of projects.go.
-- Discovery: backend/internal/discovery/manager.go. Discovery/Hosts enumerates the addresses of a
--   network, Discovery/Run is Start, Cancel and run; the parsers of net/netip, the node and the
--   workers are parameters.
-- Gateway: backend/internal/access/gateway.go. Gateway/Serve is ServeHTTP and the exchange of a grant,
--   Gateway/Connections the register of connections, Gateway/Upstream gatewayUpstream,
--   Gateway/Location rewriteLocation, Gateway/Headers the cookies and headers; the parser of net/url
--   and functions of package strings are parameters.
-- Adapter: backend/internal/nodeadapter. Adapter/Signing is signing.go, errors.go and the first half of
--   call, Adapter/Calls call itself and the chaining of calls, Adapter/Clients, Adapter/Tunnels and
--   Adapter/Forwards the operations of adapter.go on clients, SOCKS tunnels and port forwards, and
--   task_ref.go. Adapter/Requests, Adapter/Signed and Adapter/Ensures have the rules by which the
--   proofs follow an operation. What the adapter calls outside the repository is in one record,
--   NodeAdapter.
-- Settings: backend/internal/config. Settings is the configuration and validate of config.go,
--   Settings/Edit and Settings/Save are settings.go: the pending configuration, the locks of the
--   environment, Save, and the text of the override file with its reader, readConfigFile of config.go;
--   the library's parsers and printers are in one record, Texts.
-- Api/Login: login of backend/internal/api/api.go, over the limiters and the store; verification of a
--   password is a parameter.
-- Api/Domains: accessDomainRouting of the same file, which sends a request to the panel or, with the
--   mark that Gateway/Serve asks for, to the gateway.
-- Api/Forwards: the handlers of port forwards of the same file, over the store and the adapter;
--   Api/Forwards/Closing, what a deletion of a device or project does first (Closed, its outcome).
-- Examples: concrete data for the theorems.
--
-- Interaction: an access session hangs on a login session, and it is live only while the login session
-- is, and its user enabled. A change of an account ends its login sessions in the same transaction. The
-- guard of the API resolves a login session, touches it or ends it, and asks the store for the project
-- of a resource. The gateway resolves the grant of a cookie in the store before it passes a request
-- on, and a revocation in the store is followed by Revoke on the gateway. A run of a scan moves its job
-- in the store and saves what its workers find. The sweep deletes expired forwards and then expires the sessions.
-- The store has one connection (Open in store.go), so each statement or transaction is one step, and
-- what interleaves is a sequence of steps: the relations Step and Reach of the modules.
--
-- Choices. Times are nanoseconds in ℕ. The database keeps them as RFC 3339 texts and compares those;
-- the order is the parameter TextOrder, of which Store/Schema says what texts guarantee. Readings of
-- the clock and random ids are arguments. Counters are ℕ, where the source has int64. There is no fuel but
-- the number of polls in which the adapter waits for a state: the source bounds them by 5 s with a tick
-- of 100 ms, and ends with an error as the model does, so no result hangs on the number. Every function
-- is total by structural recursion. The number of probes
-- of a scan is in ℕ, where the source multiplies ints of 64 bits: it would wrap only for a list of more
-- than 2^31 networks and ports.
--
-- Not modelled: failures of the driver and of the disk, the metadata of audit records, the triggers
-- that copy sessions to access_logs, listings that only read columns, the project ids of a returned
-- user, the order of listings, cryptography, HTTP and JSON, the other handlers of package api, the
-- SSH gateway and the SOCKS client of package access, the protocol probes of package discovery, Load of
-- package config, the packages secrets and webroutelabel, and the frontend.
pub mod Base
pub mod Adapter
pub mod Api
pub mod Auth
pub mod Discovery
pub mod Gateway
pub mod Examples
pub mod Lifecycle
pub mod Settings
pub mod Store
