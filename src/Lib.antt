-- ===== src/Lib.antt =====
-- A node agent sells the traffic of one proxy core to several tenants. This library models its
-- bookkeeping: who may call, what a tenant may still use, whose users the core serves, and what
-- traffic was counted. Paths are from the repository's root.
--
-- The parts, and how they meet.
--   Tenant (tenant/registry.go, tenant/auth.go, tenant/store.go). `Registry` is the state of
--   tenant.Registry: the tenants by id, the ids by the hash of a key, and the state of the store
--   behind it. Tenant/Registry.antt has one function for each method; Tenant/Auth.antt has
--   Authorize and Authenticate; Tenant/Store.antt is the interface Store with the laws that the
--   registry relies on, and Tenant/MemStore.antt is memStore, which meets them.
--   Shared (shared/manager.go). `Manager` holds a registry, a core, and the users of the tenants
--   with the owners of their names and credentials. Shared/Users.antt replaces and merges users,
--   Shared/Lifecycle.antt starts and stops the core and suspends, resumes and deletes tenants,
--   Shared/Traffic.antt charges tenants and enforces their limits by the registry's methods.
--   Controller (controller). Chunks.antt puts together the users that a panel sends in chunks
--   (users_chunk.go). Agent.antt and its children are the HTTP server over a `Manager`
--   (controller/agent): Agent/Router.antt the middleware and the routes, Agent/Admin.antt the
--   operator's handlers and those of the lifecycle, Agent/Customer.antt the tenant's handlers,
--   Agent/Views.antt the answers. Grpccompat.antt is the gRPC server that panels speak to
--   (controller/grpccompat/server.go), over the same `Manager`. Node.antt is the session of a node
--   with one panel (controller.go), Node/Rest.antt and Node/Rpc.antt its two servers
--   (controller/rest, controller/rpc), over the interface Backend (backend/backend.go).
--   Wireguard (backend/wireguard). Config.antt is the configuration (config.go), PeerStore.antt
--   the peers by key and by email (peer_store.go), Users.antt the peers that a list of users asks
--   for (user_common.go), Plan.antt what is to change on the device, Sync.antt the partial and the
--   full synchronisation (user_partial_sync.go, user_full_sync.go, user.go), Manager.antt the
--   device (manager.go), Backend.antt the start and the end of a backend (wireguard.go).
--   Xray (backend/xray). Accounts.antt is the account of a user on an inbound (api/account.go,
--   user.go), Inbounds.antt the clients of the inbounds in the configuration and in the process,
--   one user at a time, in batches and as a whole (config.go, user.go). Removal.antt is the backend
--   as the `Core` of a manager.
--   Stats (pkg/stats). Stats/Tracker.antt is the tracker of the peers' counters with its baselines,
--   Stats/InterfaceCounters.antt the tracker of the interface's counters.
--   Common (common/service.proto). The messages about users.
--   Prelude. Results for `(A, error)`, Go's maps, int64 arithmetic, and lemmas on them.
--
-- How the source is read.
--   An int64 is an integer of Prelude.Int, and each sum and difference wraps at 64 bits (`add64`,
--   `sub64`); a uint64 is a native number. A map is an association list, and a loop over a map
--   goes by the list: what holds for every list holds for every order of Go's. A method that holds
--   a lock is one step, also a synchronisation of WireGuard, which holds syncMu. RestartCore
--   releases the lock between reading the configuration and applying it; the model does both in
--   one step. The requests to a node's servers are taken one after another, each to its end, and so
--   are the ticks between them: the controller releases its lock within Disconnect and between the
--   calls of a Start, and what requests do that overlap there is not modelled. An error of a called
--   package is its text. Status and Reason, strings in Go, are data
--   types of the constants that the code declares. A map from the indexes of chunks is a function.
--   All recursion is structural, so no fuel is used.
--
-- Parameters. HashKey (SHA-256 in hex) is a function `hash_key`; the store is a `Store`; the core of
-- a manager is a `Core`, of which it sees the replies. A WireGuard key and an IP network are types,
-- with `Platform` for wgtypes.Key and net; the device is a `Device` and the kernel's links a
-- `Kernel`. The host of an agent, its version and its ports are a `Host` and an `About`. The API
-- of an Xray process is a `Handler`; the backends of a node are `Backends`; UUIDs, base64 and the
-- hash of a password are a `Codec`.
--
-- Not modelled. The values of the statistics and the lines of the logs that the REST and RPC servers
-- answer with; Serve and GetSystemStats of grpccompat; downloads and archives in
-- the agent's lifecycle; the JSON of Xray's configurations, its process, its statistics and
-- logs, and the restarts that follow SyncUsers and UpdateUsersAndRestart; the statistics, the
-- latencies and the routing tables of WireGuard and its tickers; boltStore, which wraps a database;
-- SharableInbounds and the redaction of its secrets, which are JSON and elliptic curves; logging,
-- system statistics, TLS and the mains, which are input and output.
pub mod Common
pub mod Controller
pub mod Prelude
pub mod Shared
pub mod Stats
pub mod Tenant
pub mod Wireguard
pub mod Xray
