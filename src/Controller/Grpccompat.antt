-- ===== src/Controller/Grpccompat.antt =====
-- controller/grpccompat/server.go: the gRPC service that a panel drives a sold node with. A request
-- is its metadata and the message, or the messages of its stream; what is sent over the network is
-- the reply. Left out: Serve, and GetSystemStats, which reads the host.
pub mod Confined
use node_agent.Prelude.{
  String, Bool, true, false, Option, none, some, List, [], ◌∷◌, ◌++◌, ◌==◌, ◌&&◌, not,
  if◌then◌else◌, Result, ok, err,
}
use node_agent.Prelude.Int.{ℤ}
use node_agent.Common.{User}
use node_agent.Stats.{Stat}
use node_agent.Tenant.{Scope, Code, Decision}
use node_agent.Tenant.Registry.{Registry}
use node_agent.Tenant.Auth.{authenticate}
use node_agent.Shared.{Core, Manager, Answer, About, started, version}
use node_agent.Shared.Users.{set_tenant_users, add_tenant_users}
use node_agent.Shared.Lifecycle.{apply_config}
use node_agent.Shared.Traffic.{get_tenant_user_stats}

-- The codes of google.golang.org/grpc/codes that the service returns, and the error of a stream.
pub data GrpcError : Type 0 where
  unauthenticated permission_denied resource_exhausted invalid_argument internal : GrpcError
  stream_broken : String → GrpcError

-- authn is the hash that the authenticator keeps of its master key, or nil.
pub record Server : Type 0 where
  pub authn : Option String
  pub core_key : String

pub data CallerInfo : Type 0 where
  scope_core : CallerInfo
  scope_tenant : String → CallerInfo

-- resolveCaller on the values of x-api-key; `none` is a request without metadata.
abbrev refusal : Code → GrpcError
refusal Code.resource_exhausted = resource_exhausted
refusal Code.permission_denied = permission_denied
refusal Code.ok = unauthenticated
refusal Code.unauthenticated = unauthenticated

abbrev classify : Scope × Decision → Result GrpcError CallerInfo
classify (Scope.none, d) = err (refusal d.code)
classify (Scope.master, d) = err (refusal d.code)
classify (Scope.tenant, d) =
    let allowed : Result GrpcError CallerInfo = elim d.tenant [
      | none ↦ err (refusal d.code)
      | some t ↦ ok (scope_tenant t.id)
    ] in
    if d.allowed then allowed else err (refusal d.code)

pub data BackendType : Type 0 where
  xray wireguard : BackendType

-- The fields of common.Backend that Start reads.
pub record Backend : Type 0 where
  pub type : BackendType
  pub config : String
  pub users : List User

-- What a client sends on a stream, and the error other than its end that breaks it off.
pub record Stream (A : Type 0) : Type 0 where
  pub received : List A
  pub broken : Option String

pub data Request : Type 0 where
  start : Backend → Request
  sync_users : List User → Request
  sync_user : Stream User → Request
  sync_users_chunked : Stream (List User) → Request
  get_base_info stop get_stats get_logs get_backend_stats : Request
  get_outbounds_latency get_user_online_stats get_user_online_ip_list_stats : Request

pub record BaseInfo : Type 0 where
  pub started : Bool
  pub core_version : String

pub data Reply : Type 0 where
  empty : Reply
  base_info : BaseInfo → Reply
  stats : List Stat → Reply

-- The users of the chunks, in the order in which they came.
unfoldable pub join_chunks : List (List User) → List User
join_chunks [] = []
join_chunks (chunk ∷ chunks) = chunk ++ join_chunks chunks

module _ {S : Type 0} (hash_key : String → String) where
  unfoldable pub resolve_caller :
      Server → Option (List String) → ℤ → Registry S → Result GrpcError CallerInfo
  resolve_caller srv none now r = err unauthenticated
  resolve_caller srv (some []) now r = err unauthenticated
  resolve_caller srv (some (key ∷ keys)) now r =
      let by_tenant : Result GrpcError CallerInfo = elim srv.authn [
        | none ↦ err permission_denied
        | some stored ↦ classify (authenticate hash_key stored key now r)
      ] in
      if key == ""
      then err unauthenticated
      else if not (srv.core_key == "") && key == srv.core_key
      then ok scope_core
      else by_tenant

module _ {S K : Type 0} (about : About K) (c : Core K) where
  abbrev pub info : Manager S K → BaseInfo
  info m = record { started = started about m; core_version = version about m }

  -- A failure of the manager becomes an internal error.
  abbrev pub replied : Reply → Answer × Manager S K → Result GrpcError Reply × Manager S K
  replied reply (ok _, m) = (ok reply, m)
  replied reply (err e, m) = (err internal, m)

  unfoldable pub start_for :
      CallerInfo → Backend → Manager S K → Result GrpcError Reply × Manager S K
  start_for (scope_tenant id) b m =
      let (reply, m') = set_tenant_users c id b.users m in replied (base_info (info m')) (reply, m')
  start_for scope_core b m =
      let (reply, m') = apply_config c b.config m in
      let applied = replied (base_info (info m')) (reply, m') in
      elim b.type [
        | wireguard ↦ (err invalid_argument, m)
        | xray ↦ if not (b.config == "") then applied else (ok (base_info (info m)), m)
      ]

  unfoldable pub sync_users_for :
      CallerInfo → List User → Manager S K → Result GrpcError Reply × Manager S K
  sync_users_for scope_core us m = (ok empty, m)
  sync_users_for (scope_tenant id) us m = replied empty (set_tenant_users c id us m)

  unfoldable pub sync_user_for :
      CallerInfo → Stream User → Manager S K → Result GrpcError Reply × Manager S K
  sync_user_for caller s m = elim s.broken [
    | some e ↦ (err (stream_broken e), m)
    | none ↦ elim caller [
      | scope_core ↦ (ok empty, m)
      | scope_tenant id ↦ elim s.received [
        | [] ↦ (ok empty, m)
        | u ∷ us ↦ replied empty (add_tenant_users c id (u ∷ us) m)
      ]
    ]
  ]

  unfoldable pub sync_users_chunked_for :
      CallerInfo → Stream (List User) → Manager S K → Result GrpcError Reply × Manager S K
  unfolding join_chunks sync_users_for
  sync_users_chunked_for caller s m = elim s.broken [
    | some e ↦ (err (stream_broken e), m)
    | none ↦ sync_users_for caller (join_chunks s.received) m
  ]

  unfoldable pub get_stats_for : CallerInfo → Manager S K → Result GrpcError Reply × Manager S K
  get_stats_for scope_core m = (ok (stats []), m)
  get_stats_for (scope_tenant id) m =
      let (rows, m') = get_tenant_user_stats c id m in (ok (stats rows), m')

  -- The handlers, which are given the caller by the context.
  unfoldable pub handle : CallerInfo → Request → Manager S K → Result GrpcError Reply × Manager S K
  unfolding start_for sync_users_for sync_user_for sync_users_chunked_for get_stats_for
  handle caller (start b) m = start_for caller b m
  handle caller (sync_users us) m = sync_users_for caller us m
  handle caller (sync_user s) m = sync_user_for caller s m
  handle caller (sync_users_chunked s) m = sync_users_chunked_for caller s m
  handle caller get_stats m = get_stats_for caller m
  handle caller get_base_info m = (ok (base_info (info m)), m)
  handle caller stop m = (ok empty, m)
  handle caller get_logs m = (ok empty, m)
  handle caller get_backend_stats m = (ok empty, m)
  handle caller get_outbounds_latency m = (ok empty, m)
  handle caller get_user_online_stats m = (ok empty, m)
  handle caller get_user_online_ip_list_stats m = (ok empty, m)

  -- unaryAuth and streamAuth: no handler runs for a caller that is refused.
  unfoldable pub serve :
      (String → String)
      → Server
      → Option (List String)
      → ℤ
      → Request
      → Manager S K
      → Result GrpcError Reply × Manager S K
  unfolding resolve_caller handle
  serve hash_key srv keys now request m = elim (resolve_caller hash_key srv keys now m.reg) [
    | err e ↦ (err e, m)
    | ok caller ↦ handle caller request m
  ]
