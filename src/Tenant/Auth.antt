-- ===== src/Tenant/Auth.antt =====
-- tenant/auth.go, lines 44 to 103: authorization of a customer's key, and of the master key.
pub mod Decisions
pub mod Keys
use node_agent.Prelude.{
  String, ◌≡◌, Bool, true, false, Option, none, some, ◌==◌, ◌&&◌, not, if◌then◌else◌,
}
use node_agent.Prelude.Int.{ℤ}
use node_agent.Prelude.Dict.{lookup}
use node_agent.Tenant.{
  active, suspended, deleted, Reason, quota, expired, Tenant, Scope, master, tenant, Decision, Code,
  ok, unauthenticated, permission_denied, resource_exhausted,
}
use node_agent.Tenant.Registry.{Registry, is_expired, over_limit}

abbrev deny : Code → Reason → Option Tenant → Decision
deny code reason t = record { allowed = false; code = code; reason = reason; tenant = t }

-- The switch of Authorize over the tenant that the key belongs to.
unfoldable pub decide : ℤ → Tenant → Decision
unfolding is_expired over_limit
decide now t = elim t.status [
  | deleted ↦ deny unauthenticated Reason.none (some t)
  | suspended ↦ deny permission_denied t.reason (some t)
  | active ↦
      if is_expired now t
      then deny permission_denied expired (some t)
      else if over_limit t
      then deny resource_exhausted quota (some t)
      else record { allowed = true; code = ok; reason = Reason.none; tenant = some t }
]

-- NewAuthenticator: no master key leaves an empty hash.
unfoldable pub master_hash : (String → String) → String → String
master_hash hash_key master_key = if master_key == "" then "" else hash_key master_key

module _ {ℓ} {S : Type ℓ} (hash_key : String → String) where
  unfoldable pub authorize : String → ℤ → Registry S → Decision
  unfolding decide
  authorize api_key now r = elim (lookup (hash_key api_key) r.by_key) [
    | none ↦ deny unauthenticated Reason.none none
    | some id ↦ elim (lookup id r.by_id) [
      | none ↦ deny unauthenticated Reason.none none
      | some t ↦ decide now t
    ]
  ]

  -- `stored` is the hash that NewAuthenticator keeps; the two hashes are compared in constant time.
  unfoldable pub authenticate : String → String → ℤ → Registry S → Scope × Decision
  unfolding authorize
  authenticate stored api_key now r =
      if not (stored == "") && hash_key api_key == stored
      then (master, record { allowed = true; code = ok; reason = Reason.none; tenant = none })
      else (tenant, authorize api_key now r)
