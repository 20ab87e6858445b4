-- ===== src/Tenant.antt =====
-- tenant/registry.go, lines 16 to 63, and tenant/auth.go, lines 16 to 43: the types of the tenant
-- package. The children model the stores, the registry and the authorization.
pub mod Store
pub mod MemStore
pub mod Registry
pub mod Auth
pub mod Examples
use node_agent.Prelude.{ℕ, String, Bool, Option}
use node_agent.Prelude.Int.{ℤ, add64}

pub data Status : Type 0 where
  active suspended deleted : Status

pub data Reason : Type 0 where
  none quota expired manual : Reason

pub record Tenant : Type 0 where
  pub id : String
  pub api_key_hash : String
  pub status : Status
  pub reason : Reason
  pub period_id : ℕ
  pub quota_bytes : ℤ
  pub used_bytes : ℤ
  pub credit_limit_bytes : ℤ
  pub expire_at : ℤ

-- The overage credit counts on top of the quota, in 64-bit arithmetic.
unfoldable pub effective_limit : Tenant → ℤ
effective_limit t = add64 t.quota_bytes t.credit_limit_bytes

pub data Error : Type 0 where
  not_found already_exists key_conflict : Error
  store_failure : String → Error

pub data Scope : Type 0 where
  none master tenant : Scope

pub data Code : Type 0 where
  ok unauthenticated permission_denied resource_exhausted : Code

pub record Decision : Type 0 where
  pub allowed : Bool
  pub code : Code
  pub reason : Reason
  pub tenant : Option Tenant
