-- ===== src/Controller/Agent.antt =====
-- controller/agent: the HTTP control surface of the node. A request is its key and its body, decoded
-- from JSON (`none` where that fails); a response is its status and its content, where the text of an
-- error is left out.
pub mod Views
pub mod Customer
pub mod Admin
pub mod Router
use node_agent.Prelude.{ℕ, String, Bool, Option, List, Result}
use node_agent.Prelude.Int.{ℤ}
use node_agent.Tenant.{Status, Reason}

pub record TenantView : Type 0 where
  pub id : String
  pub status : Status
  pub reason : Reason
  pub period_id : ℕ
  pub quota_bytes : ℤ
  pub used_bytes : ℤ
  pub credit_limit_bytes : ℤ
  pub expire_at : ℤ

pub record UsageView : Type 0 where
  pub id : String
  pub status : Status
  pub period_id : ℕ
  pub quota_bytes : ℤ
  pub used_bytes : ℤ
  pub overage_bytes : ℤ
  pub remaining_bytes : ℤ
  pub credit_limit_bytes : ℤ
  pub expire_at : ℤ

pub data Body : Type 0 where
  nothing error restarting : Body
  denied : Reason → Body
  core_state : Bool → String → Body
  document : String → Body
  tenant : Option TenantView → Body
  tenants : List TenantView → Body
  usage : UsageView → Body
  synced : ℕ → Body
  xray_version : String → Bool → Body

pub record Response : Type 0 where
  pub status : ℕ
  pub body : Body

abbrev pub answer : ℕ → Body → Response
answer status body = record { status = status; body = body }

-- What the handlers ask of the host: the releases, the test of a version's form, the downloads, the
-- path of the executable, and the redacted inbounds of a configuration.
pub record Host : Type 0 where
  pub latest_xray : Result String String
  pub latest_node : Result String String
  pub is_version : String → Bool
  pub download_xray : String → Result String (Unit {0})
  pub executable : Result String String
  pub download_node : String → String → Result String (Unit {0})
  pub sharable_inbounds : String → List String → Result String String
