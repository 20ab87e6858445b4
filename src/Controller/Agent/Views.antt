-- ===== src/Controller/Agent/Views.antt =====
-- controller/agent/views.go: what a response shows of a tenant.
pub mod Difference
use node_agent.Prelude.{Option, none, some, List, [], ◌∷◌, if◌then◌else◌}
use node_agent.Prelude.Int.{ℤ, pos, sub64, ltb_ℤ}
use node_agent.Tenant.{Tenant}
use node_agent.Controller.Agent.{TenantView, UsageView}

unfoldable pub tenant_view : Tenant → TenantView
tenant_view t = record {
  id = t.id;
  status = t.status;
  reason = t.reason;
  period_id = t.period_id;
  quota_bytes = t.quota_bytes;
  used_bytes = t.used_bytes;
  credit_limit_bytes = t.credit_limit_bytes;
  expire_at = t.expire_at;
}

-- A nil tenant gives the empty view.
abbrev pub view_of : Option Tenant → Option TenantView
view_of none = none
view_of (some t) = some (tenant_view t)

unfoldable pub tenant_views : List Tenant → List TenantView
tenant_views [] = []
tenant_views (t ∷ ts) = tenant_view t ∷ tenant_views ts

-- A difference of two counts, where a negative one is shown as 0.
abbrev pub shown_difference : ℤ → ℤ → ℤ
shown_difference a b = let d = sub64 a b in if ltb_ℤ d (pos 0) then pos 0 else d

unfoldable pub usage_view : Tenant → UsageView
usage_view t = record {
  id = t.id;
  status = t.status;
  period_id = t.period_id;
  quota_bytes = t.quota_bytes;
  used_bytes = t.used_bytes;
  overage_bytes = shown_difference t.used_bytes t.quota_bytes;
  remaining_bytes = shown_difference t.quota_bytes t.used_bytes;
  credit_limit_bytes = t.credit_limit_bytes;
  expire_at = t.expire_at;
}
