-- ===== src/Controller/Agent/Views/Difference.antt =====
-- The two differences of a usage view, at counts of 63 bits.
use node_agent.Prelude.{ℕ, ◌≡◌, ◌-◌, ◌<◌, ◌^◌, arith}
use node_agent.Prelude.Int.{pos, sub64-pos, ◌-ℤ◌}
use node_agent.Tenant.{Tenant}
use node_agent.Controller.Agent.Views.{shown_difference, usage_view}

shown_difference-pos :
    (a b : ℕ) → a < 2 ^ 63 → b < 2 ^ 63 → shown_difference (pos a) (pos b) ≡ pos (a - b)
unfolding ◌-ℤ◌
shown_difference-pos a b h k = rw (sub64-pos a b h k) (ground arith)

-- A usage view shows what is left of the quota and what was used beyond it, of which one is zero: no
-- negative number is shown. Conditions: the quota and the usage are not negative and fit in 63 bits.
pub usage_view-differences :
    (t : Tenant) (used quota : ℕ)
    → t.used_bytes ≡ pos used
    → t.quota_bytes ≡ pos quota
    → used < 2 ^ 63
    → quota < 2 ^ 63
    → ((usage_view t).remaining_bytes ≡ pos (quota - used))
      × ((usage_view t).overage_bytes ≡ pos (used - quota))
unfolding usage_view
usage_view-differences t used quota e f h k = (
  rw (e, f) (shown_difference-pos quota used k h),
  rw (e, f) (shown_difference-pos used quota h k),
)
