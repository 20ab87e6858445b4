-- ===== src/Tenant/Registry/Steps.antt =====
-- Any sequence of calls of the registry's methods, in the order in which they take the lock.
use node_agent.Prelude.{String, List, [], ◌∷◌}
use node_agent.Prelude.Int.{ℤ}
use node_agent.Tenant.{Reason}
use node_agent.Tenant.Store.{Store}
use node_agent.Tenant.Registry.{
  Registry, CreateParams, create_tenant, add_usage, set_quota, suspend, resume, reset_period,
  delete_tenant, enforce,
}

pub data Call : Type 0 where
  creates : CreateParams → Call
  adds_usage : String → ℤ → Call
  sets_quota : String → ℤ → ℤ → ℤ → Call
  suspends : String → Reason → Call
  resumes resets deletes : String → Call
  enforces : ℤ → Call

module _ {ℓ} {S : Type ℓ} (st : Store S) (hash_key : String → String) where
  unfoldable pub step : Call → Registry S → Registry S
  step (creates p) r = (create_tenant st hash_key p r).1
  step (adds_usage id delta) r = (add_usage st id delta r).1
  step (sets_quota id quota credit expire_at) r = (set_quota st id quota credit expire_at r).1
  step (suspends id reason) r = (suspend st id reason r).1
  step (resumes id) r = (resume st id r).1
  step (resets id) r = (reset_period st id r).1
  step (deletes id) r = (delete_tenant st id r).1
  step (enforces now) r = (enforce st now r).1

  unfoldable pub run : List Call → Registry S → Registry S
  run [] r = r
  run (c ∷ cs) r = run cs (step c r)
