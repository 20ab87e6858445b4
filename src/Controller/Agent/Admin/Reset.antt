-- ===== src/Controller/Agent/Admin/Reset.antt =====
-- A reset lets a tenant in again.
use node_agent.Prelude.{String, ◌≡◌, inl, inr, refl, true, some, arith, eq_refl, Result-cases}
use node_agent.Prelude.Int.{ℤ, pos, ◌<ℤ◌}
use node_agent.Prelude.Dict.{lookup}
use node_agent.Tenant.{Tenant, active, Reason, effective_limit}
use node_agent.Tenant.Store.{Store}
use node_agent.Tenant.Registry.{get, with_new_period, with_status, reset_period, resume}
use node_agent.Tenant.Registry.Enforcement.{IsPast}
use node_agent.Tenant.Registry.Usage.{update_tenant_lem}
use node_agent.Tenant.Auth.{authorize}
use node_agent.Tenant.Auth.Decisions.{owner, authorize_iff}
use node_agent.Shared.{Core, Manager}
use node_agent.Shared.Lifecycle.{resume_tenant}
use node_agent.Shared.Lifecycle.Restore.{add_tenant_to_core-SameRecords}
use node_agent.Controller.Agent.Admin.{reset_tenant}

module _ {S K : Type 0} (c : Core K) (st : Store S) where
  resume_tenant-reg :
      (id : String) (m : Manager S K) → (resume_tenant c st id m).1.reg ≡ (resume st id m.reg).1
  unfolding resume_tenant
  resume_tenant-reg id m = elim (Result-cases (resume st id m.reg).0) [
    | inr (e, f) ↦ rw (f, resume_tenant) refl
    | inl (t, f) ↦ rw (f, resume_tenant) (add_tenant_to_core-SameRecords c id _).reg
  ]

  -- The tenant is active in a new period, whatever the store and the core reply.
  reset_tenant-get :
      (id : String) (m : Manager S K) (t : Tenant)
      → get id m.reg ≡ some t
      → let m' = (reset_tenant c st id m).1 in
        (get id m'.reg ≡ some (with_new_period t)) × (m'.reg.by_key ≡ m.reg.by_key)
  unfolding reset_tenant with_status with_new_period
  reset_tenant-get id m t e =
      let r1 = (reset_period st id m.reg).1 in
      let one = update_tenant_lem st with_new_period id id m.reg in
      let two = update_tenant_lem st (with_status active Reason.none) id id r1 in
      let m1 : Manager S K = record m { reg = r1 } in
      elim (Result-cases (reset_period st id m.reg).0) [
        | inr (x, f) ↦ rw (f, reset_tenant) (ground (arith, e, one, eq_refl id))
        | inl (x, f) ↦
            rw (f, reset_tenant, resume_tenant-reg id m1) (ground (arith, e, one, two, eq_refl id))
      ]

  -- After a reset of a tenant the key that leads to it is let in, whatever the store and the core
  -- reply. Conditions: the tenant has a limit above zero, and is not past its expiry.
  pub reset_tenant-authorize :
      (hash_key : String → String) (key : String) (now : ℤ) (id : String) (m : Manager S K)
      (t : Tenant)
      → lookup (hash_key key) m.reg.by_key ≡ some id
      → get id m.reg ≡ some t
      → (pos 0) <ℤ effective_limit t
      → ¬ IsPast now t
      → (authorize hash_key key now (reset_tenant c st id m).1.reg).allowed ≡ true
  unfolding with_new_period effective_limit
  reset_tenant-authorize hash_key key now id m t leads e limit fresh =
      let (found, keys) = reset_tenant-get id m t e in
      let owns : owner (hash_key key) (reset_tenant c st id m).1.reg ≡ some (with_new_period t) =
        ground (arith, found, keys, leads) in
      (authorize_iff hash_key key now (reset_tenant c st id m).1.reg).1 (
        with_new_period t,
        owns,
        record { active_status = refl; not_past = fresh; below_limit = limit },
      )
