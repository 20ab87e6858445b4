-- ===== src/Tenant/Registry/Invariant.antt =====
-- The two indexes of the registry agree, whatever calls are made and whatever the store replies.
use node_agent.Prelude.{String, refl, List, [], ◌∷◌, arith, eq_iff, Option-cases, inl, inr}
use node_agent.Prelude.Int.{ℤ}
use node_agent.Prelude.Dict.{lookup, lookup-insert}
use node_agent.Tenant.{active, suspended, Reason, Tenant}
use node_agent.Tenant.Store.{Store}
use node_agent.Tenant.Registry.{
  Registry, with_usage, with_quota, with_status, with_new_period, update_tenant, enforce,
}
use node_agent.Tenant.Registry.Enforcement.{enforced, get-enforce}
use node_agent.Tenant.Registry.Steps.{
  Call, creates, adds_usage, sets_quota, suspends, resumes, resets, deletes, enforces, step, run,
}
-- A tenant under the id `k`, as the indexes must have it.
use node_agent.Tenant.Registry.Consistent.{
  IsConsistent, KeepsIndex, replace-IsConsistent, changed_at, changed_at-KeepsIndex,
  enforced-KeepsIndex,
}
use node_agent.Tenant.Registry.Indexed.{create_tenant-IsConsistent, delete_tenant-IsConsistent}

module _ {ℓ} {S : Type ℓ} (st : Store S) where
  update_tenant-IsConsistent :
      (change : Tenant → Tenant) (id : String) (r : Registry S)
      → ((t : Tenant) → KeepsIndex t (change t))
      → IsConsistent r
      → IsConsistent (update_tenant st change id r).1
  unfolding update_tenant
  update_tenant-IsConsistent change id r keeps c = elim (Option-cases (lookup id r.by_id)) [
    | inl e ↦ rw (e, update_tenant) c
    | inr (t, e) ↦
        rw (e, update_tenant)
          (replace-IsConsistent r _ _ (changed_at id change)
            (λ k u f. rw lookup-insert (ground (arith, eq_iff id k)))
            (λ k f. rw lookup-insert (ground (arith, eq_iff id k)))
            (λ k u. changed_at-KeepsIndex id change k u (keeps u)) c)
  ]

  enforce-IsConsistent :
      (now : ℤ) (r : Registry S) → IsConsistent r → IsConsistent (enforce st now r).1
  unfolding enforce
  enforce-IsConsistent now r c =
      replace-IsConsistent r _ _ (λ k t. enforced now t)
        (λ k t e. ground (arith, get-enforce st now r k))
        (λ k e. ground (arith, get-enforce st now r k)) (λ k t. enforced-KeepsIndex now t) c

module _ {ℓ} {S : Type ℓ} (st : Store S) (hash_key : String → String) where
  pub step-IsConsistent :
      (c : Call) (r : Registry S) → IsConsistent r → IsConsistent (step st hash_key c r)
  unfolding step with_usage with_quota with_status with_new_period
  step-IsConsistent (creates p) r = create_tenant-IsConsistent st hash_key p r
  step-IsConsistent (deletes id) r = delete_tenant-IsConsistent st id r
  step-IsConsistent (enforces now) r = enforce-IsConsistent st now r
  step-IsConsistent (adds_usage id delta) r =
      update_tenant-IsConsistent st (with_usage delta) id r
        (λ t. record { id = refl; key = refl; live = λ h. h })
  step-IsConsistent (sets_quota id quota credit expire_at) r =
      update_tenant-IsConsistent st (with_quota quota credit expire_at) id r
        (λ t. record { id = refl; key = refl; live = λ h. h })
  step-IsConsistent (suspends id reason) r =
      update_tenant-IsConsistent st (with_status suspended reason) id r
        (λ t. record { id = refl; key = refl; live = λ h e. cc })
  step-IsConsistent (resumes id) r =
      update_tenant-IsConsistent st (with_status active Reason.none) id r
        (λ t. record { id = refl; key = refl; live = λ h e. cc })
  step-IsConsistent (resets id) r =
      update_tenant-IsConsistent st with_new_period id r
        (λ t. record { id = refl; key = refl; live = λ h e. cc })

  -- From a registry whose two indexes agree, whatever calls are made and whatever the store replies
  -- to each, they still agree: every tenant stands under its own id and is the one that its key
  -- leads to, every key leads to a tenant with that key, and no tenant is marked deleted.
  pub run-IsConsistent :
      (cs : List Call) (r : Registry S) → IsConsistent r → IsConsistent (run st hash_key cs r)
  unfolding run
  run-IsConsistent [] r c = c
  run-IsConsistent (x ∷ cs) r c =
      run-IsConsistent cs (step st hash_key x r) (step-IsConsistent x r c)
