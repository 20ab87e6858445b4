-- ===== src/Shared/Lifecycle/Restore.antt =====
-- Suspending is not destructive: resuming brings a tenant back.
use node_agent.Prelude.{
  String, ◌≡◌, inl, inr, ap, ◌∙◌, some, [], ◌∷◌, arith, Option-cases, Result-cases,
}
use node_agent.Prelude.Dict.{Dict}
use node_agent.Common.{User}
use node_agent.Tenant.{Tenant, active, Reason}
use node_agent.Tenant.Store.{Store}
use node_agent.Tenant.Registry.{get, suspend, resume}
use node_agent.Tenant.Registry.Usage.{resume-suspend}
use node_agent.Shared.{Core, Manager, users_of, sync_to_core}
use node_agent.Shared.Lifecycle.{sync_loop, add_tenant_to_core, suspend_tenant, resume_tenant}
use node_agent.Shared.Lifecycle.Cutoff.{
  SameRecords, same_records, all_same, remove_tenant_from_core-SameRecords,
}

module _ {S K : Type 0} (c : Core K) where
  sync_to_core-SameRecords : (u : User) (m : Manager S K) → SameRecords m (sync_to_core c u m).1
  unfolding sync_to_core
  sync_to_core-SameRecords u m = record {
    reg = ground (arith, Option-cases m.core);
    users = ground (arith, Option-cases m.core);
    email_to = ground (arith, Option-cases m.core);
    creds = ground (arith, Option-cases m.core);
    last_seen = ground (arith, Option-cases m.core);
  }

  sync_loop-SameRecords : (us : Dict User) (m : Manager S K) → SameRecords m (sync_loop c us m).1
  unfolding sync_loop
  sync_loop-SameRecords [] m = all_same m
  sync_loop-SameRecords ((email, u) ∷ us) m =
      let one = sync_to_core-SameRecords u m in
      let m' = (sync_to_core c u m).1 in
      elim (Result-cases (sync_to_core c u m).0) [
        | inl (x, e) ↦ rw (e, sync_loop) (same_records m m' _ one (sync_loop-SameRecords us m'))
        | inr (x, e) ↦ rw (e, sync_loop) one
      ]

  pub add_tenant_to_core-SameRecords :
      (tenant_id : String) (m : Manager S K) → SameRecords m (add_tenant_to_core c tenant_id m).1
  unfolding add_tenant_to_core
  add_tenant_to_core-SameRecords tenant_id m =
      let r = sync_loop-SameRecords (users_of tenant_id m) m in
      record {
        reg = ground (arith, Option-cases m.core, r.reg);
        users = ground (arith, Option-cases m.core, r.users);
        email_to = ground (arith, Option-cases m.core, r.email_to);
        creds = ground (arith, Option-cases m.core, r.creds);
        last_seen = ground (arith, Option-cases m.core, r.last_seen);
      }

  module _ (st : Store S) where
    suspended :
        (tenant_id : String) (reason : Reason) (m : Manager S K)
        → SameRecords
            (record m { reg = (suspend st tenant_id reason m.reg).1 })
            (suspend_tenant c st tenant_id reason m).1
    unfolding suspend_tenant
    suspended tenant_id reason m =
        let m1 : Manager S K = record m { reg = (suspend st tenant_id reason m.reg).1 } in
        elim (Result-cases (suspend st tenant_id reason m.reg).0) [
          | inl (x, e) ↦ rw (e, suspend_tenant) (remove_tenant_from_core-SameRecords c tenant_id m1)
          | inr (x, e) ↦ rw (e, suspend_tenant) (all_same m1)
        ]

    resumed :
        (tenant_id : String) (m : Manager S K)
        → SameRecords
            (record m { reg = (resume st tenant_id m.reg).1 })
            (resume_tenant c st tenant_id m).1
    unfolding resume_tenant
    resumed tenant_id m =
        let m1 : Manager S K = record m { reg = (resume st tenant_id m.reg).1 } in
        elim (Result-cases (resume st tenant_id m.reg).0) [
          | inl (x, e) ↦ rw (e, resume_tenant) (add_tenant_to_core-SameRecords tenant_id m1)
          | inr (x, e) ↦ rw (e, resume_tenant) (all_same m1)
        ]

    -- A tenant that was active without a reason, suspended and then resumed, is what it was, in every
    -- field, whatever the store and the core reply; so is every other tenant, and so are the users,
    -- their credentials, the owners of their names, and the traffic seen.
    pub resume_tenant-suspend_tenant :
        (tenant_id : String) (reason : Reason) (m : Manager S K) (t : Tenant)
        → get tenant_id m.reg ≡ some t
        → t.status ≡ active
        → t.reason ≡ Reason.none
        → let m' = (resume_tenant c st tenant_id (suspend_tenant c st tenant_id reason m).1).1 in
          ((k : String) → get k m'.reg ≡ get k m.reg)
          × (m'.users ≡ m.users)
          × (m'.creds ≡ m.creds)
          × (m'.email_to ≡ m.email_to)
          × (m'.last_seen ≡ m.last_seen)
    resume_tenant-suspend_tenant tenant_id reason m t found a n =
        let m1 = (suspend_tenant c st tenant_id reason m).1 in
        let s = suspended tenant_id reason m in
        let r = resumed tenant_id m1 in
        (
          λ k.
              ap (get k) (r.reg ∙ ap (λ x. (resume st tenant_id x).1) s.reg)
              ∙ (resume-suspend st tenant_id reason m.reg t found a n k).0,
          r.users ∙ s.users,
          r.creds ∙ s.creds,
          r.email_to ∙ s.email_to,
          r.last_seen ∙ s.last_seen,
        )
