-- ===== src/Shared/Lifecycle/Reapply.antt =====
-- A new configuration of the core keeps the manager's records.
use node_agent.Prelude.{
  String, inl, inr, refl, Option, none, some, [], ◌∷◌, Option-cases, Result-cases, Bool-cases,
}
use node_agent.Prelude.Dict.{Dict}
use node_agent.Common.{User}
use node_agent.Tenant.Registry.{get}
use node_agent.Shared.{Core, Manager}
use node_agent.Shared.Users.{tenant_is_active}
use node_agent.Shared.Lifecycle.{
  stop, start_core_locked, add_tenant_to_core, readd_loop, apply_config,
}
use node_agent.Shared.Lifecycle.Cutoff.{SameRecords, same_records, all_same}
use node_agent.Shared.Lifecycle.Restore.{add_tenant_to_core-SameRecords}

module _ {S K : Type 0} where
  with_core-SameRecords :
      (core : Option K) (config : String) (m : Manager S K)
      → SameRecords m (record m { core = core; config = config })
  with_core-SameRecords core config m = record {
    reg = refl;
    users = refl;
    email_to = refl;
    creds = refl;
    last_seen = refl;
  }

module _ {S K : Type 0} (c : Core K) where
  readd_loop-SameRecords :
      (all : Dict (Dict User)) (m : Manager S K) → SameRecords m (readd_loop c all m).1
  unfolding readd_loop
  readd_loop-SameRecords [] m = all_same m
  readd_loop-SameRecords ((tenant_id, us) ∷ more) m =
      let m' = (add_tenant_to_core c tenant_id m).1 in
      let one = add_tenant_to_core-SameRecords c tenant_id m in
      elim (Option-cases (get tenant_id m.reg)) [
        | inl e ↦ rw (e, readd_loop) (readd_loop-SameRecords more m)
        | inr (t, e) ↦ elim (Bool-cases (tenant_is_active t)) [
          | inr n ↦ rw (e, n, readd_loop) (readd_loop-SameRecords more m)
          | inl y ↦ elim (Result-cases (add_tenant_to_core c tenant_id m).0) [
            | inr (x, f) ↦ rw (e, y, f, readd_loop) one
            | inl (x, f) ↦
                rw (e, y, f, readd_loop) (same_records m m' _ one (readd_loop-SameRecords more m'))
          ]
        ]
      ]

  start_core_locked-SameRecords :
      (config : String) (m : Manager S K) → SameRecords m (start_core_locked c config m).1
  unfolding start_core_locked
  start_core_locked-SameRecords config m = elim (Result-cases (c.start config)) [
    | inl (k, e) ↦ rw (e, start_core_locked) (with_core-SameRecords (some k) config m)
    | inr (x, e) ↦ rw (e, start_core_locked) (all_same m)
  ]

  pub apply_config-SameRecords :
      (config : String) (m : Manager S K) → SameRecords m (apply_config c config m).1
  unfolding apply_config
  apply_config-SameRecords config m =
      let started = start_core_locked c config (stop m) in
      let one : SameRecords m started.1 =
        same_records m (stop m) _ (with_core-SameRecords none m.config m)
          (start_core_locked-SameRecords config (stop m)) in
      elim (Result-cases started.0) [
        | inr (x, e) ↦ rw (e, apply_config) one
        | inl (x, e) ↦
            rw (e, apply_config)
              (same_records m started.1 _ one (readd_loop-SameRecords started.1.users started.1))
      ]
