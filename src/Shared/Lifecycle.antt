-- ===== src/Shared/Lifecycle.antt =====
-- shared/manager.go, lines 110 to 204, 305 to 317, 423 to 463 and 547 to 565: the core's start and
-- stop, and a tenant's suspension, resumption and deletion.
pub mod Cutoff
pub mod Restore
pub mod Reapply
use node_agent.Prelude.{
  ℕ, suc, String, Bool, true, false, Option, none, some, List, [], ◌∷◌, ◌==◌, if◌then◌else◌, Result,
  ok, err,
}
use node_agent.Prelude.Dict.{Dict, lookup, delete}
use node_agent.Common.{User}
use node_agent.Tenant.{Reason}
use node_agent.Tenant.Store.{Store}
use node_agent.Tenant.Registry.{get, suspend, resume, delete_tenant as delete_registered}
use node_agent.Shared.{
  Core, Manager, registry, core_already_started, no_config, core_failed, sync_failed, Answer,
  users_of, sync_to_core, remove_from_core,
}
use node_agent.Shared.Users.{forget_user, tenant_is_active}

abbrev count : Dict User → ℕ
count [] = 0
count (u ∷ us) = suc (count us)

module _ {S K : Type 0} where
  -- The core is shut down and forgotten.
  abbrev pub stop : Manager S K → Manager S K
  stop m = record m { core = none }

  abbrev pub tenant_user_count : String → Manager S K → ℕ
  tenant_user_count tenant_id m = count (users_of tenant_id m)

  unfoldable pub forget_loop : Dict User → Manager S K → Manager S K
  unfolding forget_user
  forget_loop [] m = m
  forget_loop ((email, u) ∷ us) m = forget_loop us (forget_user email u m)

  module _ (c : Core K) where
    unfoldable pub start_core_locked : String → Manager S K → Answer × Manager S K
    start_core_locked config m = elim (c.start config) [
      | err e ↦ (err (core_failed e), m)
      | ok k ↦ (ok tt, record m { core = some k; config = config })
    ]

    unfoldable pub start_core : String → Manager S K → Answer × Manager S K
    unfolding start_core_locked
    start_core config m = elim m.core [
      | some _ ↦ (err core_already_started, m)
      | none ↦ start_core_locked config m
    ]

    unfoldable pub sync_loop : Dict User → Manager S K → Answer × Manager S K
    unfolding sync_to_core
    sync_loop [] m = (ok tt, m)
    sync_loop ((email, u) ∷ us) m =
        let (reply, m') = sync_to_core c u m in
        elim reply [ err e ↦ (err (sync_failed email e), m') | ok _ ↦ sync_loop us m' ]

    -- Without a core the loop would do nothing: `sync_to_core` leaves the manager as it is.
    unfoldable pub add_tenant_to_core : String → Manager S K → Answer × Manager S K
    unfolding sync_loop
    add_tenant_to_core tenant_id m = elim m.core [
      | none ↦ (ok tt, m)
      | some _ ↦ sync_loop (users_of tenant_id m) m
    ]

    unfoldable pub remove_loop : Dict User → Manager S K → Manager S K
    unfolding remove_from_core
    remove_loop [] m = m
    remove_loop ((email, u) ∷ us) m = remove_loop us (remove_from_core c u m)

    unfoldable pub remove_tenant_from_core : String → Manager S K → Manager S K
    unfolding remove_loop
    remove_tenant_from_core tenant_id m = elim m.core [
      | none ↦ m
      | some _ ↦ remove_loop (users_of tenant_id m) m
    ]

    -- The loop of ApplyConfig over the tenants: the active ones come back.
    unfoldable pub readd_loop : Dict (Dict User) → Manager S K → Answer × Manager S K
    unfolding add_tenant_to_core
    readd_loop [] m = (ok tt, m)
    readd_loop ((tenant_id, us) ∷ more) m =
        let (reply, m') = add_tenant_to_core tenant_id m in
        let skipped = readd_loop more m in
        let added : Answer × Manager S K = elim reply [
          | err e ↦ (err e, m')
          | ok _ ↦ readd_loop more m'
        ] in
        elim (get tenant_id m.reg) [
          | none ↦ skipped
          | some t ↦ if tenant_is_active t then added else skipped
        ]

    unfoldable pub apply_config : String → Manager S K → Answer × Manager S K
    unfolding start_core_locked readd_loop
    apply_config config m =
        let (reply, m') = start_core_locked config (stop m) in
        elim reply [ err e ↦ (err e, m') | ok _ ↦ readd_loop m'.users m' ]

    unfoldable pub restart_core : Manager S K → Answer × Manager S K
    unfolding apply_config
    restart_core m =
        let applied = apply_config m.config m in
        if m.config == "" then (err no_config, m) else applied

    module _ (st : Store S) where
      unfoldable pub suspend_tenant : String → Reason → Manager S K → Answer × Manager S K
      unfolding remove_tenant_from_core
      suspend_tenant tenant_id reason m =
          let (reply, reg) = suspend st tenant_id reason m.reg in
          let m' : Manager S K = record m { reg = reg } in
          elim reply [
            | err e ↦ (err (registry e), m')
            | ok _ ↦ (ok tt, remove_tenant_from_core tenant_id m')
          ]

      unfoldable pub resume_tenant : String → Manager S K → Answer × Manager S K
      unfolding add_tenant_to_core
      resume_tenant tenant_id m =
          let (reply, reg) = resume st tenant_id m.reg in
          let m' : Manager S K = record m { reg = reg } in
          elim reply [ err e ↦ (err (registry e), m') | ok _ ↦ add_tenant_to_core tenant_id m' ]

      unfoldable pub delete_tenant : String → Manager S K → Answer × Manager S K
      unfolding remove_tenant_from_core forget_loop
      delete_tenant tenant_id m =
          let cut = remove_tenant_from_core tenant_id m in
          let (reply, reg) = delete_registered st tenant_id cut.reg in
          let m' : Manager S K = record cut { reg = reg } in
          let forgotten = forget_loop (users_of tenant_id m') m' in
          elim reply [
            | err e ↦ (err (registry e), m')
            | ok _ ↦ (ok tt, record forgotten { users = delete tenant_id forgotten.users })
          ]
