-- ===== src/Shared/Users/Frame.antt =====
-- What SetTenantUsers and AddTenantUsers leave alone: the registry, the settings, and the records of
-- every other tenant.
use node_agent.Prelude.{
  String, ◌≡◌, ◌≢◌, inl, inr, refl, ◌∙◌, Bool, List, [], ◌∷◌, arith, eq_iff, Option-cases,
  Result-cases, Bool-cases, if◌then◌else◌,
}
use node_agent.Prelude.Dict.{Dict, lookup, insert, lookup-insert, has_key}
use node_agent.Common.{User}
use node_agent.Tenant.Registry.{get}
use node_agent.Shared.{
  Core, Manager, users_of, user_credentials, build_user, sync_to_core, remove_from_core,
}
use node_agent.Shared.Users.{
  forget_user, own_user, store_user, new_set, check_batch, is_taken, remove_absent, sync_if_active,
  refresh, set_tenant_users, add_loop, add_tenant_users, tenant_is_active,
}

module _ {S K : Type 0} where
  -- Two states that differ at most in the records of one tenant, in the indexes of names and
  -- credentials, and in the core.
  pub record Spares (tenant_id : String) (m m' : Manager S K) : Type 0 where
    pub reg : m'.reg ≡ m.reg
    pub config : m'.config ≡ m.config
    pub force_inbounds : m'.force_inbounds ≡ m.force_inbounds
    pub users : (k : String) → k ≢ tenant_id → lookup k m'.users ≡ lookup k m.users

  pub Spares-refl : (tenant_id : String) (m : Manager S K) → Spares tenant_id m m
  Spares-refl tenant_id m = record {
    reg = refl;
    config = refl;
    force_inbounds = refl;
    users = λ k d. refl;
  }

  pub Spares-trans :
      (tenant_id : String) (m m1 m2 : Manager S K)
      → Spares tenant_id m m1
      → Spares tenant_id m1 m2
      → Spares tenant_id m m2
  Spares-trans tenant_id m m1 m2 a b = record {
    reg = b.reg ∙ a.reg;
    config = b.config ∙ a.config;
    force_inbounds = b.force_inbounds ∙ a.force_inbounds;
    users = λ k d. b.users k d ∙ a.users k d;
  }

  with_users-Spares :
      (tenant_id : String) (us : Dict User) (m : Manager S K)
      → Spares tenant_id m (record m { users = insert tenant_id us m.users })
  with_users-Spares tenant_id us m = record {
    reg = refl;
    config = refl;
    force_inbounds = refl;
    users = λ k d. ground (arith, lookup-insert tenant_id k us m.users, eq_iff tenant_id k, d);
  }

  module _ (c : Core K) (tenant_id : String) where
    remove_absent-Spares :
        (us kept : Dict User) (m : Manager S K) → Spares tenant_id m (remove_absent c us kept m)
    unfolding remove_absent forget_user remove_from_core
    remove_absent-Spares [] kept m = Spares-refl tenant_id m
    remove_absent-Spares ((email, u) ∷ us) kept m =
        let m' = if has_key email kept then m else forget_user email u (remove_from_core c u m) in
        let one : Spares tenant_id m m' = record {
          reg = ground (arith, Option-cases m.core);
          config = ground (arith, Option-cases m.core);
          force_inbounds = ground (arith, Option-cases m.core);
          users = λ k d. ground (arith, Option-cases m.core);
        } in
        Spares-trans tenant_id m m' _ one (remove_absent-Spares us kept m')

    sync_if_active-Spares :
        (active : Bool) (u : User) (m : Manager S K)
        → Spares tenant_id m (sync_if_active c active u m).1
    unfolding sync_if_active sync_to_core
    sync_if_active-Spares active u m = record {
      reg = ground (arith, Option-cases m.core);
      config = ground (arith, Option-cases m.core);
      force_inbounds = ground (arith, Option-cases m.core);
      users = λ k d. ground (arith, Option-cases m.core);
    }

    own_user-Spares :
        (email : String) (u : User) (m : Manager S K)
        → Spares tenant_id m (own_user tenant_id email u m)
    unfolding own_user
    own_user-Spares email u m = record {
      reg = refl;
      config = refl;
      force_inbounds = refl;
      users = λ k d. refl;
    }

    refresh-Spares :
        (active : Bool) (us : Dict User) (m : Manager S K)
        → Spares tenant_id m (refresh c tenant_id active us m).1
    unfolding refresh
    refresh-Spares active [] m = Spares-refl tenant_id m
    refresh-Spares active ((email, u) ∷ us) m =
        let m1 = own_user tenant_id email u m in
        let m2 = (sync_if_active c active u m1).1 in
        let one =
          Spares-trans tenant_id m m1 m2 (own_user-Spares email u m)
            (sync_if_active-Spares active u m1) in
        elim (Result-cases (sync_if_active c active u m1).0) [
          | inr (e, f) ↦ rw (f, refresh) one
          | inl (x, f) ↦
              rw (f, refresh) (Spares-trans tenant_id m m2 _ one (refresh-Spares active us m2))
        ]

    pub set_tenant_users-Spares :
        (us : List User) (m : Manager S K)
        → Spares tenant_id m (set_tenant_users c tenant_id us m).1
    unfolding set_tenant_users
    set_tenant_users-Spares us m = elim (Option-cases (get tenant_id m.reg)) [
      | inl e ↦ rw (e, set_tenant_users) (Spares-refl tenant_id m)
      | inr (t, e) ↦
          let set = new_set tenant_id us m [] in
          elim (Result-cases (check_batch tenant_id m.creds set [])) [
            | inr (x, f) ↦ rw (e, f, set_tenant_users) (Spares-refl tenant_id m)
            | inl (x, f) ↦
                let m1 = remove_absent c (users_of tenant_id m) set m in
                let done = refresh c tenant_id (tenant_is_active t) set m1 in
                let both =
                  Spares-trans tenant_id m m1 done.1
                    (remove_absent-Spares (users_of tenant_id m) set m)
                    (refresh-Spares (tenant_is_active t) set m1) in
                elim (Result-cases done.0) [
                  | inr (y, g) ↦ rw (e, f, g, set_tenant_users) both
                  | inl (y, g) ↦
                      rw (e, f, g, set_tenant_users)
                        (Spares-trans tenant_id m done.1 _ both
                          (with_users-Spares tenant_id set done.1))
                ]
          ]
    ]

    store_user-Spares : (u : User) (m : Manager S K) → Spares tenant_id m (store_user tenant_id u m)
    unfolding store_user
    store_user-Spares u m =
        let us = insert u.email u (users_of tenant_id m) in
        Spares-trans tenant_id m (record m { users = insert tenant_id us m.users }) _
          (with_users-Spares tenant_id us m) (own_user-Spares u.email u _)

    add_loop-Spares :
        (active : Bool) (us : List User) (m : Manager S K)
        → Spares tenant_id m (add_loop c tenant_id active us m).1
    unfolding add_loop
    add_loop-Spares active [] m = Spares-refl tenant_id m
    add_loop-Spares active (u ∷ us) m =
        let nu = build_user tenant_id u m in
        let m1 = store_user tenant_id nu m in
        let m2 = (sync_if_active c active nu m1).1 in
        let one =
          Spares-trans tenant_id m m1 m2 (store_user-Spares nu m)
            (sync_if_active-Spares active nu m1) in
        elim (Bool-cases (is_taken tenant_id m.creds nu.email (user_credentials nu))) [
          | inl y ↦ rw (y, add_loop) (Spares-refl tenant_id m)
          | inr n ↦ elim (Result-cases (sync_if_active c active nu m1).0) [
            | inr (e, f) ↦ rw (n, f, add_loop) one
            | inl (x, f) ↦
                rw (n, f, add_loop)
                  (Spares-trans tenant_id m m2 _ one (add_loop-Spares active us m2))
          ]
        ]

    pub add_tenant_users-Spares :
        (us : List User) (m : Manager S K)
        → Spares tenant_id m (add_tenant_users c tenant_id us m).1
    unfolding add_tenant_users
    add_tenant_users-Spares us m = elim (Option-cases (get tenant_id m.reg)) [
      | inl e ↦ rw (e, add_tenant_users) (Spares-refl tenant_id m)
      | inr (t, e) ↦
          let m1 : Manager S K = record m {
            users = insert tenant_id (users_of tenant_id m) m.users;
          } in
          rw (e, add_tenant_users)
            (Spares-trans tenant_id m m1 _ (with_users-Spares tenant_id (users_of tenant_id m) m)
              (add_loop-Spares (tenant_is_active t) us m1))
    ]
