-- ===== src/Shared/Users/Isolation.antt =====
-- Tenants do not share credentials, for tenants whose ids have no dot.
use node_agent.Prelude.{
  String, ◌≡◌, ◌≢◌, inl, inr, sym, ap, ◌∙◌, subst, Bool, true, false, none, some, List, [], arith,
  ◌==◌, eq_iff, Option-cases, Bool-cases, Result-cases, if◌then◌else◌, ok, In, contains,
}
use node_agent.Prelude.Dict.{Dict, lookup}
use node_agent.Common.{User}
use node_agent.Tenant.Registry.{get}
use node_agent.Shared.{Core, Manager, user_credentials, users_of}
use node_agent.Shared.Names.{HasNoDot}
use node_agent.Shared.Users.{
  check_batch, new_set, remove_absent, refresh, set_tenant_users, add_tenant_users,
  tenant_is_active,
}
use node_agent.Shared.Users.Records.{
  Unused, AreNamed, new_set-AreNamed, refresh-Unused, refresh-users, refresh-Carries,
  remove_absent-users, remove_absent-Unused,
}
use node_agent.Shared.Users.Credentials.{
  owned, Carries, owned_apart, is_free-owned, check_batch-is_free,
}
use node_agent.Shared.Users.Owners.{AreOwned, users_of-insert, foreign-Unused, with_users}
use node_agent.Shared.Users.Merging.{add_loop-AreOwned}

module _ {S K : Type 0} where
  -- A credential that a user of one tenant has, no user of another tenant has.
  pub AreOwned-apart :
      (m : Manager S K) (a b email email' : String) (u v : User) (cred : String)
      → AreOwned m
      → HasNoDot a
      → HasNoDot b
      → a ≢ b
      → In (email, u) (users_of a m)
      → In (email', v) (users_of b m)
      → Carries u cred
      → contains (user_credentials v) cred ≡ false
  AreOwned-apart m a b email email' u v cred h da db differ i j c =
      elim (Bool-cases (contains (user_credentials v) cred)) [
        | inr n ↦ n
        | inl d ↦ absurd (
            differ (
              owned_apart a b cred m.creds da db (h a email u cred da i c)
                (is_free-owned b cred m.creds (h b email' v cred db j d))))
      ]

  module _ (c : Core K) where
    abbrev refreshed_set : String → Bool → Dict User → Manager S K → Manager S K
    refreshed_set tenant_id active set m =
        (refresh c tenant_id active set (remove_absent c (users_of tenant_id m) set m)).1

    set-AreOwned :
        (tenant_id : String) (active : Bool) (set : Dict User) (batch : Dict String)
        (m : Manager S K)
        → HasNoDot tenant_id
        → AreNamed tenant_id set
        → check_batch tenant_id m.creds set [] ≡ ok batch
        → (refresh c tenant_id active set (remove_absent c (users_of tenant_id m) set m)).0 ≡ ok tt
        → AreOwned m
        → AreOwned (with_users tenant_id set (refreshed_set tenant_id active set m))
    set-AreOwned tenant_id active set batch m d named checked done h other email u cred d' i has =
        let m1 = remove_absent c (users_of tenant_id m) set m in
        let m2 = refreshed_set tenant_id active set m in
        elim (Bool-cases (tenant_id == other)) [
          | inl y ↦
              let same = (eq_iff tenant_id other).0 y in
              let j : In (email, u) set =
                subst (λ x. In (email, u) x)
                  (users_of-insert tenant_id other set m2
                    ∙ ap (λ b. if b then set else users_of other m2) y)
                  i in
              subst (λ x. owned x cred m2.creds ≡ true) same
                (refresh-Carries c tenant_id active set m1 email u cred named done j has)
          | inr n ↦
              let differ : other ≢ tenant_id = λ e. ground (arith, e, n, eq_iff tenant_id other) in
              let kept : users_of other m2 ≡ users_of other m =
                ap (λ x. elim (lookup other x) [ none ↦ [] | some us ↦ us ])
                  (refresh-users c tenant_id active set m1
                    ∙ remove_absent-users c (users_of tenant_id m) set m) in
              let j : In (email, u) (users_of other m) =
                subst (λ x. In (email, u) x)
                  (users_of-insert tenant_id other set m2
                    ∙ ap (λ b. if b then set else users_of other m2) n
                    ∙ kept)
                  i in
              let own = h other email u cred d' j has in
              let old : Unused cred (users_of tenant_id m) =
                foreign-Unused tenant_id other cred (users_of tenant_id m) m d d' differ own
                  (λ f v l y. is_free-owned tenant_id cred m.creds (h tenant_id f v cred d l y)) in
              let new : Unused cred set =
                foreign-Unused tenant_id other cred set m d d' differ own (λ f v l y.
                  check_batch-is_free tenant_id m.creds set [] batch f v cred checked l y) in
              ground (
                arith,
                own,
                refresh-Unused c tenant_id active set m1 cred new,
                remove_absent-Unused c (users_of tenant_id m) set m cred old,
              )
        ]

    -- After SetTenantUsers that succeeds, every credential that a user of a tenant whose id has no
    -- dot has still leads to a name of that tenant. Conditions: it did before, and the id of the
    -- tenant whose users are set has no dot.
    pub set_tenant_users-AreOwned :
        (tenant_id : String) (us : List User) (m : Manager S K)
        → HasNoDot tenant_id
        → AreOwned m
        → (set_tenant_users c tenant_id us m).0 ≡ ok tt
        → AreOwned (set_tenant_users c tenant_id us m).1
    unfolding set_tenant_users
    set_tenant_users-AreOwned tenant_id us m d h done = elim (Option-cases (get tenant_id m.reg)) [
      | inl e ↦ ground (arith, e, done)
      | inr (t, e) ↦
          let set = new_set tenant_id us m [] in
          let active = tenant_is_active t in
          let m1 = remove_absent c (users_of tenant_id m) set m in
          let looped = Result-cases (refresh c tenant_id active set m1).0 in
          elim (Result-cases (check_batch tenant_id m.creds set [])) [
            | inr (x, f) ↦ ground (arith, e, f, done)
            | inl (batch, f) ↦
                let finished : (refresh c tenant_id active set m1).0 ≡ ok tt =
                  ground (arith, e, f, looped, done) in
                let result : (set_tenant_users c tenant_id us m).1
                    ≡ with_users tenant_id set (refreshed_set tenant_id active set m) =
                  ground (arith, e, f, finished) in
                subst AreOwned (sym result) (
                  set-AreOwned tenant_id active set batch m d
                    (new_set-AreNamed tenant_id us m [] (λ g v i. elim i [ ])) f finished h)
          ]
    ]

    -- After AddTenantUsers, with any reply, every credential that a user of a tenant whose id has no
    -- dot has still leads to a name of that tenant. Conditions: it did before, and the id of the
    -- tenant that gets the users has no dot.
    pub add_tenant_users-AreOwned :
        (tenant_id : String) (us : List User) (m : Manager S K)
        → HasNoDot tenant_id
        → AreOwned m
        → AreOwned (add_tenant_users c tenant_id us m).1
    unfolding add_tenant_users
    add_tenant_users-AreOwned tenant_id us m d h = elim (Option-cases (get tenant_id m.reg)) [
      | inl e ↦ rw (e, add_tenant_users) h
      | inr (t, e) ↦
          rw (e, add_tenant_users)
            (add_loop-AreOwned c tenant_id (tenant_is_active t) us
              (with_users tenant_id (users_of tenant_id m) m) d
              (λ other email u cred d' i has.
                let same : users_of other (with_users tenant_id (users_of tenant_id m) m)
                    ≡ users_of other m =
                  users_of-insert tenant_id other (users_of tenant_id m) m
                  ∙ ground (arith, eq_iff tenant_id other) in
                h other email u cred d' (subst (λ x. In (email, u) x) same i) has))
    ]
