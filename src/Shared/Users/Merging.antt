-- ===== src/Shared/Users/Merging.antt =====
-- The loop of AddTenantUsers keeps the owners of credentials right.
use text.Mathlib.Text.{starts_with}
use text.Mathlib.TextPositions.{starts_with-append}
use node_agent.Prelude.{
  String, ◌≡◌, ◌≢◌, inl, inr, refl, sym, ap, ◌∙◌, subst, Bool, true, false, none, some, List, [],
  ◌∷◌, arith, ◌==◌, eq_iff, Bool-cases, Result-cases, if◌then◌else◌, In,
}
use node_agent.Prelude.Dict.{lookup, insert}
use node_agent.Common.{User}
use node_agent.Shared.{Core, Manager, prefix, user_credentials, users_of, build_user}
use node_agent.Shared.Names.{HasNoDot}
use node_agent.Shared.Users.{is_taken, store_user, sync_if_active, add_loop}
use node_agent.Shared.Users.Records.{In-insert, own_user-unused, own_user-owned, sync_if_active_lem}
use node_agent.Shared.Users.Credentials.{owned, is_free, Carries, is_taken-is_free}
use node_agent.Shared.Users.Owners.{AreOwned, users_of-insert, foreign-Unused, with_users}

module _ {S K : Type 0} where
  module _ (c : Core K) where
    store-AreOwned :
        (tenant_id : String) (nu : User) (m : Manager S K)
        → HasNoDot tenant_id
        → starts_with nu.email (prefix tenant_id) ≡ true
        → is_taken tenant_id m.creds nu.email (user_credentials nu) ≡ false
        → AreOwned m
        → AreOwned (store_user tenant_id nu m)
    unfolding store_user
    store-AreOwned tenant_id nu m d name free h other email u cred d' i has =
        let us = insert nu.email nu (users_of tenant_id m) in
        let m' = with_users tenant_id us m in
        let passed : (x : String) → Carries nu x → is_free tenant_id x m.creds ≡ true =
          λ x y. is_taken-is_free tenant_id nu.email (user_credentials nu) m.creds x name free y in
        elim (Bool-cases (tenant_id == other)) [
          | inl y ↦
              let same = (eq_iff tenant_id other).0 y in
              let j : In (email, u) us =
                subst (λ x. In (email, u) x)
                  (users_of-insert tenant_id other us m
                    ∙ ap (λ b. if b then us else users_of other m) y)
                  i in
              subst (λ x. owned x cred (store_user tenant_id nu m).creds ≡ true) same
                (own_user-owned tenant_id nu.email nu m' cred name
                  (elim (In-insert nu.email nu (users_of tenant_id m) (email, u) j) [
                    | inl s ↦ inl (subst (λ p. Carries p.1 cred) s has)
                    | inr l ↦ inr (h tenant_id email u cred d l has)
                  ]))
          | inr n ↦
              let differ : other ≢ tenant_id = λ e. ground (arith, e, n, eq_iff tenant_id other) in
              let j : In (email, u) (users_of other m) =
                subst (λ x. In (email, u) x)
                  (users_of-insert tenant_id other us m
                    ∙ ap (λ b. if b then us else users_of other m) n)
                  i in
              let own = h other email u cred d' j has in
              let unused =
                foreign-Unused tenant_id other cred ((nu.email, nu) ∷ []) m d d' differ own
                  (λ f v l y. elim l [
                    | inl s ↦ passed cred (subst (λ p. Carries p.1 cred) s y)
                    | inr x ↦ absurd x
                  ]) in
              ground (
                arith,
                own,
                own_user-unused tenant_id nu.email nu m' cred (unused nu.email nu (inl refl)),
              )
        ]

    same-AreOwned :
        (m m' : Manager S K) → m'.users ≡ m.users → m'.creds ≡ m.creds → AreOwned m → AreOwned m'
    same-AreOwned m m' e f h other email u cred d i has =
        subst (λ x. owned other cred x ≡ true) (sym f)
          (h other email u cred d
            (subst (λ x. In (email, u) (elim (lookup other x) [ none ↦ [] | some us ↦ us ])) e i)
            has)

    pub add_loop-AreOwned :
        (tenant_id : String) (active : Bool) (us : List User) (m : Manager S K)
        → HasNoDot tenant_id
        → AreOwned m
        → AreOwned (add_loop c tenant_id active us m).1
    unfolding add_loop build_user
    add_loop-AreOwned tenant_id active [] m d h = h
    add_loop-AreOwned tenant_id active (u ∷ us) m d h =
        let nu = build_user tenant_id u m in
        let m1 = store_user tenant_id nu m in
        let m2 = (sync_if_active c active nu m1).1 in
        elim (Bool-cases (is_taken tenant_id m.creds nu.email (user_credentials nu))) [
          | inl y ↦ rw (y, add_loop) h
          | inr n ↦
              let stored =
                store-AreOwned tenant_id nu m d (starts_with-append (prefix tenant_id) u.email) n
                  h in
              let synced =
                same-AreOwned m1 m2 (sync_if_active_lem c active nu m1).0
                  (sync_if_active_lem c active nu m1).1 stored in
              elim (Result-cases (sync_if_active c active nu m1).0) [
                | inl (x, e) ↦
                    rw (n, e, add_loop) (add_loop-AreOwned tenant_id active us m2 d synced)
                | inr (x, e) ↦ rw (n, e, add_loop) synced
              ]
        ]
