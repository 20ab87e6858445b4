-- ===== src/Controller/Agent/Router/Confined.antt =====
-- What a request to the agent can change.
use node_agent.Prelude.{
  String, ◌≡◌, ◌≢◌, ◌⊎◌, inl, inr, refl, sym, subst, true, Option, none, some, List, arith, ◌==◌,
  ◌&&◌, not, eq_iff, Option-cases, Bool-cases,
}
use node_agent.Prelude.Int.{ℤ}
use node_agent.Tenant.{Tenant, Code, Reason, Decision, master, tenant}
use node_agent.Tenant.Store.{Store}
use node_agent.Tenant.Auth.{decide, authenticate, authorize}
use node_agent.Tenant.Auth.Decisions.{IsServed, decide_iff, decide-tenant, owner, authorize-owner}
use node_agent.Shared.{Core, Manager, About}
use node_agent.Shared.Users.Frame.{Spares, Spares-refl, set_tenant_users-Spares}
use node_agent.Controller.Agent.{Host}
use node_agent.Controller.Agent.Customer.{UserInput, to_common_users, sync_users}
use node_agent.Controller.Agent.Router.{
  AdminRequest, TenantRequest, put_users, get_me, Protected, admin, customer, Request, get_health,
  protected, handle_customer, with_scope, authorized, serve,
}

module _ {S K : Type 0} (c : Core K) where
  sync_users-Spares :
      (id : String) (body : Option (List UserInput)) (m : Manager S K)
      → Spares id m (sync_users c id body m).1
  unfolding sync_users
  sync_users-Spares id none m = Spares-refl id m
  sync_users-Spares id (some inputs) m = elim (Option-cases (to_common_users inputs)) [
    | inl e ↦ rw (e, sync_users) (Spares-refl id m)
    | inr (us, e) ↦ rw (e, sync_users) (set_tenant_users-Spares c id us m)
  ]

  handle_customer-Spares :
      (id : String) (r : TenantRequest) (m : Manager S K) → Spares id m (handle_customer c id r m).1
  unfolding handle_customer
  handle_customer-Spares id (put_users body) m = sync_users-Spares id body m
  handle_customer-Spares id get_me m = Spares-refl id m

module _ {S K : Type 0} (hash_key : String → String) where
  -- What a request may do: nothing; as the operator's, anything; as a tenant's, what spares the
  -- others.
  abbrev pub MayChange : String → String → ℤ → Request → Manager S K → Manager S K → Type 0
  MayChange stored key now request m m' =
      (m' ≡ m)
      ⊎ ((stored ≢ "")
          × (hash_key key ≡ stored)
          × ((r : AdminRequest) × (request ≡ protected (admin r))))
      ⊎ ((t : Tenant) × (owner (hash_key key) m.reg ≡ some t) × IsServed now t × Spares t.id m m')

module _ {S K : Type 0} (about : About K) (c : Core K) (st : Store S) (host : Host)
    (hash_key : String → String) where
  master-MayChange :
      (stored key : String) (now : ℤ) (d : Decision) (r : Protected) (m : Manager S K)
      → stored ≢ ""
      → hash_key key ≡ stored
      → MayChange hash_key stored key now
          (protected r)
          m
          (authorized about c st host hash_key (master, d) r m).1
  unfolding authorized with_scope
  master-MayChange stored key now d (admin r) m set same = inr (inl (set, same, (r, refl)))
  master-MayChange stored key now d (customer r) m set same = inl refl

  let_in-MayChange :
      (stored key : String) (now : ℤ) (t : Tenant) (r : Protected) (m : Manager S K)
      → owner (hash_key key) m.reg ≡ some t
      → IsServed now t
      → MayChange hash_key stored key now
          (protected r)
          m
          (with_scope about c st host hash_key (tenant, some t.id) r m).1
  unfolding with_scope
  let_in-MayChange stored key now t (admin r) m owns served = inl refl
  let_in-MayChange stored key now t (customer r) m owns served =
      inr (inr (t, owns, served, handle_customer-Spares c t.id r m))

  tenant-MayChange :
      (stored key : String) (now : ℤ) (r : Protected) (m : Manager S K)
      → MayChange hash_key stored key now
          (protected r)
          m
          (authorized about c st host hash_key (tenant, authorize hash_key key now m.reg) r m).1
  unfolding authorized
  tenant-MayChange stored key now r m =
      let same = authorize-owner hash_key key now m.reg in
      elim (Option-cases (owner (hash_key key) m.reg)) [
        | inl e ↦ inl (rw (same, e) refl)
        | inr (t, e) ↦ elim (Bool-cases (decide now t).allowed) [
          | inr n ↦ inl (rw (same, e, n) refl)
          | inl y ↦
              let state : (authorized about c st host hash_key
                    (tenant, authorize hash_key key now m.reg) r m).1
                  ≡ (with_scope about c st host hash_key (tenant, some t.id) r m).1 =
                rw (same, e, y, decide-tenant now t) refl in
              subst (MayChange hash_key stored key now (protected r) m) (sym state)
                (let_in-MayChange stored key now t r m e ((decide_iff now t).0 y))
        ]
      ]

  -- A request either changes nothing; or it has the master key, which is set, and is one of the
  -- operator's; or its key leads to a tenant that is active, not past its expiry and below its limit,
  -- and then the registry, the core's configuration and the users of every other tenant stay.
  pub serve-MayChange :
      (stored key : String) (now : ℤ) (request : Request) (m : Manager S K)
      → MayChange hash_key stored key now request m
          (serve about c st host hash_key stored key now request m).1
  unfolding serve authenticate
  serve-MayChange stored key now get_health m = inl refl
  serve-MayChange stored key now (protected r) m = elim (Bool-cases (key == "")) [
    | inl y ↦ rw (y, serve) (inl refl)
    | inr keyed ↦ elim (Bool-cases (not (stored == "") && hash_key key == stored)) [
      | inl y ↦
          rw (keyed, y, serve)
            (master-MayChange stored key now
              (record { allowed = true; code = Code.ok; reason = Reason.none; tenant = none }) r m
              (λ z. ground (arith, y, z, eq_iff stored ""))
              (ground (arith, y, eq_iff (hash_key key) stored)))
      | inr n ↦ rw (keyed, n, serve) (tenant-MayChange stored key now r m)
    ]
  ]
