-- ===== src/Controller/Grpccompat/Confined.antt =====
-- Whom the gRPC service serves, and what a request can change.
use node_agent.Prelude.{
  String, ◌≡◌, ◌≢◌, ◌⊎◌, inl, inr, refl, sym, ap, subst, Option, none, some, List, [], ◌∷◌, arith,
  ◌==◌, ◌&&◌, not, eq_iff, Option-cases, List-cases, Bool-cases, Result-cases, ok, err,
}
use node_agent.Prelude.Int.{ℤ}
use node_agent.Common.{User}
use node_agent.Tenant.{Tenant, Scope, Decision}
use node_agent.Tenant.Registry.{Registry}
use node_agent.Tenant.Auth.{decide, authenticate}
use node_agent.Tenant.Auth.Decisions.{IsServed, decide_iff, decide-tenant, owner, authorize-owner}
use node_agent.Shared.{Core, Manager, Answer, About}
use node_agent.Shared.Lifecycle.{apply_config}
use node_agent.Shared.Lifecycle.Cutoff.{SameRecords, all_same}
use node_agent.Shared.Lifecycle.Reapply.{apply_config-SameRecords}
use node_agent.Shared.Traffic.{get_tenant_user_stats}
use node_agent.Shared.Users.{set_tenant_users, add_tenant_users}
use node_agent.Shared.Users.Frame.{
  Spares, Spares-refl, set_tenant_users-Spares, add_tenant_users-Spares,
}
use node_agent.Controller.Grpccompat.{
  Server, CallerInfo, scope_core, scope_tenant, classify, Stream, BackendType, Backend, xray,
  wireguard, Request, start, sync_users, sync_user, sync_users_chunked, get_base_info, stop,
  get_stats, get_logs, get_backend_stats, get_outbounds_latency, get_user_online_stats,
  get_user_online_ip_list_stats, Reply, join_chunks, resolve_caller, replied, start_for,
  sync_users_for, sync_user_for, sync_users_chunked_for, get_stats_for, handle, serve,
}

classify-tenant : (x : Scope × Decision) → classify x ≢ ok scope_core
classify-tenant (Scope.none, d) e = ground (arith, e)
classify-tenant (Scope.master, d) e = ground (arith, e)
classify-tenant (Scope.tenant, d) e = ground (arith, e, Option-cases d.tenant)

BackendType-cases : (t : BackendType) → (t ≡ wireguard) ⊎ (t ≡ xray)
BackendType-cases wireguard = inl refl
BackendType-cases xray = inr refl

module _ {S : Type 0} (hash_key : String → String) (srv : Server) (now : ℤ) (r : Registry S) where
  -- What a caller has shown with its key.
  abbrev IsEntitled : String → CallerInfo → Type 0
  IsEntitled key scope_core = (srv.core_key ≢ "") × (key ≡ srv.core_key)
  IsEntitled key (scope_tenant id) =
      (t : Tenant) × (owner (hash_key key) r ≡ some t) × IsServed now t × (t.id ≡ id)

  authenticate-caller :
      (stored key id : String)
      → classify (authenticate hash_key stored key now r) ≡ ok (scope_tenant id)
      → IsEntitled key (scope_tenant id)
  unfolding authenticate
  authenticate-caller stored key id e =
      elim (Bool-cases (not (stored == "") && hash_key key == stored)) [
        | inl y ↦ absurd (ground (arith, e, y))
        | inr n ↦ elim (Option-cases (owner (hash_key key) r)) [
          | inl none_owns ↦
              absurd (ground (arith, e, n, authorize-owner hash_key key now r, none_owns))
          | inr (t, owns) ↦ elim (Bool-cases (decide now t).allowed) [
            | inr denied ↦
                absurd (ground (arith, e, n, authorize-owner hash_key key now r, owns, denied))
            | inl allowed ↦ (
              t,
              owns,
              (decide_iff now t).0 allowed,
              ground (
                arith,
                e,
                n,
                authorize-owner hash_key key now r,
                owns,
                allowed,
                decide-tenant now t,
              ),
            )
          ]
        ]
      ]

  resolve_caller-IsEntitled :
      (key : String) (keys : List String) (caller : CallerInfo)
      → resolve_caller hash_key srv (some (key ∷ keys)) now r ≡ ok caller
      → IsEntitled key caller
  unfolding resolve_caller
  resolve_caller-IsEntitled key keys scope_core e =
      elim (Bool-cases (not (srv.core_key == "") && key == srv.core_key)) [
        | inl y ↦ (
          λ z. ground (arith, y, z, eq_iff srv.core_key ""),
          ground (arith, y, eq_iff key srv.core_key),
        )
        | inr n ↦ elim (Option-cases srv.authn) [
          | inl f ↦ absurd (ground (arith, e, n, f))
          | inr (stored, f) ↦
              absurd
                (classify-tenant (authenticate hash_key stored key now r) (ground (arith, e, n, f)))
        ]
      ]
  resolve_caller-IsEntitled key keys (scope_tenant id) e = elim (Option-cases srv.authn) [
    | inl f ↦ absurd (ground (arith, e, f))
    | inr (stored, f) ↦
        let taken : classify (authenticate hash_key stored key now r) ≡ ok (scope_tenant id) =
          ground (
            arith,
            e,
            f,
            Bool-cases (key == ""),
            Bool-cases (not (srv.core_key == "") && key == srv.core_key),
          ) in
        authenticate-caller stored key id taken
  ]

module _ {S K : Type 0} (about : About K) (c : Core K) where
  -- What a handler may change for its caller: for the core's, no record of the manager.
  abbrev StaysIn : CallerInfo → Manager S K → Manager S K → Type 0
  StaysIn scope_core m m' = SameRecords m m'
  StaysIn (scope_tenant id) m m' = Spares id m m'

  StaysIn-refl : (caller : CallerInfo) (m : Manager S K) → StaysIn caller m m
  StaysIn-refl scope_core m = all_same m
  StaysIn-refl (scope_tenant id) m = Spares-refl id m

  replied-state : (reply : Reply) (x : Answer × Manager S K) → (replied about c reply x).1 ≡ x.1
  replied-state reply (ok _, m) = refl
  replied-state reply (err e, m) = refl

  start_for-StaysIn :
      (caller : CallerInfo) (b : Backend) (m : Manager S K)
      → StaysIn caller m (start_for about c caller b m).1
  unfolding start_for
  start_for-StaysIn (scope_tenant id) b m =
      subst (Spares id m) (sym (replied-state _ (set_tenant_users c id b.users m)))
        (set_tenant_users-Spares c id b.users m)
  start_for-StaysIn scope_core b m = elim (BackendType-cases b.type) [
    | inl e ↦ rw (e, start_for) (all_same m)
    | inr e ↦ elim (Bool-cases (b.config == "")) [
      | inl y ↦ rw (e, y, start_for) (all_same m)
      | inr n ↦
          rw (e, n, start_for)
            (subst (SameRecords m) (sym (replied-state _ (apply_config c b.config m)))
              (apply_config-SameRecords c b.config m))
    ]
  ]

  sync_users_for-StaysIn :
      (caller : CallerInfo) (us : List User) (m : Manager S K)
      → StaysIn caller m (sync_users_for about c caller us m).1
  unfolding sync_users_for
  sync_users_for-StaysIn scope_core us m = all_same m
  sync_users_for-StaysIn (scope_tenant id) us m =
      subst (Spares id m) (sym (replied-state _ (set_tenant_users c id us m)))
        (set_tenant_users-Spares c id us m)

  sync_user_for-StaysIn :
      (caller : CallerInfo) (s : Stream User) (m : Manager S K)
      → StaysIn caller m (sync_user_for about c caller s m).1
  unfolding sync_user_for
  sync_user_for-StaysIn caller s m = elim (Option-cases s.broken) [
    | inr (e, f) ↦ rw (f, sync_user_for) (StaysIn-refl caller m)
    | inl f ↦ rw (f, sync_user_for) (finished caller)
  ]
    where
      finished :
          (caller : CallerInfo)
          → StaysIn caller m (sync_user_for about c caller (record s { broken = none }) m).1
      finished scope_core = all_same m
      finished (scope_tenant id) = elim (List-cases s.received) [
        | inl e ↦ rw (e, sync_user_for) (Spares-refl id m)
        | inr (u, us, e) ↦
            rw (e, sync_user_for)
              (subst (Spares id m) (sym (replied-state _ (add_tenant_users c id (u ∷ us) m)))
                (add_tenant_users-Spares c id (u ∷ us) m))
      ]

  sync_users_chunked_for-StaysIn :
      (caller : CallerInfo) (s : Stream (List User)) (m : Manager S K)
      → StaysIn caller m (sync_users_chunked_for about c caller s m).1
  unfolding sync_users_chunked_for
  sync_users_chunked_for-StaysIn caller s m = elim (Option-cases s.broken) [
    | inr (e, f) ↦ rw (f, sync_users_chunked_for) (StaysIn-refl caller m)
    | inl f ↦
        rw (f, sync_users_chunked_for) (sync_users_for-StaysIn caller (join_chunks s.received) m)
  ]

  get_stats_for-StaysIn :
      (caller : CallerInfo) (m : Manager S K) → StaysIn caller m (get_stats_for about c caller m).1
  unfolding get_stats_for get_tenant_user_stats
  get_stats_for-StaysIn scope_core m = all_same m
  get_stats_for-StaysIn (scope_tenant id) m = record {
    reg = ground (arith, Option-cases m.core);
    config = ground (arith, Option-cases m.core);
    force_inbounds = ground (arith, Option-cases m.core);
    users = λ k d. ground (arith, Option-cases m.core);
  }

  handle-StaysIn :
      (caller : CallerInfo) (request : Request) (m : Manager S K)
      → StaysIn caller m (handle about c caller request m).1
  unfolding handle
  handle-StaysIn caller (start b) m = start_for-StaysIn caller b m
  handle-StaysIn caller (sync_users us) m = sync_users_for-StaysIn caller us m
  handle-StaysIn caller (sync_user s) m = sync_user_for-StaysIn caller s m
  handle-StaysIn caller (sync_users_chunked s) m = sync_users_chunked_for-StaysIn caller s m
  handle-StaysIn caller get_stats m = get_stats_for-StaysIn caller m
  handle-StaysIn caller get_base_info m = StaysIn-refl caller m
  handle-StaysIn caller stop m = StaysIn-refl caller m
  handle-StaysIn caller get_logs m = StaysIn-refl caller m
  handle-StaysIn caller get_backend_stats m = StaysIn-refl caller m
  handle-StaysIn caller get_outbounds_latency m = StaysIn-refl caller m
  handle-StaysIn caller get_user_online_stats m = StaysIn-refl caller m
  handle-StaysIn caller get_user_online_ip_list_stats m = StaysIn-refl caller m

  -- A request either changes nothing; or it has the core's key, which is set, and changes no record
  -- of the manager; or its key leads to a tenant that is active, not past its expiry and below its
  -- limit, and then the registry, the core's configuration and the users of every other tenant stay.
  pub serve-StaysIn :
      (hash_key : String → String) (srv : Server) (keys : Option (List String)) (now : ℤ)
      (request : Request) (m : Manager S K)
      → let m' = (serve about c hash_key srv keys now request m).1 in
        (m' ≡ m)
        ⊎ ((srv.core_key ≢ "")
            × ((rest : List String) × (keys ≡ some (srv.core_key ∷ rest)))
            × SameRecords m m')
        ⊎ ((key : String) × (rest : List String) × (t : Tenant) × (keys ≡ some (key ∷ rest))
            × (owner (hash_key key) m.reg ≡ some t)
            × IsServed now t
            × Spares t.id m m')
  unfolding serve resolve_caller
  serve-StaysIn hash_key srv none now request m = inl refl
  serve-StaysIn hash_key srv (some []) now request m = inl refl
  serve-StaysIn hash_key srv (some (key ∷ rest)) now request m =
      elim (Result-cases (resolve_caller hash_key srv (some (key ∷ rest)) now m.reg)) [
        | inr (e, f) ↦ inl (rw (f, serve) refl)
        | inl (scope_core, f) ↦
            let (set, same) =
              resolve_caller-IsEntitled hash_key srv now m.reg key rest scope_core f in
            inr (
              inl (
                set,
                (rest, ap (λ k. some (k ∷ rest)) same),
                rw (f, serve) (handle-StaysIn scope_core request m),
              ))
        | inl (scope_tenant id, f) ↦
            let (t, owns, served, named) =
              resolve_caller-IsEntitled hash_key srv now m.reg key rest (scope_tenant id) f in
            inr (
              inr (
                key,
                rest,
                t,
                refl,
                owns,
                served,
                rw (f, serve, named) (handle-StaysIn (scope_tenant id) request m),
              ))
      ]
