-- ===== src/Tenant/Registry/Durability.antt =====
-- The store keeps up with the registry.
use mathlib.Core.Option
use node_agent.Prelude.{
  String, ◌≡◌, refl, ap, sym, ◌∙◌, inl, inr, Option, none, some, List, [], ◌∷◌, arith, ◌==◌, eq_iff,
  eq_refl, ok, err, Option-cases, Bool-cases, ◌&&◌, if◌then◌else◌,
}
use node_agent.Prelude.Int.{ℤ}
use node_agent.Prelude.Dict.{
  Dict, lookup, has_key, lookup-insert, lookup-delete, IsMap, insert-IsMap, delete-IsMap,
  map_values-IsMap,
}
use node_agent.Tenant.{Tenant, Reason, active, suspended, Error}
use node_agent.Tenant.Store.{Reply, Store, IsStore}
use node_agent.Tenant.Registry.{
  Registry, new_registry, CreateParams, new_tenant, finish_create, create_tenant, update_tenant,
  with_usage, with_quota, with_status, with_new_period, finish_delete, delete_tenant, enforce,
  enforce_loop, enforce_one, get,
}
use node_agent.Tenant.Registry.Enforcement.{
  must_suspend, enforced, store-enforce_one, get-enforce, by_id-enforce,
}
use node_agent.Tenant.Registry.Steps.{
  Call, creates, adds_usage, sets_quota, suspends, resumes, resets, deletes, enforces, step, run,
}
use node_agent.Tenant.Registry.Consistent.{IsConsistent}
use node_agent.Tenant.Registry.Invariant.{step-IsConsistent, run-IsConsistent}
use node_agent.Tenant.Registry.Recovery.{IsDurable, new_registry-recovers}

module _ {ℓ} {S : Type ℓ} (st : Store S) (law : IsStore st) where
  -- What a reply to a save or a delete says of the store that it leaves.
  record Saves (t : Tenant) (s : S) (reply : Reply × S) : Type ℓ where
    good : law.IsGood reply.1
    done :
        reply.0 ≡ ok tt
        → (k : String) → law.held reply.1 k ≡ (if t.id == k then some t else law.held s k)
    failed : (e : Error) → reply.0 ≡ err e → (k : String) → law.held reply.1 k ≡ law.held s k

  record Forgets (id : String) (s : S) (reply : Reply × S) : Type ℓ where
    good : law.IsGood reply.1
    done :
        reply.0 ≡ ok tt
        → (k : String) → law.held reply.1 k ≡ (if id == k then none else law.held s k)
    failed : (e : Error) → reply.0 ≡ err e → (k : String) → law.held reply.1 k ≡ law.held s k

  save-Saves : (t : Tenant) (s : S) → law.IsGood s → Saves t s (st.save_tenant t s)
  save-Saves t s g = record {
    good = law.save_good t s g;
    done = law.save t s;
    failed = law.save_fails t s;
  }

  delete-Forgets : (id : String) (s : S) → law.IsGood s → Forgets id s (st.delete_tenant id s)
  delete-Forgets id s g = record {
    good = law.delete_good id s g;
    done = law.delete id s;
    failed = law.delete_fails id s;
  }

  finish_create-IsDurable :
      (reply : Reply × S) (t : Tenant) (r : Registry S)
      → Saves t r.store reply
      → IsDurable st law r
      → IsDurable st law (finish_create st reply t r).1
  unfolding finish_create
  finish_create-IsDurable (err e, s) t r a d = record {
    unique = d.unique;
    good = a.good;
    same = λ k. a.failed e refl k ∙ d.same k;
  }
  finish_create-IsDurable (ok u, s) t r a d = record {
    unique = insert-IsMap t.id t r.by_id d.unique;
    good = a.good;
    same = λ k. ground (arith, a.done refl k, d.same k, lookup-insert t.id k t r.by_id);
  }

  create_tenant-IsDurable :
      (hash_key : String → String) (p : CreateParams) (r : Registry S)
      → IsDurable st law r
      → IsDurable st law (create_tenant st hash_key p r).1
  unfolding create_tenant
  create_tenant-IsDurable hash_key p r d =
      let t = new_tenant hash_key p in
      let made =
        finish_create-IsDurable (st.save_tenant t r.store) t r (save-Saves t r.store d.good) d in
      elim (Bool-cases (has_key p.id r.by_id)) [
        | inl taken ↦ rw taken d
        | inr free ↦ elim (Bool-cases (has_key t.api_key_hash r.by_key)) [
          | inl taken ↦ rw (free, taken) d
          | inr free_key ↦ rw (free, free_key) made
        ]
      ]

  finish_delete-IsDurable :
      (reply : Reply × S) (id : String) (t : Tenant) (r : Registry S)
      → Forgets id r.store reply
      → IsDurable st law r
      → IsDurable st law (finish_delete st reply id t r).1
  unfolding finish_delete
  finish_delete-IsDurable (err e, s) id t r a d = record {
    unique = d.unique;
    good = a.good;
    same = λ k. a.failed e refl k ∙ d.same k;
  }
  finish_delete-IsDurable (ok u, s) id t r a d = record {
    unique = delete-IsMap id r.by_id d.unique;
    good = a.good;
    same = λ k. ground (arith, a.done refl k, d.same k, lookup-delete id k r.by_id);
  }

  delete_tenant-IsDurable :
      (id : String) (r : Registry S)
      → IsDurable st law r
      → IsDurable st law (delete_tenant st id r).1
  unfolding delete_tenant
  delete_tenant-IsDurable id r d = elim (Option-cases (lookup id r.by_id)) [
    | inl e ↦ rw (e, delete_tenant) d
    | inr (t, e) ↦
        rw (e, delete_tenant)
          (finish_delete-IsDurable (st.delete_tenant id r.store) id t r
            (delete-Forgets id r.store d.good) d)
  ]

  update_tenant-IsDurable :
      (change : Tenant → Tenant) (id : String) (r : Registry S)
      → ((t : Tenant) → (change t).id ≡ t.id)
      → IsConsistent r
      → IsDurable st law r
      → ((t : Tenant) → get id r ≡ some t → (st.save_tenant (change t) r.store).0 ≡ ok tt)
      → IsDurable st law (update_tenant st change id r).1
  unfolding update_tenant
  update_tenant-IsDurable change id r keeps c d saves = elim (Option-cases (lookup id r.by_id)) [
    | inl e ↦ rw (e, update_tenant) d
    | inr (t, e) ↦
        let own : (change t).id ≡ id = keeps t ∙ (c.at_id id t e).own_id in
        let a = save-Saves (change t) r.store d.good in
        rw (e, update_tenant)
          (record {
            unique = insert-IsMap id (change t) r.by_id d.unique;
            good = a.good;
            same = λ k.
                ground
                  (arith, a.done (saves t e) k, d.same k, lookup-insert id k (change t) r.by_id);
          })
  ]

  module _ (saves : (t : Tenant) (s : S) → (st.save_tenant t s).0 ≡ ok tt) where
    enforce_one-held :
        (now : ℤ) (t : Tenant) (s : S)
        → law.IsGood s
        → law.IsGood (enforce_one st now t s).1
          × ((k : String)
              → law.held (enforce_one st now t s).1 k
                ≡ (if must_suspend now t && t.id == k then some (enforced now t) else law.held s k))
    unfolding with_status
    enforce_one-held now t s g = elim (store-enforce_one st now t s) [
      | inr (keep, e) ↦ rw (e, keep) (g, λ k. refl)
      | inl (cut, e) ↦ rw e (
        law.save_good (enforced now t) s g,
        λ k. ground (arith, law.save (enforced now t) s (saves (enforced now t) s) k),
      )
    ]

    abbrev held_after : ℤ → Option Tenant → Option Tenant → Option Tenant
    held_after now none o = o
    held_after now (some t) o = if must_suspend now t then some (enforced now t) else o

    enforce_loop-held :
        (now : ℤ) (m : Dict Tenant) (s : S)
        → IsMap m
        → ((k : String) (t : Tenant) → lookup k m ≡ some t → t.id ≡ k)
        → law.IsGood s
        → law.IsGood (enforce_loop st now m s).1
          × ((k : String)
              → law.held (enforce_loop st now m s).1 k ≡ held_after now (lookup k m) (law.held s k))
    unfolding enforce_loop lookup
    enforce_loop-held now [] s u own g = (g, λ k. refl)
    enforce_loop-held now ((j, t) ∷ m) s u own g =
        let one = enforce_one-held now t s g in
        let rest =
          enforce_loop-held now m (enforce_one st now t s).1 u.1
            (λ k t' e. own k t' (ground (arith, eq_iff j k))) one.0 in
        (
          rest.0,
          λ k. ground (arith, rest.1 k, one.1 k, own j t, eq_iff j k, eq_iff t.id k, eq_refl j),
        )

    after_self : (now : ℤ) (o : Option Tenant) → held_after now o o ≡ Option.map (enforced now) o
    after_self now none = refl
    after_self now (some t) = ground arith

    changed :
        (change : Tenant → Tenant) (id : String) (r : Registry S)
        → ((t : Tenant) → (change t).id ≡ t.id)
        → IsConsistent r
        → IsDurable st law r
        → IsDurable st law (update_tenant st change id r).1
    changed change id r keeps c d =
        update_tenant-IsDurable change id r keeps c d (λ t e. saves (change t) r.store)

    enforce-IsDurable :
        (now : ℤ) (r : Registry S)
        → IsConsistent r
        → IsDurable st law r
        → IsDurable st law (enforce st now r).1
    unfolding enforce
    enforce-IsDurable now r c d =
        let held =
          enforce_loop-held now r.by_id r.store d.unique (λ k t e. (c.at_id k t e).own_id) d.good in
        record {
          unique = rw (by_id-enforce st now r) (map_values-IsMap (enforced now) r.by_id d.unique);
          good = held.0;
          same = λ k.
              held.1 k
              ∙ ap (held_after now (lookup k r.by_id)) (d.same k)
              ∙ after_self now (lookup k r.by_id)
              ∙ sym (get-enforce st now r k);
        }

    step-IsDurable :
        (hash_key : String → String) (x : Call) (r : Registry S)
        → IsConsistent r
        → IsDurable st law r
        → IsDurable st law (step st hash_key x r)
    unfolding step with_usage with_quota with_status with_new_period
    step-IsDurable hash_key (creates p) r c d = create_tenant-IsDurable hash_key p r d
    step-IsDurable hash_key (deletes id) r c d = delete_tenant-IsDurable id r d
    step-IsDurable hash_key (enforces now) r c d = enforce-IsDurable now r c d
    step-IsDurable hash_key (adds_usage id n) r c d = changed (with_usage n) id r (λ t. refl) c d
    step-IsDurable hash_key (sets_quota id q l e) r c d =
        changed (with_quota q l e) id r (λ t. refl) c d
    step-IsDurable hash_key (suspends id reason) r c d =
        changed (with_status suspended reason) id r (λ t. refl) c d
    step-IsDurable hash_key (resumes id) r c d =
        changed (with_status active Reason.none) id r (λ t. refl) c d
    step-IsDurable hash_key (resets id) r c d = changed with_new_period id r (λ t. refl) c d

    run-IsDurable :
        (hash_key : String → String) (cs : List Call) (r : Registry S)
        → IsConsistent r
        → IsDurable st law r
        → IsDurable st law (run st hash_key cs r)
    unfolding run
    run-IsDurable hash_key [] r c d = d
    run-IsDurable hash_key (x ∷ cs) r c d =
        run-IsDurable hash_key cs (step st hash_key x r) (step-IsConsistent st hash_key x r c)
          (step-IsDurable hash_key x r c d)

    -- A restart after any calls, with a store that does not fail to save, brings back every tenant
    -- under its id and every key: NewRegistry over the store finds what the calls have left.
    -- Conditions: at the start the two indexes agreed and the store held what the registry had.
    pub restart-run :
        (hash_key : String → String) (cs : List Call) (r r' : Registry S)
        → IsConsistent r
        → IsDurable st law r
        → new_registry st (run st hash_key cs r).store ≡ ok r'
        → (k : String)
        → (get k r' ≡ get k (run st hash_key cs r))
          × (lookup k r'.by_key ≡ lookup k (run st hash_key cs r).by_key)
    restart-run hash_key cs r r' c d =
        new_registry-recovers st law (run st hash_key cs r) r' (run-IsConsistent st hash_key cs r c)
          (run-IsDurable hash_key cs r c d)
