-- ===== src/Tenant/Registry/Indexed.antt =====
-- CreateTenant and Delete keep the two indexes of the registry in agreement.
use node_agent.Prelude.{
  String, ◌≡◌, ◌≢◌, none, some, arith, ◌==◌, eq_iff, ok, err, Option-cases, inl, inr, Bool-cases,
}
use node_agent.Prelude.Dict.{lookup, insert, delete, has_key, lookup-insert, lookup-delete}
use node_agent.Tenant.{deleted, Tenant}
use node_agent.Tenant.Store.{Reply, Store}
use node_agent.Tenant.Registry.{
  Registry, CreateParams, new_tenant, finish_create, create_tenant, finish_delete, delete_tenant,
}
-- A tenant under the id `k`, as the indexes must have it.
use node_agent.Tenant.Registry.Consistent.{IsConsistent, restore}

module _ {ℓ} {S : Type ℓ} (st : Store S) where
  index_new :
      (t : Tenant) (r : Registry S) (s : S)
      → lookup t.id r.by_id ≡ none
      → lookup t.api_key_hash r.by_key ≡ none
      → t.status ≢ deleted
      → IsConsistent r
      → IsConsistent (
          let r' : Registry S = record {
            by_id = insert t.id t r.by_id;
            by_key = insert t.api_key_hash t.id r.by_key;
            store = s;
          } in
          r')
  index_new t r s free_id free_key live c = record {
    at_id = λ k u e. elim (Bool-cases (t.id == k)) [
      | inl y ↦
          let same : u ≡ t = ground (arith, lookup-insert t.id k t r.by_id) in
          record {
            own_id = ground (arith, eq_iff t.id k);
            own_key = ground (
              arith,
              eq_iff t.id k,
              eq_iff t.api_key_hash u.api_key_hash,
              lookup-insert t.api_key_hash u.api_key_hash t.id r.by_key,
            );
            not_deleted = ground arith;
          }
      | inr n ↦
          let i = c.at_id k u (ground (arith, lookup-insert t.id k t r.by_id)) in
          record {
            own_id = i.own_id;
            own_key = ground (
              arith,
              i.own_key,
              eq_iff t.api_key_hash u.api_key_hash,
              lookup-insert t.api_key_hash u.api_key_hash t.id r.by_key,
            );
            not_deleted = i.not_deleted;
          }
    ];
    at_key = λ h k e. elim (Bool-cases (t.api_key_hash == h)) [
      | inl y ↦ (
        t,
        ground (
          arith,
          eq_iff t.id k,
          lookup-insert t.api_key_hash h t.id r.by_key,
          lookup-insert t.id k t r.by_id,
        ),
        (eq_iff t.api_key_hash h).0 y,
      )
      | inr n ↦
          let (u, found, hash) =
            c.at_key h k (ground (arith, lookup-insert t.api_key_hash h t.id r.by_key)) in
          (u, ground (arith, eq_iff t.id k, lookup-insert t.id k t r.by_id), hash)
    ];
  }

  finish_create-IsConsistent :
      (reply : Reply × S) (t : Tenant) (r : Registry S)
      → lookup t.id r.by_id ≡ none
      → lookup t.api_key_hash r.by_key ≡ none
      → t.status ≢ deleted
      → IsConsistent r
      → IsConsistent (finish_create st reply t r).1
  unfolding finish_create
  finish_create-IsConsistent (err e, s) t r i k l c = restore r s c
  finish_create-IsConsistent (ok u, s) t r i k l c = index_new t r s i k l c

  pub create_tenant-IsConsistent :
      (hash_key : String → String) (p : CreateParams) (r : Registry S)
      → IsConsistent r
      → IsConsistent (create_tenant st hash_key p r).1
  unfolding create_tenant new_tenant
  create_tenant-IsConsistent hash_key p r c =
      let t = new_tenant hash_key p in
      elim (Option-cases (lookup p.id r.by_id)) [
        | inr (u, taken) ↦ rw (taken, has_key) c
        | inl free_id ↦ elim (Option-cases (lookup t.api_key_hash r.by_key)) [
          | inr (u, taken) ↦ rw (free_id, taken, has_key) c
          | inl free_key ↦
              rw (free_id, free_key, has_key)
                (finish_create-IsConsistent (st.save_tenant t r.store) t r free_id free_key
                  (λ d. cc) c)
        ]
      ]

  -- Forgetting one tenant and its key.
  forget :
      (k0 : String) (t : Tenant) (r : Registry S) (s : S)
      → lookup k0 r.by_id ≡ some t
      → IsConsistent r
      → IsConsistent (
          let r' : Registry S = record {
            by_id = delete k0 r.by_id;
            by_key = delete t.api_key_hash r.by_key;
            store = s;
          } in
          r')
  forget k0 t r s found c = record {
    at_id = λ k u e.
        let i = c.at_id k u (ground (arith, lookup-delete k0 k r.by_id)) in
        record {
          own_id = i.own_id;
          own_key = ground (
            arith,
            i.own_key,
            (c.at_id k0 t found).own_key,
            eq_iff t.api_key_hash u.api_key_hash,
            eq_iff k0 k,
            lookup-delete t.api_key_hash u.api_key_hash r.by_key,
            lookup-delete k0 k r.by_id,
          );
          not_deleted = i.not_deleted;
        };
    at_key = λ h k e.
        let (u, found', hash) =
          c.at_key h k (ground (arith, lookup-delete t.api_key_hash h r.by_key)) in
        (
          u,
          ground (
            arith,
            eq_iff k0 k,
            eq_iff t.api_key_hash h,
            lookup-delete t.api_key_hash h r.by_key,
            lookup-delete k0 k r.by_id,
          ),
          hash,
        );
  }

  finish_delete-IsConsistent :
      (reply : Reply × S) (id : String) (t : Tenant) (r : Registry S)
      → lookup id r.by_id ≡ some t
      → IsConsistent r
      → IsConsistent (finish_delete st reply id t r).1
  unfolding finish_delete
  finish_delete-IsConsistent (err e, s) id t r found c = restore r s c
  finish_delete-IsConsistent (ok u, s) id t r found c = forget id t r s found c

  pub delete_tenant-IsConsistent :
      (id : String) (r : Registry S) → IsConsistent r → IsConsistent (delete_tenant st id r).1
  unfolding delete_tenant
  delete_tenant-IsConsistent id r c = elim (Option-cases (lookup id r.by_id)) [
    | inl e ↦ rw (e, delete_tenant) c
    | inr (t, e) ↦
        rw (e, delete_tenant) (finish_delete-IsConsistent (st.delete_tenant id r.store) id t r e c)
  ]
