-- ===== src/Tenant/Registry/Replies.antt =====
-- What a successful CreateTenant or Delete has found and done.
use node_agent.Prelude.{String, ◌≡◌, none, some, arith, Result-cases, ok, Option-cases, inl, inr}
use node_agent.Prelude.Dict.{lookup, insert, delete}
use node_agent.Tenant.{Tenant}
use node_agent.Tenant.Store.{Store}
use node_agent.Tenant.Registry.{Registry, CreateParams, new_tenant, create_tenant, delete_tenant}

module _ {ℓ} {S : Type ℓ} (st : Store S) where
  pub record Created (hash_key : String → String) (p : CreateParams) (r : Registry S) (t : Tenant)
      : Type 0 where
    pub result : t ≡ new_tenant hash_key p
    pub free_id : lookup p.id r.by_id ≡ none
    pub free_key : lookup (hash_key p.api_key) r.by_key ≡ none
    pub ids : (create_tenant st hash_key p r).1.by_id ≡ insert p.id t r.by_id
    pub keys : (create_tenant st hash_key p r).1.by_key ≡ insert (hash_key p.api_key) p.id r.by_key

  pub create_tenant-Created :
      (hash_key : String → String) (p : CreateParams) (r : Registry S) (t : Tenant)
      → (create_tenant st hash_key p r).0 ≡ ok t
      → Created hash_key p r t
  unfolding create_tenant new_tenant
  create_tenant-Created hash_key p r t e =
      ground (arith, Result-cases (st.save_tenant (new_tenant hash_key p) r.store).0)

  pub record Deleted (id : String) (r : Registry S) (t : Tenant) : Type 0 where
    pub found : lookup id r.by_id ≡ some t
    pub ids : (delete_tenant st id r).1.by_id ≡ delete id r.by_id
    pub keys : (delete_tenant st id r).1.by_key ≡ delete t.api_key_hash r.by_key

  pub delete_tenant-Deleted :
      (id : String) (r : Registry S)
      → (delete_tenant st id r).0 ≡ ok tt
      → (t : Tenant) × Deleted id r t
  unfolding delete_tenant
  delete_tenant-Deleted id r e = elim (Option-cases (lookup id r.by_id)) [
    | inl gone ↦ ground arith
    | inr (t, found) ↦ (t, ground (arith, Result-cases (st.delete_tenant id r.store).0))
  ]
