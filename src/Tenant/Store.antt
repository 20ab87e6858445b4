-- ===== src/Tenant/Store.antt =====
-- tenant/store.go, lines 5 to 13: the interface `Store`, and the laws that the registry relies on.
-- A store that fails keeps what it held.
use node_agent.Prelude.{
  String, ◌≡◌, Option, none, some, List, [], ◌∷◌, ◌==◌, if◌then◌else◌, Result, ok, err, In,
}
use node_agent.Prelude.Dict.{Dict, lookup, insert}
use node_agent.Tenant.{Tenant, Error}

abbrev pub Reply : Type 0
Reply = Result Error (Unit {0})

-- `S` is the state behind the interface. Each call returns the state that it leaves.
pub record Store {ℓ} (S : Type ℓ) : Type ℓ where
  pub load_tenants : S → Result Error (List Tenant)
  pub save_tenant : Tenant → S → Reply × S
  pub delete_tenant : String → S → Reply × S

-- The tenants of a list, by their ids; a later one replaces an earlier one.
unfoldable pub index_tenants : List Tenant → Dict Tenant → Dict Tenant
index_tenants [] m = m
index_tenants (t ∷ ts) m = index_tenants ts (insert t.id t m)

-- What a store promises: `held s` is what it has persisted, by id.
pub record IsStore {ℓ} {S : Type ℓ} (st : Store S) : Type (ℓ + 1) where
  pub IsGood : S → Type ℓ
  pub held : S → String → Option Tenant
  pub load :
      (s : S) (ts : List Tenant)
      → IsGood s
      → st.load_tenants s ≡ ok ts
      → (k : String) → lookup k (index_tenants ts []) ≡ held s k
  pub load_all :
      (s : S) (ts : List Tenant)
      → IsGood s
      → st.load_tenants s ≡ ok ts
      → (t : Tenant) → In t ts
      → held s t.id ≡ some t
  pub save :
      (t : Tenant) (s : S)
      → (st.save_tenant t s).0 ≡ ok tt
      → (k : String) → held (st.save_tenant t s).1 k ≡ (if t.id == k then some t else held s k)
  pub save_fails :
      (t : Tenant) (s : S) (e : Error)
      → (st.save_tenant t s).0 ≡ err e
      → (k : String) → held (st.save_tenant t s).1 k ≡ held s k
  pub save_good : (t : Tenant) (s : S) → IsGood s → IsGood (st.save_tenant t s).1
  pub delete :
      (i : String) (s : S)
      → (st.delete_tenant i s).0 ≡ ok tt
      → (k : String) → held (st.delete_tenant i s).1 k ≡ (if i == k then none else held s k)
  pub delete_fails :
      (i : String) (s : S) (e : Error)
      → (st.delete_tenant i s).0 ≡ err e
      → (k : String) → held (st.delete_tenant i s).1 k ≡ held s k
  pub delete_good : (i : String) (s : S) → IsGood s → IsGood (st.delete_tenant i s).1
