-- ===== src/Tenant/MemStore.antt =====
-- tenant/store.go, lines 15 to 51: `memStore`, which keeps the promises of a store.
use node_agent.Prelude.{
  String, ◌≡◌, refl, Option, none, some, List, [], ◌∷◌, arith, eq_iff, Result, ok, In, subst, inl,
  inr,
}
use node_agent.Prelude.Dict.{
  Dict, lookup, insert, delete, lookup-insert, lookup-delete, IsMap, insert-IsMap, delete-IsMap,
}
use node_agent.Tenant.{Tenant, Error}
use node_agent.Tenant.Store.{Reply, Store, IsStore, index_tenants}

-- The values of the map, cloned.
unfoldable pub values : Dict Tenant → List Tenant
values [] = []
values ((k, t) ∷ m) = t ∷ values m

unfoldable pub load_tenants : Dict Tenant → Result Error (List Tenant)
load_tenants m = ok (values m)

unfoldable pub save_tenant : Tenant → Dict Tenant → Reply × Dict Tenant
save_tenant t m = (ok tt, insert t.id t m)

unfoldable pub delete_tenant : String → Dict Tenant → Reply × Dict Tenant
delete_tenant i m = (ok tt, delete i m)

abbrev pub store : Store (Dict Tenant)
store = record {
  load_tenants = load_tenants;
  save_tenant = save_tenant;
  delete_tenant = delete_tenant;
}

-- Every tenant stands under its own id.
abbrev pub IsKeyed : Dict Tenant → Type 0
IsKeyed [] = Unit
IsKeyed ((k, t) ∷ m) = (t.id ≡ k) × IsKeyed m

pub insert-IsKeyed : (t : Tenant) (m : Dict Tenant) → IsKeyed m → IsKeyed (insert t.id t m)
unfolding insert
insert-IsKeyed t [] h = (refl, tt)
insert-IsKeyed t ((i, w) ∷ m) h = ground (arith, insert-IsKeyed t m h.1)

pub delete-IsKeyed : (i : String) (m : Dict Tenant) → IsKeyed m → IsKeyed (delete i m)
unfolding delete
delete-IsKeyed i [] h = tt
delete-IsKeyed i ((j, w) ∷ m) h = ground (arith, delete-IsKeyed i m h.1)

abbrev or_else : Option Tenant → Option Tenant → Option Tenant
or_else none o = o
or_else (some t) o = some t

index-values :
    (m acc : Dict Tenant) (k : String)
    → IsKeyed m
    → IsMap m
    → lookup k (index_tenants (values m) acc) ≡ or_else (lookup k m) (lookup k acc)
unfolding index_tenants values lookup
index-values [] acc k h u = refl
index-values ((j, t) ∷ m) acc k h u = ground (
  arith,
  eq_iff j k,
  eq_iff t.id k,
  lookup-insert t.id k t acc,
  index-values m (insert t.id t acc) k h.1 u.1,
)

abbrev pub IsGood : Dict Tenant → Type 0
IsGood m = IsKeyed m × IsMap m

pub load_lem :
    (m : Dict Tenant) (ts : List Tenant)
    → IsGood m
    → load_tenants m ≡ ok ts
    → (k : String) → lookup k (index_tenants ts []) ≡ lookup k m
unfolding load_tenants lookup
load_lem m ts g e k = ground (arith, index-values m [] k g.0 g.1)

lookup-values :
    (m : Dict Tenant) (t : Tenant) → IsKeyed m → IsMap m → In t (values m) → lookup t.id m ≡ some t
unfolding values lookup
lookup-values [] t h u i = elim i [ ]
lookup-values ((j, w) ∷ m) t h u (inl e) = ground (arith, eq_iff j t.id)
lookup-values ((j, w) ∷ m) t h u (inr i) =
    ground (arith, eq_iff j t.id, lookup-values m t h.1 u.1 i)

pub load_all_lem :
    (m : Dict Tenant) (ts : List Tenant)
    → IsGood m
    → load_tenants m ≡ ok ts
    → (t : Tenant) → In t ts
    → lookup t.id m ≡ some t
unfolding load_tenants
load_all_lem m ts g e t i = lookup-values m t g.0 g.1 (subst (In t) (ground arith) i)

-- memStore keeps every promise that the registry relies on.
unfoldable pub store_laws : IsStore store
unfolding save_tenant delete_tenant
store_laws = record {
  IsGood = IsGood;
  held = λ m k. lookup k m;
  load = load_lem;
  load_all = load_all_lem;
  save = λ t m e k. lookup-insert t.id k t m;
  save_fails = λ t m e h k. ground arith;
  save_good = λ t m g. (insert-IsKeyed t m g.0, insert-IsMap t.id t m g.1);
  delete = λ i m e k. lookup-delete i k m;
  delete_fails = λ i m e h k. ground arith;
  delete_good = λ i m g. (delete-IsKeyed i m g.0, delete-IsMap i m g.1);
}
