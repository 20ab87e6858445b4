-- ===== src/Tenant/Registry/Recovery.antt =====
-- A restart of the node: NewRegistry over the store that the calls have left.
use node_agent.Prelude.{
  String, ◌≡◌, ◌≢◌, refl, sym, ◌∙◌, ◌⊎◌, inl, inr, some, List, [], ◌∷◌, arith, ◌==◌, eq_iff,
  Result-cases, ok, In, Option-cases, Bool-cases, if◌then◌else◌,
}
use node_agent.Prelude.Dict.{Dict, lookup, insert, lookup-insert, IsMap}
use node_agent.Tenant.{Tenant, deleted}
use node_agent.Tenant.Store.{Store, IsStore, index_tenants}
use node_agent.Tenant.Registry.{Registry, is_deleted, index_keys, new_registry, get}
use node_agent.Tenant.Registry.Consistent.{IsConsistent}

index-In :
    (ts : List Tenant) (acc : Dict Tenant) (k : String) (t : Tenant)
    → lookup k (index_tenants ts acc) ≡ some t
    → In t ts ⊎ (lookup k acc ≡ some t)
unfolding index_tenants
index-In [] acc k t e = inr e
index-In (u ∷ ts) acc k t e = elim (index-In ts (insert u.id u acc) k t e) [
  | inl i ↦ inl (inr i)
  | inr f ↦ ground (arith, lookup-insert u.id k u acc)
]

abbrev Keyed : List Tenant → String → String → Type 0
Keyed ts h k = (t : Tenant) × In t ts × (t.api_key_hash ≡ h) × (t.id ≡ k)

abbrev with_key : Tenant → Dict String → Dict String
with_key u acc = if is_deleted u.status then acc else insert u.api_key_hash u.id acc

with_key_sound :
    (u : Tenant) (acc : Dict String) (h k : String)
    → lookup h (with_key u acc) ≡ some k
    → ((u.api_key_hash ≡ h) × (u.id ≡ k)) ⊎ (lookup h acc ≡ some k)
with_key_sound u acc h k e = elim (Bool-cases (u.api_key_hash == h)) [
  | inl y ↦ ground (arith, eq_iff u.api_key_hash h, lookup-insert u.api_key_hash h u.id acc)
  | inr n ↦ inr (ground (arith, lookup-insert u.api_key_hash h u.id acc))
]

with_key_grows :
    (u : Tenant) (acc : Dict String) (h k : String)
    → lookup h acc ≡ some k
    → (k' : String) × (lookup h (with_key u acc) ≡ some k')
with_key_grows u acc h k e = (
  if is_deleted u.status then k else if u.api_key_hash == h then u.id else k,
  ground (arith, lookup-insert u.api_key_hash h u.id acc),
)

keys_sound :
    (ts : List Tenant) (acc : Dict String) (h k : String)
    → lookup h (index_keys ts acc) ≡ some k
    → Keyed ts h k ⊎ (lookup h acc ≡ some k)
unfolding index_keys
keys_sound [] acc h k e = inr e
keys_sound (u ∷ ts) acc h k e = elim (keys_sound ts (with_key u acc) h k e) [
  | inl (t, i, same, id) ↦ inl (t, inr i, same, id)
  | inr f ↦ elim (with_key_sound u acc h k f) [
    | inl here ↦ inl (u, inl refl, here.0, here.1)
    | inr there ↦ inr there
  ]
]

keys_grow :
    (ts : List Tenant) (acc : Dict String) (h k : String)
    → lookup h acc ≡ some k
    → (k' : String) × (lookup h (index_keys ts acc) ≡ some k')
unfolding index_keys
keys_grow [] acc h k e = (k, e)
keys_grow (u ∷ ts) acc h k e =
    let (k', e') = with_key_grows u acc h k e in keys_grow ts (with_key u acc) h k' e'

keys_complete :
    (ts : List Tenant) (acc : Dict String) (t : Tenant)
    → In t ts
    → t.status ≢ deleted
    → (k : String) × (lookup t.api_key_hash (index_keys ts acc) ≡ some k)
unfolding index_keys
keys_complete [] acc t i live = elim i [ ]
keys_complete (u ∷ ts) acc t (inr i) live = keys_complete ts _ t i live
keys_complete (u ∷ ts) acc t (inl e) live = keys_grow ts _ t.api_key_hash t.id (
    ground (
      arith,
      lookup-insert u.api_key_hash t.api_key_hash u.id acc,
      eq_iff u.api_key_hash t.api_key_hash,
    ))

module _ {ℓ} {S : Type ℓ} (st : Store S) (law : IsStore st) where
  -- The store holds the tenants of the registry.
  pub record IsDurable (r : Registry S) : Type ℓ where
    pub unique : IsMap r.by_id
    pub good : law.IsGood r.store
    pub same : (k : String) → law.held r.store k ≡ get k r

  new_registry_lem :
      (s : S) (ts : List Tenant) (r : Registry S)
      → st.load_tenants s ≡ ok ts
      → new_registry st s ≡ ok r
      → (r.by_id ≡ index_tenants ts []) × (r.by_key ≡ index_keys ts [])
  unfolding new_registry
  new_registry_lem s ts r e f = ground arith

  loads :
      (s : S) (r : Registry S)
      → new_registry st s ≡ ok r
      → (ts : List Tenant) × (st.load_tenants s ≡ ok ts)
  unfolding new_registry
  loads s r e = elim (Result-cases (st.load_tenants s)) [
    | inl found ↦ found
    | inr (bad, f) ↦ ground arith
  ]

  module _ (r : Registry S) (c : IsConsistent r) (d : IsDurable r) (ts : List Tenant)
      (e : st.load_tenants r.store ≡ ok ts) where
    -- What was loaded is what the registry had.
    loaded : (t : Tenant) → In t ts → get t.id r ≡ some t
    loaded t i = sym (d.same t.id) ∙ law.load_all r.store ts d.good e t i

    index_again : (k : String) → lookup k (index_tenants ts []) ≡ get k r
    index_again k = law.load r.store ts d.good e k ∙ d.same k

    keys_back : (h k : String) → lookup h (index_keys ts []) ≡ some k → lookup h r.by_key ≡ some k
    unfolding lookup
    keys_back h k f = elim (keys_sound ts [] h k f) [
      | inl (t, i, same, id) ↦ ground (arith, (c.at_id t.id t (loaded t i)).own_key)
      | inr absent ↦ cc
    ]

    keys_forth : (h k : String) → lookup h r.by_key ≡ some k → lookup h (index_keys ts []) ≡ some k
    unfolding lookup
    keys_forth h k f =
        let (t, found, same) = c.at_key h k f in
        let i : In t ts = elim (index-In ts [] k t (index_again k ∙ found)) [
          | inl j ↦ j
          | inr absent ↦ cc
        ] in
        let (k', g) = keys_complete ts [] t i (c.at_id k t found).not_deleted in
        cc (keys_back t.api_key_hash k' g)

    keys_again : (h : String) → lookup h (index_keys ts []) ≡ lookup h r.by_key
    keys_again h = elim (Option-cases (lookup h r.by_key)) [
      | inr (k, f) ↦ keys_forth h k f ∙ sym f
      | inl f ↦ elim (Option-cases (lookup h (index_keys ts []))) [
        | inl g ↦ g ∙ sym f
        | inr (k, g) ↦ cc (keys_back h k g)
      ]
    ]

  -- A restart brings back every tenant and every key: if the two indexes agree and the store holds
  -- what the registry has, NewRegistry over the store finds the same tenants under the same ids
  -- and the same ids under the same keys.
  pub new_registry-recovers :
      (r r' : Registry S)
      → IsConsistent r
      → IsDurable r
      → new_registry st r.store ≡ ok r'
      → (k : String) → (get k r' ≡ get k r) × (lookup k r'.by_key ≡ lookup k r.by_key)
  new_registry-recovers r r' c d e k =
      let (ts, f) = loads r.store r' e in
      let (ids, keys) = new_registry_lem r.store ts r' f e in
      (rw ids (index_again r c d ts f k), rw keys (keys_again r c d ts f k))
