-- ===== src/Tenant/Registry/Consistent.antt =====
-- The two indexes of the registry agree: the predicate, and the changes that the indexes do not show.
use node_agent.Prelude.{
  String, ◌≡◌, ◌≢◌, refl, none, some, arith, ◌==◌, Option-cases, inl, inr, if◌then◌else◌,
  Bool-cases,
}
use node_agent.Prelude.Int.{ℤ}
use node_agent.Prelude.Dict.{Dict, lookup}
use node_agent.Tenant.{deleted, Tenant}
use node_agent.Tenant.Registry.{Registry, with_status}
use node_agent.Tenant.Registry.Enforcement.{enforced}

-- A tenant under the id `k`, as the indexes must have it.
-- A tenant under the id `k`, as the indexes must have it.
pub record IsIndexed {ℓ} {S : Type ℓ} (r : Registry S) (k : String) (t : Tenant) : Type 0 where
  pub own_id : t.id ≡ k
  pub own_key : lookup t.api_key_hash r.by_key ≡ some k
  pub not_deleted : t.status ≢ deleted

pub record IsConsistent {ℓ} {S : Type ℓ} (r : Registry S) : Type 0 where
  pub at_id : (k : String) (t : Tenant) → lookup k r.by_id ≡ some t → IsIndexed r k t
  pub at_key :
      (h k : String)
      → lookup h r.by_key ≡ some k
      → (t : Tenant) × (lookup k r.by_id ≡ some t) × (t.api_key_hash ≡ h)

-- A change to a tenant that the indexes do not show.
pub record KeepsIndex (t u : Tenant) : Type 0 where
  pub id : u.id ≡ t.id
  pub key : u.api_key_hash ≡ t.api_key_hash
  pub live : t.status ≢ deleted → u.status ≢ deleted

module _ {ℓ} {S : Type ℓ} where
  -- Two registries with the same ids and the same keys, but for tenants changed within the rules.
  pub replace-IsConsistent :
      (r : Registry S) (m : Dict Tenant) (s : S) (f : String → Tenant → Tenant)
      → ((k : String) (t : Tenant) → lookup k r.by_id ≡ some t → lookup k m ≡ some (f k t))
      → ((k : String) → lookup k r.by_id ≡ none → lookup k m ≡ none)
      → ((k : String) (t : Tenant) → KeepsIndex t (f k t))
      → IsConsistent r
      → IsConsistent (record r { by_id = m; store = s })
  replace-IsConsistent r m s f some_at none_at keeps c = record {
    at_id = λ k u e. elim (Option-cases (lookup k r.by_id)) [
      | inl gone ↦ cc (none_at k gone)
      | inr (t, found) ↦
          let i = c.at_id k t found in
          let ks = keeps k t in
          let same : u ≡ f k t = cc (some_at k t found) in
          record {
            own_id = cc (i.own_id, ks.id);
            own_key = cc (i.own_key, ks.key, same);
            not_deleted = λ d. ks.live i.not_deleted (cc);
          }
    ];
    at_key = λ h k e.
        let (t, found, hash) = c.at_key h k e in
        (f k t, some_at k t found, cc (hash, (keeps k t).key));
  }

pub KeepsIndex-refl : (t : Tenant) → KeepsIndex t t
KeepsIndex-refl t = record { id = refl; key = refl; live = λ h. h }

abbrev pub changed_at : String → (Tenant → Tenant) → String → Tenant → Tenant
changed_at id change k t = if id == k then change t else t

pub changed_at-KeepsIndex :
    (id : String) (change : Tenant → Tenant) (k : String) (t : Tenant)
    → KeepsIndex t (change t)
    → KeepsIndex t (changed_at id change k t)
changed_at-KeepsIndex id change k t h = elim (Bool-cases (id == k)) [
  | inl e ↦ rw e h
  | inr e ↦ rw e (KeepsIndex-refl t)
]

pub enforced-KeepsIndex : (now : ℤ) (t : Tenant) → KeepsIndex t (enforced now t)
unfolding with_status
enforced-KeepsIndex now t = record { id = ground arith; key = ground arith; live = ground arith }

module _ {ℓ} {S : Type ℓ} where
  pub restore : (r : Registry S) (s : S) → IsConsistent r → IsConsistent (record r { store = s })
  restore r s =
      replace-IsConsistent r r.by_id s (λ k t. t) (λ k t e. e) (λ k e. e) (λ k t. KeepsIndex-refl t)
