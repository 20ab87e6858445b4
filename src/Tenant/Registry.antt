-- ===== src/Tenant/Registry.antt =====
-- tenant/registry.go, lines 65 to 301: the registry and its operations. Each holds the lock from
-- its first to its last line, so it is one step from one registry to the next. The store behind it
-- and the hash of a key are parameters; what `clone` returns is the value itself.
pub mod Steps
pub mod Durability
pub mod Usage
pub mod Replies
pub mod Enforcement
pub mod Consistent
pub mod Indexed
pub mod Invariant
pub mod Recovery
use node_agent.Prelude.{
  ℕ, String, Bool, true, false, Option, none, some, List, [], ◌∷◌, ◌++◌, ◌&&◌, eqb, if◌then◌else◌,
  Result, ok, err,
}
use node_agent.Prelude.Int.{ℤ, pos, add64, add_u64, ltb_ℤ, leb_ℤ}
use node_agent.Prelude.Dict.{Dict, lookup, insert, delete, has_key}
use node_agent.Tenant.{
  Status, active, suspended, deleted, Reason, quota, expired, Tenant, effective_limit, Error,
  not_found, already_exists, key_conflict,
}
use node_agent.Tenant.Store.{Reply, Store, index_tenants}
use node_agent.Tenant.MemStore

pub record Registry {ℓ} (S : Type ℓ) : Type ℓ where
  pub by_id : Dict Tenant
  pub by_key : Dict String
  pub store : S

pub record CreateParams : Type 0 where
  pub id : String
  pub api_key : String
  pub quota_bytes : ℤ
  pub credit_limit_bytes : ℤ
  pub expire_at : ℤ
  pub period_id : ℕ

pub record Change : Type 0 where
  pub tenant : Tenant
  pub reason : Reason

abbrev pub is_active : Status → Bool
is_active active = true
is_active _ = false

abbrev pub is_deleted : Status → Bool
is_deleted deleted = true
is_deleted _ = false

-- The loop of NewRegistry over the key index; `index_tenants` is its loop over the ids.
unfoldable pub index_keys : List Tenant → Dict String → Dict String
index_keys [] m = m
index_keys (t ∷ ts) m =
    index_keys ts (if is_deleted t.status then m else insert t.api_key_hash t.id m)

-- The tests of Enforce and Authorize: `now` is past a set expiry; the limit is reached.
unfoldable pub is_expired : ℤ → Tenant → Bool
is_expired now t = ltb_ℤ (pos 0) t.expire_at && ltb_ℤ t.expire_at now

unfoldable pub over_limit : Tenant → Bool
unfolding effective_limit
over_limit t = leb_ℤ (effective_limit t) t.used_bytes

-- Why Enforce suspends a tenant, if it does.
unfoldable pub enforce_reason : ℤ → Tenant → Reason
unfolding is_expired over_limit
enforce_reason now t =
    if is_expired now t then expired else if over_limit t then quota else Reason.none

-- The tenant that CreateTenant makes; a period 0 becomes 1.
unfoldable pub new_tenant : (String → String) → CreateParams → Tenant
new_tenant hash_key p = record {
  id = p.id;
  api_key_hash = hash_key p.api_key;
  status = active;
  reason = Reason.none;
  period_id = if eqb p.period_id 0 then 1 else p.period_id;
  quota_bytes = p.quota_bytes;
  used_bytes = pos 0;
  credit_limit_bytes = p.credit_limit_bytes;
  expire_at = p.expire_at;
}

-- What the methods write to the tenant that they have looked up.
unfoldable pub with_usage : ℤ → Tenant → Tenant
with_usage delta t = record t {
  used_bytes = add64 t.used_bytes (if ltb_ℤ delta (pos 0) then pos 0 else delta);
}

unfoldable pub with_quota : ℤ → ℤ → ℤ → Tenant → Tenant
with_quota quota_bytes credit_limit_bytes expire_at t = record t {
  quota_bytes = quota_bytes;
  credit_limit_bytes = credit_limit_bytes;
  expire_at = expire_at;
}

unfoldable pub with_status : Status → Reason → Tenant → Tenant
with_status status reason t = record t { status = status; reason = reason }

unfoldable pub with_new_period : Tenant → Tenant
with_new_period t = record t {
  period_id = add_u64 t.period_id 1;
  used_bytes = pos 0;
  status = active;
  reason = Reason.none;
}

module _ {ℓ} {S : Type ℓ} (st : Store S) where
  unfoldable pub new_registry : S → Result Error (Registry S)
  unfolding index_tenants index_keys
  new_registry s = elim (st.load_tenants s) [
    | err e ↦ err e
    | ok ts ↦ ok (record { by_id = index_tenants ts []; by_key = index_keys ts []; store = s })
  ]

  -- The end of CreateTenant: nothing is indexed unless the tenant was saved.
  unfoldable pub finish_create : Reply × S → Tenant → Registry S → Result Error Tenant × Registry S
  finish_create (err e, s) t r = (err e, record r { store = s })
  finish_create (ok _, s) t r = (
    ok t,
    record {
      by_id = insert t.id t r.by_id;
      by_key = insert t.api_key_hash t.id r.by_key;
      store = s;
    },
  )

  unfoldable pub create_tenant :
      (String → String) → CreateParams → Registry S → Result Error Tenant × Registry S
  unfolding finish_create has_key
  create_tenant hash_key p r =
      let t = new_tenant hash_key p in
      if has_key p.id r.by_id
      then (err already_exists, r)
      else if has_key t.api_key_hash r.by_key
      then (err key_conflict, r)
      else finish_create (st.save_tenant t r.store) t r

  -- The tenant is changed in place before it is saved, so the change stays when the save fails.
  unfoldable pub commit : String → Tenant → Registry S → Result Error Tenant × Registry S
  commit id t r =
      let (reply, s) = st.save_tenant t r.store in
      (
        elim reply [ err e ↦ err e | ok _ ↦ ok t ],
        record r { by_id = insert id t r.by_id; store = s },
      )

  unfoldable pub update_tenant :
      (Tenant → Tenant) → String → Registry S → Result Error Tenant × Registry S
  unfolding commit
  update_tenant change id r = elim (lookup id r.by_id) [
    | none ↦ (err not_found, r)
    | some t ↦ commit id (change t) r
  ]

  abbrev pub add_usage : String → ℤ → Registry S → Result Error Tenant × Registry S
  add_usage id delta = update_tenant (with_usage delta) id

  abbrev pub set_quota : String → ℤ → ℤ → ℤ → Registry S → Result Error Tenant × Registry S
  set_quota id quota_bytes credit expire_at =
      update_tenant (with_quota quota_bytes credit expire_at) id

  abbrev pub suspend : String → Reason → Registry S → Result Error Tenant × Registry S
  suspend id reason = update_tenant (with_status suspended reason) id

  abbrev pub resume : String → Registry S → Result Error Tenant × Registry S
  resume id = update_tenant (with_status active Reason.none) id

  abbrev pub reset_period : String → Registry S → Result Error Tenant × Registry S
  reset_period id = update_tenant with_new_period id

  -- The end of Delete: the indexes forget the tenant only once the store has.
  unfoldable pub finish_delete : Reply × S → String → Tenant → Registry S → Reply × Registry S
  finish_delete (err e, s) id t r = (err e, record r { store = s })
  finish_delete (ok _, s) id t r = (
    ok tt,
    record { by_id = delete id r.by_id; by_key = delete t.api_key_hash r.by_key; store = s },
  )

  unfoldable pub delete_tenant : String → Registry S → Reply × Registry S
  unfolding finish_delete
  delete_tenant id r = elim (lookup id r.by_id) [
    | none ↦ (err not_found, r)
    | some t ↦ finish_delete (st.delete_tenant id r.store) id t r
  ]

  -- One round of the loop of Enforce; a failed save is ignored.
  unfoldable pub enforce_one : ℤ → Tenant → S → Tenant × S × List Change
  unfolding enforce_reason
  enforce_one now t s = elim t.status [
    | suspended ↦ (t, s, [])
    | deleted ↦ (t, s, [])
    | active ↦ elim (enforce_reason now t) [
      | Reason.none ↦ (t, s, [])
      | r ↦
          let t' = with_status suspended r t in
          (t', (st.save_tenant t' s).1, record { tenant = t'; reason = r } ∷ [])
    ]
  ]

  -- The loop of Enforce over `r.byID`.
  unfoldable pub enforce_loop : ℤ → Dict Tenant → S → Dict Tenant × S × List Change
  unfolding enforce_one
  enforce_loop now [] s = ([], s, [])
  enforce_loop now ((k, t) ∷ m) s =
      let (t', s', changed) = enforce_one now t s in
      let (m', s'', changes) = enforce_loop now m s' in ((k, t') ∷ m', s'', changed ++ changes)

  unfoldable pub enforce : ℤ → Registry S → List Change × Registry S
  unfolding enforce_loop
  enforce now r =
      let (m, s, changes) = enforce_loop now r.by_id r.store in
      (changes, record r { by_id = m; store = s })

-- Get and List return copies.
abbrev pub get {ℓ} : {S : Type ℓ} → String → Registry S → Option Tenant
get id r = lookup id r.by_id

unfoldable pub list {ℓ} : {S : Type ℓ} → Registry S → List Tenant
unfolding MemStore.values
list r = MemStore.values r.by_id
