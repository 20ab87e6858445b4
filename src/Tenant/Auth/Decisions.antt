-- ===== src/Tenant/Auth/Decisions.antt =====
-- When a key is let in, and how the decision follows what the registry does.
use mathlib.Core.Option
use node_agent.Prelude.{
  String, ◌≡◌, ◌≢◌, ◌↔◌, ◌⊎◌, inl, inr, refl, true, false, Option, none, some, arith, eq_iff,
  eq_refl, Option-cases,
}
use node_agent.Prelude.Int.{ℤ, ◌<ℤ◌}
use node_agent.Prelude.Dict.{lookup}
use node_agent.Tenant.{
  active, unauthenticated, Reason, Tenant, master, tenant, Decision, effective_limit,
}
use node_agent.Tenant.Store.{Store}
use node_agent.Tenant.Registry.{Registry, enforce, with_status}
use node_agent.Tenant.Registry.Enforcement.{
  IsPast, is_expired_iff, over_limit_iff, enforced, get-enforce,
}
use node_agent.Tenant.Auth.{decide, authorize, master_hash, authenticate}

-- The tenant that a key belongs to may be served.
pub record IsServed (now : ℤ) (t : Tenant) : Type 0 where
  pub active_status : t.status ≡ active
  pub not_past : ¬ IsPast now t
  pub below_limit : t.used_bytes <ℤ effective_limit t

pub decide_iff : (now : ℤ) (t : Tenant) → ((decide now t).allowed ≡ true) ↔ IsServed now t
unfolding decide
decide_iff now t = (
  (λ h. record {
    active_status = ground arith;
    not_past = ground (arith, is_expired_iff now t);
    below_limit = ground (arith, over_limit_iff t);
  }),
  λ h. ground (arith, h.active_status, h.not_past, is_expired_iff now t, over_limit_iff t),
)

pub decide-tenant : (now : ℤ) (t : Tenant) → (decide now t).tenant ≡ some t
unfolding decide
decide-tenant now t = ground arith

decide-enforced :
    (now : ℤ) (t : Tenant)
    → ((decide now (enforced now t)).allowed ≡ (decide now t).allowed)
      × ((decide now (enforced now t)).reason ≡ (decide now t).reason)
unfolding decide with_status
decide-enforced now t = ground arith

-- The decision for the tenant that a key leads to, if any.
abbrev pub decide_owner : ℤ → Option Tenant → Decision
decide_owner now none = record {
  allowed = false;
  code = unauthenticated;
  reason = Reason.none;
  tenant = none;
}
decide_owner now (some t) = decide now t

-- The tenant that a hash leads to through both indexes.
abbrev pub owner {ℓ} : {S : Type ℓ} → String → Registry S → Option Tenant
owner hash r = elim (lookup hash r.by_key) [ none ↦ none | some id ↦ lookup id r.by_id ]

module _ {ℓ} {S : Type ℓ} (hash_key : String → String) (key : String) (now : ℤ) where
  pub authorize-owner :
      (r : Registry S) → authorize hash_key key now r ≡ decide_owner now (owner (hash_key key) r)
  unfolding authorize
  authorize-owner r = ground arith

  -- A key is let in exactly if it leads to a tenant that is active, not past its expiry, and below
  -- its quota and credit.
  pub authorize_iff :
      (r : Registry S)
      → ((authorize hash_key key now r).allowed ≡ true)
        ↔ ((t : Tenant) × (owner (hash_key key) r ≡ some t) × IsServed now t)
  authorize_iff r = elim (Option-cases (owner (hash_key key) r)) [
    | inl e ↦ rw (authorize-owner r, e) ((λ h. cc), (λ h. cc (h.1)))
    | inr (t, e) ↦
        rw (authorize-owner r, e)
          ((λ h. (t, refl, (decide_iff now t).0 h)), λ (u, same, h). cc ((decide_iff now u).1 h))
  ]

  owner-enforce :
      (st : Store S) (h : String) (r : Registry S)
      → owner h (enforce st now r).1 ≡ Option.map (enforced now) (owner h r)
  unfolding enforce
  owner-enforce st h r = elim (Option-cases (lookup h r.by_key)) [
    | inl e ↦ ground arith
    | inr (id, e) ↦ ground (arith, get-enforce st now r id)
  ]

  -- Enforcement at a time does not change whom `Authorize` lets in at that time, nor the reason
  -- that it gives: a tenant is cut off by its next request and by the next round alike.
  pub authorize-enforce :
      (st : Store S) (r : Registry S)
      → ((authorize hash_key key now (enforce st now r).1).allowed
          ≡ (authorize hash_key key now r).allowed)
        × ((authorize hash_key key now (enforce st now r).1).reason
            ≡ (authorize hash_key key now r).reason)
  authorize-enforce st r = elim (Option-cases (owner (hash_key key) r)) [
    | inl e ↦ rw (authorize-owner, authorize-owner, owner-enforce, e) (refl, refl)
    | inr (t, e) ↦ rw (authorize-owner, authorize-owner, owner-enforce, e) (decide-enforced now t)
  ]

  -- A request has master scope exactly if a master key is configured and the keys have the same
  -- hash, and is then let in; any other request has tenant scope and the decision of `Authorize`.
  -- Condition: no hash is the empty text.
  pub authenticate_scope :
      ((k : String) → hash_key k ≢ "")
      → (master_key : String) (r : Registry S)
      → let result = authenticate hash_key (master_hash hash_key master_key) key now r in
        ((result.0 ≡ master)
          × (master_key ≢ "")
          × (hash_key key ≡ hash_key master_key)
          × (result.1.allowed ≡ true))
        ⊎ ((result.0 ≡ tenant)
            × ((master_key ≡ "") ⊎ (hash_key key ≢ hash_key master_key))
            × (result.1 ≡ authorize hash_key key now r))
  unfolding authenticate master_hash
  authenticate_scope nonempty master_key r = ground (
    arith,
    nonempty master_key,
    eq_iff master_key "",
    eq_iff (hash_key master_key) "",
    eq_iff (hash_key key) (hash_key master_key),
    eq_refl "",
  )
