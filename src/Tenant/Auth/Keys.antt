-- ===== src/Tenant/Auth/Keys.antt =====
-- A key that is issued by CreateTenant, and one that is revoked by Delete.
use node_agent.Prelude.{
  String, ◌≡◌, inl, inr, refl, ap, ◌∙◌, Bool, true, false, Option, none, some, arith, ◌==◌, eq_iff,
  eq_refl, eqb, Option-cases, if◌then◌else◌, ok,
}
use node_agent.Prelude.Int.{ℤ, pos}
use node_agent.Prelude.Dict.{lookup, lookup-insert, lookup-delete}
use node_agent.Tenant.{Tenant, Status, Reason}
use node_agent.Tenant.Store.{Store}
use node_agent.Tenant.Registry.{
  Registry, CreateParams, new_tenant, create_tenant, delete_tenant, get,
}
use node_agent.Tenant.Registry.Replies.{
  Created, create_tenant-Created, Deleted, delete_tenant-Deleted,
}
use node_agent.Tenant.Registry.Consistent.{IsConsistent}
use node_agent.Tenant.Auth.{decide, authorize}
use node_agent.Tenant.Auth.Decisions.{decide_owner, owner, authorize-owner}

decide_owner-if :
    (now : ℤ) (b : Bool) (o p : Option Tenant)
    → decide_owner now (if b then o else p) ≡ (if b then decide_owner now o else decide_owner now p)
decide_owner-if now true o p = refl
decide_owner-if now false o p = refl

-- A tenant with the parameters given, active and unused.
pub record IsNew (hash_key : String → String) (p : CreateParams) (t : Tenant) : Type 0 where
  pub id : t.id ≡ p.id
  pub api_key_hash : t.api_key_hash ≡ hash_key p.api_key
  pub status : t.status ≡ Status.active
  pub reason : t.reason ≡ Reason.none
  pub period_id : t.period_id ≡ (if eqb p.period_id 0 then 1 else p.period_id)
  pub quota_bytes : t.quota_bytes ≡ p.quota_bytes
  pub used_bytes : t.used_bytes ≡ pos 0
  pub credit_limit_bytes : t.credit_limit_bytes ≡ p.credit_limit_bytes
  pub expire_at : t.expire_at ≡ p.expire_at

new_tenant-IsNew :
    (hash_key : String → String) (p : CreateParams) (t : Tenant)
    → t ≡ new_tenant hash_key p
    → IsNew hash_key p t
unfolding new_tenant
new_tenant-IsNew hash_key p t e = ground (arith, e)

module _ {ℓ} {S : Type ℓ} (st : Store S) (hash_key : String → String) where
  owner-create_tenant :
      (p : CreateParams) (r : Registry S) (t : Tenant)
      → IsConsistent r
      → Created st hash_key p r t
      → (h : String)
      → owner h (create_tenant st hash_key p r).1
        ≡ (if hash_key p.api_key == h then some t else owner h r)
  owner-create_tenant p r t c made h = elim (Option-cases (lookup h r.by_key)) [
    | inl e ↦ ground (
      arith,
      made.keys,
      made.ids,
      lookup-insert (hash_key p.api_key) h p.id r.by_key,
      lookup-insert p.id p.id t r.by_id,
      eq_refl p.id,
    )
    | inr (k, e) ↦
        let there = c.at_key h k e in
        ground (
          arith,
          made.keys,
          made.ids,
          there.1,
          made.free_id,
          lookup-insert (hash_key p.api_key) h p.id r.by_key,
          lookup-insert p.id p.id t r.by_id,
          lookup-insert p.id k t r.by_id,
          eq_refl p.id,
          eq_iff p.id k,
        )
  ]

  owner-delete_tenant :
      (id : String) (r : Registry S) (t : Tenant)
      → IsConsistent r
      → Deleted st id r t
      → (h : String)
      → owner h (delete_tenant st id r).1 ≡ (if t.api_key_hash == h then none else owner h r)
  owner-delete_tenant id r t c gone h =
      let own = (c.at_id id t gone.found).own_key in
      elim (Option-cases (lookup h r.by_key)) [
        | inl e ↦ ground (arith, gone.keys, gone.ids, lookup-delete t.api_key_hash h r.by_key)
        | inr (k, e) ↦
            let there = c.at_key h k e in
            ground (
              arith,
              gone.keys,
              gone.ids,
              gone.found,
              own,
              there.1,
              there.2,
              lookup-delete t.api_key_hash h r.by_key,
              lookup-delete id k r.by_id,
              eq_iff id k,
              eq_iff t.api_key_hash h,
            )
      ]

  -- CreateTenant that succeeds gives the new key to the new tenant, which has the parameters given,
  -- with 1 for a period of 0, and is active and unused; it is listed under its id; and the decision
  -- for every other key is as it was. Condition: the two indexes agree.
  pub authorize-create_tenant :
      (p : CreateParams) (r : Registry S) (t : Tenant)
      → IsConsistent r
      → (create_tenant st hash_key p r).0 ≡ ok t
      → (key : String) (now : ℤ)
      → IsNew hash_key p t
        × (get p.id (create_tenant st hash_key p r).1 ≡ some t)
        × (authorize hash_key key now (create_tenant st hash_key p r).1 ≡ (
            if hash_key p.api_key == hash_key key
            then decide now t
            else authorize hash_key key now r))
  authorize-create_tenant p r t c e key now =
      let made = create_tenant-Created st hash_key p r t e in
      (
        new_tenant-IsNew hash_key p t made.result,
        rw (made.ids, lookup-insert, eq_refl) refl,
        rw (authorize-owner hash_key key now r) (
            authorize-owner hash_key key now (create_tenant st hash_key p r).1
            ∙ ap (decide_owner now) (owner-create_tenant p r t c made (hash_key key))
            ∙ decide_owner-if now (hash_key p.api_key == hash_key key) (some t)
                (owner (hash_key key) r)),
      )

  -- Delete that succeeds removes the tenant, denies its key as unknown, and leaves the decision for
  -- every other key as it was.
  pub authorize-delete_tenant :
      (id : String) (r : Registry S)
      → IsConsistent r
      → (delete_tenant st id r).0 ≡ ok tt
      → (key : String) (now : ℤ)
      → (t : Tenant) × (get id r ≡ some t)
        × (get id (delete_tenant st id r).1 ≡ none)
        × (authorize hash_key key now (delete_tenant st id r).1 ≡ (
            if t.api_key_hash == hash_key key
            then decide_owner now none
            else authorize hash_key key now r))
  authorize-delete_tenant id r c e key now =
      let (t, gone) = delete_tenant-Deleted st id r e in
      (
        t,
        gone.found,
        rw (gone.ids, lookup-delete, eq_refl) refl,
        rw (authorize-owner hash_key key now r) (
            authorize-owner hash_key key now (delete_tenant st id r).1
            ∙ ap (decide_owner now) (owner-delete_tenant id r t c gone (hash_key key))
            ∙ decide_owner-if now (t.api_key_hash == hash_key key) none (owner (hash_key key) r)),
      )
