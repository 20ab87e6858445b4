-- ===== src/Tenant/Registry/Usage.antt =====
-- AddUsage, Suspend, Resume and ResetPeriod of one tenant.
use node_agent.Prelude.{
  String, ◌≡◌, refl, ◌⊎◌, inl, inr, none, some, arith, ◌==◌, eq_iff, eq_refl, err, Option-cases,
  if◌then◌else◌, ℕ, ◌+◌, ◌<◌, ◌^◌, List, [], ◌∷◌,
}
use node_agent.Prelude.Int.{pos, add64-pos}
use node_agent.Prelude.Dict.{lookup, lookup-insert}
use node_agent.Tenant.{Tenant, active, suspended, Reason, not_found}
use node_agent.Tenant.Store.{Store}
use node_agent.Tenant.Registry.{
  Registry, get, update_tenant, add_usage, with_usage, suspend, resume, with_status,
}

module _ {ℓ} {S : Type ℓ} (st : Store S) where
  -- Every call on one tenant: an unknown id is refused and nothing changes; a known one is changed
  -- in memory whatever the store replies, no other tenant is, and the keys stay.
  pub update_tenant_lem :
      (change : Tenant → Tenant) (id k : String) (r : Registry S)
      → ((get id r ≡ none) × (update_tenant st change id r ≡ (err not_found, r)))
        ⊎ ((t : Tenant) × (get id r ≡ some t)
            × (get k (update_tenant st change id r).1
                ≡ (if id == k then some (change t) else get k r))
            × ((update_tenant st change id r).1.by_key ≡ r.by_key))
  unfolding update_tenant
  update_tenant_lem change id k r = elim (Option-cases (lookup id r.by_id)) [
    | inl e ↦ inl (e, rw (e, update_tenant))
    | inr (t, e) ↦ inr (t, e, ground (arith, lookup-insert id k (change t) r.by_id), ground arith)
  ]

  -- A tenant that was active without a reason is what it was, in every field, after it has been
  -- suspended and resumed; so is every other tenant, and so are the keys.
  pub resume-suspend :
      (id : String) (reason : Reason) (r : Registry S) (t : Tenant)
      → get id r ≡ some t
      → t.status ≡ active
      → t.reason ≡ Reason.none
      → (k : String)
      → (get k (resume st id (suspend st id reason r).1).1 ≡ get k r)
        × ((resume st id (suspend st id reason r).1).1.by_key ≡ r.by_key)
  unfolding with_status
  resume-suspend id reason r t found a n k = ground (
    arith,
    update_tenant_lem (with_status suspended reason) id k r,
    update_tenant_lem (with_status suspended reason) id id r,
    update_tenant_lem (with_status active Reason.none) id k (suspend st id reason r).1,
    eq_refl id,
    eq_iff id k,
  )

  pub add_all : String → List ℕ → Registry S → Registry S
  add_all id [] r = r
  add_all id (d ∷ ds) r = add_all id ds (add_usage st id (pos d) r).1

unfoldable pub sum : List ℕ → ℕ
sum [] = 0
sum (d ∷ ds) = d + sum ds

with_usage-pos :
    (t : Tenant) (u d : ℕ)
    → t.used_bytes ≡ pos u
    → u + d < 2 ^ 63
    → with_usage (pos d) t ≡ record t { used_bytes = pos (u + d) }
unfolding with_usage
with_usage-pos t u d e h = rw e (ground (arith, add64-pos u d))

module _ {ℓ} {S : Type ℓ} (st : Store S) where
  add_one :
      (id : String) (d : ℕ) (r : Registry S) (t : Tenant) (u : ℕ)
      → get id r ≡ some t
      → t.used_bytes ≡ pos u
      → u + d < 2 ^ 63
      → get id (add_usage st id (pos d) r).1 ≡ some (record t { used_bytes = pos (u + d) })
  add_one id d r t u found e h =
      ground
        (arith, update_tenant_lem st (with_usage (pos d)) id id r, with_usage-pos t u d, eq_refl id)

  -- Byte counts added one call at a time, whatever the store replies, sum up exactly, as long as
  -- the sum is below 2^63; nothing else of the tenant changes.
  pub add_all-sum :
      (id : String) (ds : List ℕ) (r : Registry S) (t : Tenant) (u : ℕ)
      → get id r ≡ some t
      → t.used_bytes ≡ pos u
      → u + sum ds < 2 ^ 63
      → get id (add_all st id ds r) ≡ some (record t { used_bytes = pos (u + sum ds) })
  unfolding add_all sum
  add_all-sum id [] r t u found e h = ground arith
  add_all-sum id (d ∷ ds) r t u found e h =
      let t' = record t { used_bytes = pos (u + d) } in
      let added = add_one id d r t u found e (omega arith) in
      let assoc : u + d + sum ds ≡ u + (d + sum ds) = omega arith in
      rw (← assoc)
        (add_all-sum id ds (add_usage st id (pos d) r).1 t' (u + d) added refl (omega arith))
