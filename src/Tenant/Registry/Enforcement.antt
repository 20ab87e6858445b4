-- ===== src/Tenant/Registry/Enforcement.antt =====
-- What a call of `Enforce` does to the registry, and which changes it reports.
use mathlib.Core.Option
use node_agent.Prelude.{
  String, ◌≡◌, ◌≢◌, refl, ◌⊎◌, ◌↔◌, ap, subst, ◌∙◌, Option-cases, inl, inr, Bool, true, false, none,
  some, List, [], ◌∷◌, ◌++◌, arith, ◌&&◌, ◌||◌, if◌then◌else◌,
}
use node_agent.Prelude.Int.{ℤ, pos, ◌<ℤ◌, ◌≤ℤ◌}
use node_agent.Prelude.Dict.{Dict, map_values, lookup-map_values}
use node_agent.Tenant.{
  Status, active, suspended, deleted, Reason, quota, expired, Tenant, effective_limit,
}
use node_agent.Tenant.Store.{Store}
use node_agent.Tenant.Registry.{
  Registry, Change, is_active, is_expired, over_limit, with_status, enforce_one, enforce_loop,
  enforce, get,
}

-- Past a set expiry; 0 is "never".
abbrev pub IsPast : ℤ → Tenant → Type 0
IsPast now t = (pos 0 <ℤ t.expire_at) × (t.expire_at <ℤ now)

-- What becomes of one tenant, in terms of its numbers.
pub data Enforced (now : ℤ) (t : Tenant) : Tenant → Type 0 where
  inactive : t.status ≢ active → Enforced now t t
  within : t.status ≡ active → ¬ IsPast now t → t.used_bytes <ℤ effective_limit t → Enforced now t t
  expires :
      t.status ≡ active
      → IsPast now t
      → Enforced now t (record t { status = suspended; reason = expired })
  exhausts :
      t.status ≡ active
      → ¬ IsPast now t
      → effective_limit t ≤ℤ t.used_bytes
      → Enforced now t (record t { status = suspended; reason = quota })

abbrev pub must_suspend : ℤ → Tenant → Bool
must_suspend now t = is_active t.status && (is_expired now t || over_limit t)

abbrev pub cause : ℤ → Tenant → Reason
cause now t = if is_expired now t then expired else quota

abbrev pub enforced : ℤ → Tenant → Tenant
enforced now t = if must_suspend now t then with_status suspended (cause now t) t else t

abbrev pub reported_one : ℤ → Tenant → List Change
reported_one now t =
    if must_suspend now t
    then record { tenant = with_status suspended (cause now t) t; reason = cause now t } ∷ []
    else []

abbrev pub reported : ℤ → Dict Tenant → List Change
reported now [] = []
reported now ((k, t) ∷ m) = reported_one now t ++ reported now m

pub is_expired_iff : (now : ℤ) (t : Tenant) → (is_expired now t ≡ true) ↔ IsPast now t
unfolding is_expired
is_expired_iff now t = ground arith

pub over_limit_iff : (t : Tenant) → (over_limit t ≡ true) ↔ (effective_limit t ≤ℤ t.used_bytes)
unfolding over_limit
over_limit_iff t = ground arith

enforced-Enforced : (now : ℤ) (t : Tenant) → Enforced now t (enforced now t)
unfolding with_status
enforced-Enforced now t = by_status t.status refl
  where
    by_limit :
        t.status ≡ active
        → is_expired now t ≡ false
        → (b : Bool) → over_limit t ≡ b
        → Enforced now t (enforced now t)
    by_limit a x true o =
        subst (Enforced now t) (ground arith)
          (exhausts a (ground (arith, is_expired_iff now t)) ((over_limit_iff t).0 o))
    by_limit a x false o =
        subst (Enforced now t) (ground arith)
          (within a (ground (arith, is_expired_iff now t)) (ground (arith, over_limit_iff t)))

    by_expiry :
        t.status ≡ active → (b : Bool) → is_expired now t ≡ b → Enforced now t (enforced now t)
    by_expiry a true x =
        subst (Enforced now t) (ground arith) (expires a ((is_expired_iff now t).0 x))
    by_expiry a false x = by_limit a x (over_limit t) refl

    by_status : (s : Status) → t.status ≡ s → Enforced now t (enforced now t)
    by_status active e = by_expiry e (is_expired now t) refl
    by_status suspended e = subst (Enforced now t) (ground arith) (inactive (ground arith))
    by_status deleted e = subst (Enforced now t) (ground arith) (inactive (ground arith))

module _ {ℓ} {S : Type ℓ} (st : Store S) (now : ℤ) where
  pub enforce_one_lem :
      (t : Tenant) (s : S)
      → ((enforce_one st now t s).0 ≡ enforced now t)
        × ((enforce_one st now t s).2 ≡ reported_one now t)
  unfolding enforce_one
  enforce_one_lem t s = ground arith

  pub store-enforce_one :
      (t : Tenant) (s : S)
      → ((must_suspend now t ≡ true)
          × ((enforce_one st now t s).1 ≡ (st.save_tenant (enforced now t) s).1))
        ⊎ ((must_suspend now t ≡ false) × ((enforce_one st now t s).1 ≡ s))
  unfolding enforce_one
  store-enforce_one t s = ground arith

  enforce_loop_lem :
      (m : Dict Tenant) (s : S)
      → ((enforce_loop st now m s).0 ≡ map_values (enforced now) m)
        × ((enforce_loop st now m s).2 ≡ reported now m)
  unfolding enforce_loop map_values
  enforce_loop_lem [] s = (refl, refl)
  enforce_loop_lem ((k, t) ∷ m) s =
      let one = enforce_one_lem t s in
      let rest = enforce_loop_lem m (enforce_one st now t s).1 in (cc, cc)

  pub get-enforce :
      (r : Registry S) (k : String)
      → get k (enforce st now r).1 ≡ Option.map (enforced now) (get k r)
  unfolding enforce
  get-enforce r k =
      rw ((enforce_loop_lem r.by_id r.store).0) (lookup-map_values (enforced now) k r.by_id)

  -- A round of enforcement suspends a tenant exactly if it is active and past a set expiry (for
  -- `expired`) or, failing that, at its quota and credit (for `quota`), and changes no other field;
  -- every other tenant stays as it is, and no tenant comes or goes.
  pub enforce-Enforced :
      (r : Registry S) (k : String)
      → ((get k r ≡ none) × (get k (enforce st now r).1 ≡ none))
        ⊎ ((t t' : Tenant) × (get k r ≡ some t)
            × (get k (enforce st now r).1 ≡ some t')
            × Enforced now t t')
  enforce-Enforced r k = elim (Option-cases (get k r)) [
    | inl e ↦ inl (e, get-enforce r k ∙ ap (Option.map (enforced now)) e)
    | inr (t, e) ↦ inr (
      t,
      enforced now t,
      e,
      get-enforce r k ∙ ap (Option.map (enforced now)) e,
      enforced-Enforced now t,
    )
  ]

  pub changes-enforce : (r : Registry S) → (enforce st now r).0 ≡ reported now r.by_id
  unfolding enforce
  changes-enforce r = (enforce_loop_lem r.by_id r.store).1

  settled : (m : Dict Tenant) → reported now (map_values (enforced now) m) ≡ []
  unfolding map_values with_status
  settled [] = refl
  settled ((k, t) ∷ m) = ground (arith, settled m)

  pub by_id-enforce :
      (r : Registry S) → (enforce st now r).1.by_id ≡ map_values (enforced now) r.by_id
  unfolding enforce
  by_id-enforce r = (enforce_loop_lem r.by_id r.store).0

  -- A second round at the same time finds nothing to suspend.
  pub enforce_again : (r : Registry S) → (enforce st now (enforce st now r).1).0 ≡ []
  enforce_again r =
      changes-enforce (enforce st now r).1 ∙ ap (reported now) (by_id-enforce r) ∙ settled r.by_id
