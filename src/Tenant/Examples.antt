-- ===== src/Tenant/Examples.antt =====
-- The theorems of the tenant package at concrete registries over `memStore`.
use text.Mathlib.TextLemmas.{cons-ne-nil}
use node_agent.Prelude.{
  ◌+◌, String, ◌≡◌, ◌≢◌, ◌↔◌, ◌⊎◌, refl, none, some, List, [], ◌∷◌, arith, true, err, ◌==◌,
  if◌then◌else◌,
}
use node_agent.Prelude.Int.{pos, add64, wrap64, ◌+ℤ◌}
use node_agent.Prelude.Dict.{Dict, lookup, insert}
use node_agent.Tenant.{Tenant, suspended, manual, not_found, master, tenant}
use node_agent.Tenant.MemStore
use node_agent.Tenant.MemStore.{store_laws}
use node_agent.Tenant.Store.{index_tenants}
use node_agent.Tenant.Registry.{
  Registry, index_keys, update_tenant, with_status, CreateParams, new_registry, new_tenant,
  create_tenant, delete_tenant, suspend, resume, enforce, get,
}
use node_agent.Tenant.Registry.Steps.{Call, creates, adds_usage, enforces, step, run}
use node_agent.Tenant.Registry.Enforcement.{Enforced, enforce-Enforced, enforce_again}
use node_agent.Tenant.Registry.Consistent.{IsConsistent}
use node_agent.Tenant.Registry.Invariant.{run-IsConsistent}
use node_agent.Tenant.Registry.Usage.{sum, update_tenant_lem, resume-suspend, add_all, add_all-sum}
use node_agent.Tenant.Registry.Recovery.{IsDurable}
use node_agent.Tenant.Registry.Durability.{restart-run}
use node_agent.Tenant.Auth.{decide, authorize, authenticate, master_hash}
use node_agent.Tenant.Auth.Decisions.{
  IsServed, owner, decide_owner, authorize_iff, authorize-enforce, authenticate_scope,
}
use node_agent.Tenant.Auth.Keys.{IsNew, authorize-create_tenant, authorize-delete_tenant}

abbrev hash_key : String → String
hash_key k = String.◌∷◌ "h" k

abbrev fresh : Registry (Dict Tenant)
fresh = record { by_id = []; by_key = []; store = [] }

abbrev acme : CreateParams
acme = record {
  id = "acme";
  api_key = "k1";
  quota_bytes = pos 100;
  credit_limit_bytes = pos 10;
  expire_at = pos 500;
  period_id = 0;
}

abbrev globex : CreateParams
globex = record acme { id = "globex"; api_key = "k2" }

abbrev history : List Call
history = creates acme ∷ creates globex ∷ adds_usage "acme" (pos 110) ∷ enforces (pos 9) ∷ []

-- After it `acme` has used up its quota and credit and is suspended; `globex` has used nothing.
abbrev used_up : Registry (Dict Tenant)
used_up = run MemStore.store hash_key history fresh

-- NewRegistry over the store that the history has left.
abbrev restarted : Registry (Dict Tenant)
restarted = record {
  by_id = index_tenants (MemStore.values used_up.store) [];
  by_key = index_keys (MemStore.values used_up.store) [];
  store = used_up.store;
}

fresh-IsConsistent : IsConsistent fresh
unfolding lookup
fresh-IsConsistent = record { at_id = λ k t e. cc; at_key = λ h k e. cc }

fresh-IsDurable : IsDurable MemStore.store store_laws fresh
unfolding store_laws lookup
fresh-IsDurable = record { unique = tt; good = (tt, tt); same = λ k. refl }

run-IsConsistent_example : IsConsistent used_up
run-IsConsistent_example = run-IsConsistent MemStore.store hash_key history fresh fresh-IsConsistent

restart-run_example :
    (get "acme" restarted ≡ get "acme" used_up)
    × (lookup "acme" restarted.by_key ≡ lookup "acme" used_up.by_key)
unfolding MemStore.save_tenant new_registry MemStore.load_tenants
restart-run_example =
    restart-run MemStore.store store_laws (λ t s. refl) hash_key history fresh restarted
      fresh-IsConsistent fresh-IsDurable refl "acme"

enforce-Enforced_example :
    ((get "acme" used_up ≡ none) × (get "acme" (enforce MemStore.store (pos 501) used_up).1 ≡ none))
    ⊎ ((t t' : Tenant) × (get "acme" used_up ≡ some t)
        × (get "acme" (enforce MemStore.store (pos 501) used_up).1 ≡ some t')
        × Enforced (pos 501) t t')
enforce-Enforced_example = enforce-Enforced MemStore.store (pos 501) used_up "acme"

enforce_again_example :
    (enforce MemStore.store (pos 501) (enforce MemStore.store (pos 501) used_up).1).0 ≡ []
enforce_again_example = enforce_again MemStore.store (pos 501) used_up

authorize_iff_example :
    ((authorize hash_key "k2" (pos 10) used_up).allowed ≡ true)
    ↔ ((t : Tenant) × (owner (hash_key "k2") used_up ≡ some t) × IsServed (pos 10) t)
authorize_iff_example = authorize_iff hash_key "k2" (pos 10) used_up

authorize-enforce_example :
    ((authorize hash_key "k2" (pos 501) (enforce MemStore.store (pos 501) used_up).1).allowed
      ≡ (authorize hash_key "k2" (pos 501) used_up).allowed)
    × ((authorize hash_key "k2" (pos 501) (enforce MemStore.store (pos 501) used_up).1).reason
        ≡ (authorize hash_key "k2" (pos 501) used_up).reason)
authorize-enforce_example = authorize-enforce hash_key "k2" (pos 501) MemStore.store used_up

-- A new tenant, beside the two.
abbrev initech : CreateParams
initech = record acme { id = "initech"; api_key = "k3" }

abbrev initech_tenant : Tenant
initech_tenant = new_tenant hash_key initech

authorize-create_tenant_example :
    IsNew hash_key initech initech_tenant
    × (get "initech" (create_tenant MemStore.store hash_key initech fresh).1 ≡ some initech_tenant)
    × (authorize hash_key "k2" (pos 10) (create_tenant MemStore.store hash_key initech fresh).1 ≡ (
        if hash_key "k3" == hash_key "k2"
        then decide (pos 10) initech_tenant
        else authorize hash_key "k2" (pos 10) fresh))
unfolding create_tenant MemStore.save_tenant lookup
authorize-create_tenant_example =
    authorize-create_tenant MemStore.store hash_key initech fresh initech_tenant fresh-IsConsistent
      refl "k2" (pos 10)

authorize-delete_tenant_example :
    (t : Tenant) × (get "acme" used_up ≡ some t)
    × (get "acme" (delete_tenant MemStore.store "acme" used_up).1 ≡ none)
    × (authorize hash_key "k2" (pos 10) (delete_tenant MemStore.store "acme" used_up).1 ≡ (
        if t.api_key_hash == hash_key "k2"
        then decide_owner (pos 10) none
        else authorize hash_key "k2" (pos 10) used_up))
unfolding delete_tenant run create_tenant new_tenant lookup insert MemStore.save_tenant
    MemStore.delete_tenant update_tenant enforce step
authorize-delete_tenant_example =
    authorize-delete_tenant MemStore.store hash_key "acme" used_up run-IsConsistent_example refl
      "k2" (pos 10)

abbrev master_key : String
master_key = "m"

authenticate_scope_example :
    let result = authenticate hash_key (master_hash hash_key master_key) "k2" (pos 10) used_up in
    ((result.0 ≡ master)
      × (master_key ≢ "")
      × (hash_key "k2" ≡ hash_key master_key)
      × (result.1.allowed ≡ true))
    ⊎ ((result.0 ≡ tenant)
        × ((master_key ≡ "") ⊎ (hash_key "k2" ≢ hash_key master_key))
        × (result.1 ≡ authorize hash_key "k2" (pos 10) used_up))
authenticate_scope_example =
    authenticate_scope hash_key "k2" (pos 10) (λ k. cons-ne-nil _ k) master_key used_up

update_tenant_lem_example :
    ((get "globex" used_up ≡ none)
      × (suspend MemStore.store "globex" manual used_up ≡ (err not_found, used_up)))
    ⊎ ((t : Tenant) × (get "globex" used_up ≡ some t)
        × (get "acme" (suspend MemStore.store "globex" manual used_up).1 ≡ (
            if "globex" == "acme"
            then some (with_status suspended manual t)
            else get "acme" used_up))
        × ((suspend MemStore.store "globex" manual used_up).1.by_key ≡ used_up.by_key))
update_tenant_lem_example =
    update_tenant_lem MemStore.store (with_status suspended manual) "globex" "acme" used_up

abbrev globex_tenant : Tenant
globex_tenant = new_tenant hash_key globex

globex_found : get "globex" used_up ≡ some globex_tenant
unfolding run step create_tenant lookup insert MemStore.save_tenant update_tenant enforce new_tenant
    add64 wrap64 ◌+ℤ◌
globex_found = refl

resume-suspend_example :
    let later =
      (resume MemStore.store "globex" (suspend MemStore.store "globex" manual used_up).1).1 in
    (get "globex" later ≡ get "globex" used_up) × (later.by_key ≡ used_up.by_key)
unfolding new_tenant
resume-suspend_example =
    resume-suspend MemStore.store "globex" manual used_up globex_tenant globex_found refl refl
      "globex"

add_all-sum_example :
    get "globex" (add_all MemStore.store "globex" (3 ∷ 4 ∷ []) used_up)
    ≡ some (record globex_tenant { used_bytes = pos (0 + sum (3 ∷ 4 ∷ [])) })
unfolding new_tenant sum
add_all-sum_example =
    add_all-sum MemStore.store "globex" (3 ∷ 4 ∷ []) used_up globex_tenant 0 globex_found refl
      (omega arith)
