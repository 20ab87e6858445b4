-- ===== src/Shared/Examples.antt =====
-- The theorems of the manager at concrete states. The core of the examples keeps the users that it
-- serves and accepts every call.
use node_agent.Prelude.{String, ◌≡◌, refl, none, some, List, [], ◌∷◌, ok}
use node_agent.Prelude.Int.{◌-ℤ◌, sub64, ◌+ℤ◌, wrap64, add64, ℤ, pos}
use node_agent.Prelude.Dict.{Dict, lookup, insert, delete}
use node_agent.Common.{User}
use node_agent.Stats.{Stat}
use node_agent.Tenant.{Tenant, active, Reason}
use node_agent.Tenant.MemStore
use node_agent.Tenant.Registry.{new_tenant, Registry, CreateParams, create_tenant, get}
use node_agent.Shared.{proxy_credentials, build_user, Core, Manager, new_manager, user_credentials}
use node_agent.Shared.Names.{HasNoDot, has_no_dot-HasNoDot}
use node_agent.Shared.Users.{set_tenant_users, add_tenant_users}
use node_agent.Shared.Users.Owners.{AreOwned}
use node_agent.Shared.Users.Secrets.{AreApart, tenant_users-AreApart}
use node_agent.Shared.Users.Isolation.{set_tenant_users-AreOwned, add_tenant_users-AreOwned}
use node_agent.Shared.Lifecycle.{suspend_tenant, resume_tenant}
use node_agent.Shared.Lifecycle.Restore.{resume_tenant-suspend_tenant}
use node_agent.Shared.Traffic.{amount, current_totals, attribute}

-- A user without inbounds goes, any other is served.
abbrev serve : User → Dict User → Dict User
serve u k = elim u.inbounds [ [] ↦ delete u.email k | tag ∷ tags ↦ insert u.email u k ]

abbrev serve_all : List User → Dict User → Dict User
serve_all [] k = k
serve_all (u ∷ us) k = serve_all us (serve u k)

abbrev core : Core (Dict User)
core = record {
  start = λ config. ok [];
  sync_user = λ u k. (ok tt, serve u k);
  update_users = λ us k. (ok tt, serve_all us k);
  get_stats = λ k. (none, k);
}

abbrev user : String → String → User
user email id = record {
  email = email;
  proxies = some (record {
    vmess = none;
    vless = some (record { id = id; flow = "" });
    trojan = none;
    shadowsocks = none;
    wireguard = none;
    hysteria = none;
  });
  inbounds = "in" ∷ [];
}

abbrev params : String → String → CreateParams
params id key = record {
  id = id;
  api_key = key;
  quota_bytes = pos 100;
  credit_limit_bytes = pos 0;
  expire_at = pos 0;
  period_id = 1;
}

abbrev registry : Registry (Dict Tenant)
registry =
    (create_tenant MemStore.store (λ k. k) (params "globex" "k2")
      (create_tenant MemStore.store (λ k. k) (params "acme" "k1")
        (record { by_id = []; by_key = []; store = [] })).1).1

abbrev started : Manager (Dict Tenant) (Dict User)
started = record (new_manager registry) { core = some [] }

-- Acme has ann; then Globex has bob.
abbrev with_ann : Manager (Dict Tenant) (Dict User)
with_ann = (add_tenant_users core "acme" (user "ann" "u1" ∷ []) started).1

abbrev with_bob : Manager (Dict Tenant) (Dict User)
with_bob = (set_tenant_users core "globex" (user "bob" "u2" ∷ []) with_ann).1

acme-HasNoDot : HasNoDot "acme"
acme-HasNoDot = has_no_dot-HasNoDot "acme" refl

globex-HasNoDot : HasNoDot "globex"
globex-HasNoDot = has_no_dot-HasNoDot "globex" refl

started-AreOwned : AreOwned started
unfolding lookup
started-AreOwned tenant_id email u cred d i has = elim i [ ]

add_tenant_users-AreOwned_example : AreOwned with_ann
add_tenant_users-AreOwned_example =
    add_tenant_users-AreOwned core "acme" (user "ann" "u1" ∷ []) started acme-HasNoDot
      started-AreOwned

with_ann-AreOwned : AreOwned with_ann
with_ann-AreOwned =
    add_tenant_users-AreOwned core "acme" (user "ann" "u1" ∷ []) started acme-HasNoDot
      started-AreOwned

set_tenant_users-AreOwned_example : AreOwned with_bob
unfolding set_tenant_users lookup add_tenant_users create_tenant MemStore.save_tenant insert
    new_tenant user_credentials build_user proxy_credentials
set_tenant_users-AreOwned_example =
    set_tenant_users-AreOwned core "globex" (user "bob" "u2" ∷ []) with_ann globex-HasNoDot
      with_ann-AreOwned refl

tenant_users-AreApart_example :
    AreApart (add_tenant_users core "globex" (user "bob" "u2" ∷ []) with_ann).1
    × ((set_tenant_users core "globex" (user "bob" "u2" ∷ []) with_ann).0 ≡ ok tt
        → AreApart (set_tenant_users core "globex" (user "bob" "u2" ∷ []) with_ann).1)
tenant_users-AreApart_example =
    tenant_users-AreApart core "globex" (user "bob" "u2" ∷ []) with_ann globex-HasNoDot
      with_ann-AreOwned

abbrev acme_tenant : Tenant
acme_tenant = record {
  id = "acme";
  api_key_hash = "k1";
  status = active;
  reason = Reason.none;
  period_id = 1;
  quota_bytes = pos 100;
  used_bytes = pos 0;
  credit_limit_bytes = pos 0;
  expire_at = pos 0;
}

resume_tenant-suspend_tenant_example :
    let m =
      (resume_tenant core MemStore.store "acme"
        (suspend_tenant core MemStore.store "acme" Reason.manual with_bob).1).1 in
    ((k : String) → get k m.reg ≡ get k with_bob.reg)
    × (m.users ≡ with_bob.users)
    × (m.creds ≡ with_bob.creds)
    × (m.email_to ≡ with_bob.email_to)
    × (m.last_seen ≡ with_bob.last_seen)
unfolding set_tenant_users add_tenant_users lookup create_tenant MemStore.save_tenant insert
    new_tenant user_credentials build_user proxy_credentials
resume_tenant-suspend_tenant_example =
    resume_tenant-suspend_tenant core MemStore.store "acme" Reason.manual with_bob acme_tenant refl
      refl refl

-- Ann's counters in two rows, of which 100 bytes were seen before.
abbrev ann_rows : List Stat
ann_rows =
    record { name = "tacme.ann"; type = "uplink"; link = ""; value = pos 300 }
    ∷ record { name = "tacme.ann"; type = "downlink"; link = ""; value = pos 40 }
    ∷ []

abbrev names : Dict String
names = ("tacme.ann", "acme") ∷ []

abbrev seen_before : Dict ℤ
seen_before = ("tacme.ann", pos 100) ∷ []

ann_used : amount "acme" (attribute names (current_totals ann_rows []) seen_before []).1 ≡ pos 240
unfolding current_totals attribute lookup insert add64 wrap64 ◌+ℤ◌ sub64 ◌-ℤ◌
ann_used = refl
