-- ===== src/Controller/ServerExamples.antt =====
-- The theorems of the two servers at a concrete node with two tenants. The key of a tenant is its own
-- hash; the core accepts every user.
use node_agent.Prelude.{
  String, ◌≡◌, ◌≢◌, ◌⊎◌, refl, true, none, some, List, [], ◌∷◌, ok, err, arith, ◌-◌,
}
use node_agent.Prelude.Int.{◌+ℤ◌, wrap64, add64, pos, ◌<ℤ◌}
use node_agent.Prelude.Dict.{lookup}
use node_agent.Common.{User}
use node_agent.Tenant.{Tenant, active, Reason, effective_limit}
use node_agent.Tenant.MemStore
use node_agent.Tenant.Auth.{authorize}
use node_agent.Tenant.Auth.Decisions.{IsServed, owner}
use node_agent.Shared.{Core, Manager, About, new_manager}
use node_agent.Shared.Lifecycle.Cutoff.{SameRecords}
use node_agent.Shared.Users.Frame.{Spares}
use node_agent.Controller.Grpccompat.{Server, sync_users, serve}
use node_agent.Controller.Grpccompat.Confined.{serve-StaysIn}
use node_agent.Controller.Agent.{Host}
use node_agent.Controller.Agent.Customer.{UserInput}
use node_agent.Controller.Agent.Router.{put_users, customer, protected}
use node_agent.Controller.Agent.Router
use node_agent.Controller.Agent.Router.Confined.{MayChange, serve-MayChange}
use node_agent.Controller.Agent.Views.{usage_view}
use node_agent.Controller.Agent.Views.Difference.{usage_view-differences}
use node_agent.Controller.Agent.Admin.{reset_tenant}
use node_agent.Controller.Agent.Admin.Reset.{reset_tenant-authorize}

abbrev hash_key : String → String
hash_key k = k

abbrev about : About (List User)
about = record { started = λ k. true; version = λ k. "1.8" }

abbrev core : Core (List User)
core = record {
  start = λ config. ok [];
  sync_user = λ u k. (ok tt, u ∷ k);
  update_users = λ us k. (ok tt, k);
  get_stats = λ k. (none, k);
}

abbrev host : Host
host = record {
  latest_xray = err "offline";
  latest_node = err "offline";
  is_version = λ v. true;
  download_xray = λ v. err "offline";
  executable = ok "/usr/local/bin/pg-node-agent";
  download_node = λ v path. err "offline";
  sharable_inbounds = λ config tags. ok config;
}

abbrev tenant_of : String → String → Tenant
tenant_of id key = record {
  id = id;
  api_key_hash = key;
  status = active;
  reason = Reason.none;
  period_id = 1;
  quota_bytes = pos 100;
  used_bytes = pos 130;
  credit_limit_bytes = pos 50;
  expire_at = pos 0;
}

abbrev node : Manager (List (String × Tenant)) (List User)
node =
    record (new_manager (record {
      by_id = ("acme", tenant_of "acme" "k1") ∷ ("globex", tenant_of "globex" "k2") ∷ [];
      by_key = ("k1", "acme") ∷ ("k2", "globex") ∷ [];
      store = [];
    })) { core = some [] }

abbrev ann : User
ann = record { email = "ann"; proxies = none; inbounds = "in" ∷ [] }

abbrev server : Server
server = record { authn = some "master"; core_key = "core" }

abbrev after_sync : Manager (List (String × Tenant)) (List User)
after_sync =
    (serve about core hash_key server (some ("k1" ∷ [])) (pos 9) (sync_users (ann ∷ [])) node).1

serve-StaysIn_example :
    (after_sync ≡ node)
    ⊎ ((server.core_key ≢ "")
        × ((rest : List String) × (some ("k1" ∷ []) ≡ some (server.core_key ∷ rest)))
        × SameRecords node after_sync)
    ⊎ ((key : String) × (rest : List String) × (t : Tenant) × (some ("k1" ∷ []) ≡ some (key ∷ rest))
        × (owner (hash_key key) node.reg ≡ some t)
        × IsServed (pos 9) t
        × Spares t.id node after_sync)
serve-StaysIn_example =
    serve-StaysIn about core hash_key server (some ("k1" ∷ [])) (pos 9) (sync_users (ann ∷ [])) node

abbrev inputs : List UserInput
inputs =
    record {
      email = "ann";
      inbounds = "in" ∷ [];
      proxy = record {
        vless_id = "u1";
        vless_flow = "";
        vmess_id = "";
        trojan_pass = "";
        ss_password = "";
        ss_method = "";
        hysteria_auth = "";
      };
    }
    ∷ []

serve-MayChange_example :
    MayChange hash_key "master" "k1"
      (pos 9)
      (protected (customer (put_users (some inputs))))
      node
      (Router.serve about core MemStore.store host hash_key "master" "k1"
        (pos 9)
        (protected (customer (put_users (some inputs))))
        node).1
serve-MayChange_example =
    serve-MayChange about core MemStore.store host hash_key "master" "k1" (pos 9)
      (protected (customer (put_users (some inputs)))) node

usage_view-differences_example :
    ((usage_view (tenant_of "acme" "k1")).remaining_bytes ≡ pos (100 - 130))
    × ((usage_view (tenant_of "acme" "k1")).overage_bytes ≡ pos (130 - 100))
usage_view-differences_example =
    usage_view-differences (tenant_of "acme" "k1") 130 100 refl refl (omega arith) (omega arith)

leads : lookup "k1" node.reg.by_key ≡ some "acme"
unfolding lookup
leads = refl

found : lookup "acme" node.reg.by_id ≡ some (tenant_of "acme" "k1")
unfolding lookup
found = refl

limit : pos 0 <ℤ effective_limit (tenant_of "acme" "k1")
unfolding effective_limit add64 wrap64 ◌+ℤ◌
limit = omega arith

reset_tenant-authorize_example :
    (authorize hash_key "k1" (pos 9) (reset_tenant core MemStore.store "acme" node).1.reg).allowed
    ≡ true
reset_tenant-authorize_example =
    reset_tenant-authorize core MemStore.store hash_key "k1" (pos 9) "acme" node
      (tenant_of "acme" "k1") leads found limit (λ h. ground (arith, h))
