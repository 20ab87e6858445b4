-- ===== src/Controller/Agent/Router.antt =====
-- controller/agent/server.go and middleware.go: the routes, and who may use them.
pub mod Confined
use node_agent.Prelude.{
  ℕ, String, Bool, true, false, Option, none, some, List, ◌==◌, ◌&&◌, if◌then◌else◌,
}
use node_agent.Prelude.Int.{ℤ}
use node_agent.Tenant.{Scope, Code, Decision}
use node_agent.Tenant.Store.{Store}
use node_agent.Tenant.Registry.{CreateParams}
use node_agent.Tenant.Auth.{authenticate}
use node_agent.Shared.{Core, Manager, About}
use node_agent.Controller.Agent.{Host, Response, answer, error, denied}
use node_agent.Controller.Agent.Customer.{UserInput, sync_users, my_usage}
use node_agent.Controller.Agent.Admin.{
  SetQuotaRequest, state_of, get_config, get_inbounds, post_config, core_stop, core_restart,
  set_xray_version, self_update, list_tenants, post_tenant, remove_tenant, patch_quota,
  suspend_by_id, resume_by_id, reset_tenant, tenant_usage,
}

-- The routes of the master scope.
pub data AdminRequest : Type 0 where
  post_admin_config : Option String → AdminRequest
  get_admin_config get_admin_inbounds : AdminRequest
  post_core_start post_core_stop post_core_restart : AdminRequest
  post_xray_version post_node_update : Option String → AdminRequest
  get_tenants : AdminRequest
  post_tenants : Option CreateParams → AdminRequest
  delete_tenant_id : String → AdminRequest
  patch_tenant_quota : String → Option SetQuotaRequest → AdminRequest
  post_suspend post_resume post_reset get_usage : String → AdminRequest

-- The routes of the tenant scope.
pub data TenantRequest : Type 0 where
  put_users : Option (List UserInput) → TenantRequest
  get_me : TenantRequest

-- A route that wants a key.
pub data Protected : Type 0 where
  admin : AdminRequest → Protected
  customer : TenantRequest → Protected

pub data Request : Type 0 where
  get_health : Request
  protected : Protected → Request

-- writeDecision.
unfoldable pub write_decision : Decision → Response
write_decision d = elim d.code [
  | Code.unauthenticated ↦ answer 401 error
  | Code.resource_exhausted ↦ answer 402 (denied d.reason)
  | Code.permission_denied ↦ answer 403 (denied d.reason)
  | Code.ok ↦ answer 403 error
]

module _ {S K : Type 0} (c : Core K) where
  unfoldable pub handle_customer : String → TenantRequest → Manager S K → Response × Manager S K
  unfolding sync_users my_usage
  handle_customer tenant_id (put_users body) m = sync_users c tenant_id body m
  handle_customer tenant_id get_me m = (my_usage tenant_id m, m)

module _ {S K : Type 0} (about : About K) (c : Core K) (st : Store S) (host : Host)
    (hash_key : String → String) where
  unfoldable pub handle_admin : AdminRequest → Manager S K → Response × Manager S K
  unfolding post_config core_restart set_xray_version self_update list_tenants post_tenant
      remove_tenant patch_quota suspend_by_id resume_by_id reset_tenant tenant_usage
  handle_admin (post_admin_config body) m = post_config about c body m
  handle_admin get_admin_config m = (get_config m, m)
  handle_admin get_admin_inbounds m = (get_inbounds host m, m)
  handle_admin post_core_start m = core_restart about c m
  handle_admin post_core_stop m = core_stop about m
  handle_admin post_core_restart m = core_restart about c m
  handle_admin (post_xray_version body) m = set_xray_version about c host body m
  handle_admin (post_node_update body) m = (self_update host body, m)
  handle_admin get_tenants m = (list_tenants m, m)
  handle_admin (post_tenants body) m = post_tenant st hash_key body m
  handle_admin (delete_tenant_id id) m = remove_tenant c st id m
  handle_admin (patch_tenant_quota id body) m = patch_quota st id body m
  handle_admin (post_suspend id) m = suspend_by_id c st id m
  handle_admin (post_resume id) m = resume_by_id c st id m
  handle_admin (post_reset id) m = reset_tenant c st id m
  handle_admin (get_usage id) m = (tenant_usage id m, m)

  -- requireScope on what authMiddleware has put into the context; an admin route wants the master
  -- scope, a customer's the tenant scope.
  unfoldable pub with_scope :
      Scope × Option String → Protected → Manager S K → Response × Manager S K
  unfolding handle_admin handle_customer
  with_scope (Scope.master, id) (admin r) m = handle_admin r m
  with_scope (Scope.none, id) (admin r) m = (answer 403 error, m)
  with_scope (Scope.tenant, id) (admin r) m = (answer 403 error, m)
  with_scope (Scope.tenant, some id) (customer r) m = handle_customer c id r m
  with_scope (Scope.tenant, none) (customer r) m = handle_customer c "" r m
  with_scope (Scope.none, id) (customer r) m = (answer 403 error, m)
  with_scope (Scope.master, id) (customer r) m = (answer 403 error, m)

  -- authMiddleware: `stored` is the hash of the master key. A tenant that is let in is there; the
  -- Recoverer turns the panic of a nil one into an error.
  unfoldable pub authorized : Scope × Decision → Protected → Manager S K → Response × Manager S K
  unfolding with_scope write_decision
  authorized (Scope.tenant, d) request m =
      let let_in : Response × Manager S K = elim d.tenant [
        | none ↦ (answer 500 error, m)
        | some t ↦ with_scope (Scope.tenant, some t.id) request m
      ] in
      if d.allowed then let_in else (write_decision d, m)
  authorized (Scope.master, d) request m = with_scope (Scope.master, none) request m
  authorized (Scope.none, d) request m = with_scope (Scope.none, none) request m

  unfoldable pub serve : String → String → ℤ → Request → Manager S K → Response × Manager S K
  unfolding authorized authenticate
  serve stored key now get_health m = (answer 200 (state_of about m), m)
  serve stored key now (protected r) m =
      let reply = authorized (authenticate hash_key stored key now m.reg) r m in
      if key == "" then (answer 401 error, m) else reply
