-- ===== src/Controller/Agent/Customer.antt =====
-- controller/agent/customer.go: what a customer may do.
use node_agent.Prelude.{
  ℕ, suc, String, Option, none, some, List, [], ◌∷◌, ◌==◌, if◌then◌else◌, ok, err,
}
use node_agent.Common.{User}
use node_agent.Tenant.Registry.{get}
use node_agent.Shared.{Core, Manager}
use node_agent.Shared.Users.{set_tenant_users}
use node_agent.Controller.Agent.{Response, answer, error, usage, synced}
use node_agent.Controller.Agent.Views.{usage_view}

pub record ProxyInput : Type 0 where
  pub vless_id : String
  pub vless_flow : String
  pub vmess_id : String
  pub trojan_pass : String
  pub ss_password : String
  pub ss_method : String
  pub hysteria_auth : String

pub record UserInput : Type 0 where
  pub email : String
  pub inbounds : List String
  pub proxy : ProxyInput

-- A proxy for every secret that is not empty.
unfoldable pub to_common_user : UserInput → User
to_common_user u =
    let p = u.proxy in
    record {
      email = u.email;
      proxies = some (record {
        vless =
            if p.vless_id == ""
            then none
            else some (record { id = p.vless_id; flow = p.vless_flow });
        vmess = if p.vmess_id == "" then none else some (record { id = p.vmess_id });
        trojan = if p.trojan_pass == "" then none else some (record { password = p.trojan_pass });
        shadowsocks =
            if p.ss_password == ""
            then none
            else some (record { password = p.ss_password; method = p.ss_method });
        wireguard = none;
        hysteria = if p.hysteria_auth == "" then none else some (record { auth = p.hysteria_auth });
      });
      inbounds = u.inbounds;
    }

-- The loop of syncUsers; `none` is a user without an email.
unfoldable pub to_common_users : List UserInput → Option (List User)
unfolding to_common_user
to_common_users [] = some []
to_common_users (u ∷ us) =
    let rest : Option (List User) = elim (to_common_users us) [
      | none ↦ none
      | some more ↦ some (to_common_user u ∷ more)
    ] in
    if u.email == "" then none else rest

abbrev pub count_synced : List User → ℕ
count_synced [] = 0
count_synced (u ∷ us) = suc (count_synced us)

module _ {S K : Type 0} where
  unfoldable pub sync_users :
      Core K → String → Option (List UserInput) → Manager S K → Response × Manager S K
  unfolding to_common_users
  sync_users c tenant_id none m = (answer 400 error, m)
  sync_users c tenant_id (some inputs) m = elim (to_common_users inputs) [
    | none ↦ (answer 400 error, m)
    | some us ↦
        let (reply, m') = set_tenant_users c tenant_id us m in
        (elim reply [ err e ↦ answer 500 error | ok _ ↦ answer 200 (synced (count_synced us)) ], m')
  ]

  unfoldable pub my_usage : String → Manager S K → Response
  unfolding usage_view
  my_usage tenant_id m = elim (get tenant_id m.reg) [
    | none ↦ answer 404 error
    | some t ↦ answer 200 (usage (usage_view t))
  ]
