-- ===== src/Controller/Agent/Admin.antt =====
-- controller/agent/admin.go, and the handlers of lifecycle.go: what the operator may do.
pub mod Reset
use node_agent.Prelude.{
  String, Bool, true, false, Option, none, some, List, [], ◌∷◌, ◌==◌, ◌||◌, if◌then◌else◌, not,
  Result, ok, err,
}
use node_agent.Prelude.Int.{ℤ}
use node_agent.Tenant.{
  Error, not_found, already_exists, key_conflict, store_failure, Reason, Tenant,
}
use node_agent.Tenant.Store.{Store}
use node_agent.Tenant.Registry.{
  Registry, CreateParams, get, list, create_tenant, set_quota, reset_period,
}
use node_agent.Shared.{Core, Manager, Answer, Failure, registry, About, started, version}
use node_agent.Shared.Lifecycle.{
  stop, restart_core, apply_config, suspend_tenant, resume_tenant, delete_tenant,
}
use node_agent.Controller.Agent.{
  Host, Response, Body, answer, nothing, error, restarting, core_state, document, tenant, tenants,
  usage, xray_version,
}
use node_agent.Controller.Agent.Views.{view_of, tenant_view, tenant_views, usage_view}

pub record SetQuotaRequest : Type 0 where
  pub quota_bytes : ℤ
  pub credit_limit_bytes : ℤ
  pub expire_at : ℤ

-- writeNotFoundOr500, on an error of the registry and on one of the manager.
abbrev pub not_found_or_500 : Error → Response
not_found_or_500 not_found = answer 404 error
not_found_or_500 already_exists = answer 500 error
not_found_or_500 key_conflict = answer 500 error
not_found_or_500 (store_failure e) = answer 500 error

abbrev pub failure_response : Failure → Response
failure_response (registry e) = not_found_or_500 e
failure_response other = answer 500 error

abbrev pub conflict_or_500 : Error → Response
conflict_or_500 already_exists = answer 409 error
conflict_or_500 key_conflict = answer 409 error
conflict_or_500 not_found = answer 500 error
conflict_or_500 (store_failure e) = answer 500 error

abbrev is_latest : String → Bool
is_latest wanted = wanted == "" || wanted == "latest"

module _ {S K : Type 0} (about : About K) where
  abbrev pub state_of : Manager S K → Body
  state_of m = core_state (started about m) (version about m)

  abbrev pub core_stop : Manager S K → Response × Manager S K
  core_stop m = (answer 200 (core_state (started about (stop m)) ""), stop m)

  module _ (c : Core K) where
    -- `none` is a body that cannot be read; a longer one than 8 MiB is cut before.
    unfoldable pub post_config : Option String → Manager S K → Response × Manager S K
    post_config none m = (answer 400 error, m)
    post_config (some config) m =
        let (reply, m') = apply_config c config m in
        let applied : Response × Manager S K =
          (elim reply [ err e ↦ answer 500 error | ok _ ↦ answer 200 (state_of m') ], m') in
        if config == "" then (answer 400 error, m) else applied

    -- coreStart and coreRestart.
    unfoldable pub core_restart : Manager S K → Response × Manager S K
    core_restart m =
        let (reply, m') = restart_core c m in
        (elim reply [ err e ↦ answer 400 error | ok _ ↦ answer 200 (state_of m') ], m')

    unfoldable pub set_xray_version : Host → Option String → Manager S K → Response × Manager S K
    set_xray_version host none m = (answer 400 error, m)
    set_xray_version host (some wanted) m =
        let resolved : Result String String =
          if is_latest wanted then host.latest_xray else ok wanted in
        elim resolved [
          | err e ↦ (answer 502 error, m)
          | ok chosen ↦
              let (reply, m') = restart_core c m in
              let swapped : Response × Manager S K = elim (host.download_xray chosen) [
                | err e ↦ (answer 502 error, m)
                | ok _ ↦ (
                  answer 200 (
                      xray_version chosen (elim reply [ err e ↦ false | ok _ ↦ started about m' ])),
                  m',
                )
              ] in
              if not (host.is_version chosen) then (answer 400 error, m) else swapped
        ]

module _ {S K : Type 0} where
  abbrev pub get_config : Manager S K → Response
  get_config m = answer 200 (document (if m.config == "" then "{}" else m.config))

  abbrev pub get_inbounds : Host → Manager S K → Response
  get_inbounds host m = elim (host.sharable_inbounds m.config m.force_inbounds) [
    | err e ↦ answer 500 error
    | ok doc ↦ answer 200 (document doc)
  ]

  -- The tenant as a response shows it, after a call that returned no error.
  abbrev pub shown_tenant : String → Manager S K → Response
  shown_tenant id m = answer 200 (tenant (view_of (get id m.reg)))

  module _ (c : Core K) (st : Store S) where
    unfoldable pub remove_tenant : String → Manager S K → Response × Manager S K
    remove_tenant id m =
        let (reply, m') = delete_tenant c st id m in
        (elim reply [ err e ↦ failure_response e | ok _ ↦ answer 204 nothing ], m')

    unfoldable pub suspend_by_id : String → Manager S K → Response × Manager S K
    suspend_by_id id m =
        let (reply, m') = suspend_tenant c st id Reason.manual m in
        (elim reply [ err e ↦ failure_response e | ok _ ↦ shown_tenant id m' ], m')

    unfoldable pub resume_by_id : String → Manager S K → Response × Manager S K
    resume_by_id id m =
        let (reply, m') = resume_tenant c st id m in
        (elim reply [ err e ↦ failure_response e | ok _ ↦ shown_tenant id m' ], m')

    unfoldable pub reset_tenant : String → Manager S K → Response × Manager S K
    reset_tenant id m =
        let (reply, reg) = reset_period st id m.reg in
        let m1 : Manager S K = record m { reg = reg } in
        elim reply [
          | err e ↦ (not_found_or_500 e, m1)
          | ok _ ↦
              let (reply', m2) = resume_tenant c st id m1 in
              (elim reply' [ err e ↦ answer 500 error | ok _ ↦ shown_tenant id m2 ], m2)
        ]

  module _ (st : Store S) where
    unfoldable pub post_tenant :
        (String → String) → Option CreateParams → Manager S K → Response × Manager S K
    post_tenant hash_key none m = (answer 400 error, m)
    post_tenant hash_key (some p) m =
        let (reply, reg) = create_tenant st hash_key p m.reg in
        let created : Response × Manager S K = (
          elim reply [
            | err e ↦ conflict_or_500 e
            | ok t ↦ answer 201 (tenant (some (tenant_view t)))
          ],
          record m { reg = reg },
        ) in
        if p.id == "" || p.api_key == "" then (answer 400 error, m) else created

    unfoldable pub patch_quota :
        String → Option SetQuotaRequest → Manager S K → Response × Manager S K
    patch_quota id none m = (answer 400 error, m)
    patch_quota id (some q) m =
        let (reply, reg) = set_quota st id q.quota_bytes q.credit_limit_bytes q.expire_at m.reg in
        (
          elim reply [
            | err e ↦ not_found_or_500 e
            | ok t ↦ answer 200 (tenant (some (tenant_view t)))
          ],
          record m { reg = reg },
        )

  unfoldable pub list_tenants : Manager S K → Response
  unfolding tenant_views list
  list_tenants m = answer 200 (tenants (tenant_views (list m.reg)))

  unfoldable pub tenant_usage : String → Manager S K → Response
  unfolding usage_view
  tenant_usage id m = elim (get id m.reg) [
    | none ↦ answer 404 error
    | some t ↦ answer 200 (usage (usage_view t))
  ]

-- A body that cannot be decoded leaves the version empty. The service restarts after the response.
unfoldable pub self_update : Host → Option String → Response
self_update host asked =
    let wanted : String = elim asked [ none ↦ "" | some v ↦ v ] in
    let resolved : Result String String =
      if is_latest wanted then host.latest_node else ok wanted in
    elim resolved [
      | err e ↦ answer 502 error
      | ok chosen ↦
          let located : Response = elim host.executable [
            | err e ↦ answer 500 error
            | ok path ↦ elim (host.download_node chosen path) [
              | err e ↦ answer 502 error
              | ok _ ↦ answer 200 restarting
            ]
          ] in
          if not (host.is_version chosen) then answer 400 error else located
    ]
