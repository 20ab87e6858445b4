-- ===== src/Wireguard/Backend.antt =====
-- backend/wireguard/wireguard.go, lines 113 to 354, and UpdateUsersAndRestart of user.go: the start,
-- the restart and the end of the backend. Left out: the tickers of the statistics, the log channel,
-- the version and the host's routing, which none of the calls below reads. Shutdown runs once; a
-- second run of its body would find nothing to close.
pub mod Startup
mod Examples
use node_agent.Prelude.{
  String, Bool, true, false, Option, none, some, List, [], ◌∷◌, Result, ok, err, map, sort_by,
}
use node_agent.Prelude.Int.{ℤ}
use node_agent.Prelude.Dict.{Dict}
use node_agent.Common.{User}
use node_agent.Wireguard.{PeerInfo, Platform, PeerConfig, SyncError}
use node_agent.Wireguard.Config.{Settings, get_private_key, get_pre_shared_key, interface_networks}
use node_agent.Wireguard.PeerStore.{PeerStore, new_peer_store, get_all, init}
use node_agent.Wireguard.Users.{normalize_users, collect_desired_peers}
use node_agent.Wireguard.Plan.{
  build_add_config_from_peer_info, build_sync_diff, build_target_peer_configs,
  filter_upserts_by_applied_keys,
}
use node_agent.Wireguard.Sync.{
  stopped, running, WireGuard, Outcome, existing_by_key, ensure_running, sync_users_partial,
}
use node_agent.Wireguard.Manager.{
  DeviceConfig, Kernel, Manager, Step, initialize_with_peers, apply_config, device, close,
}

pub data BackendError : Type 0 where
  no_settings invalid_private_key : BackendError
  not_collected sync_failed not_ready : SyncError → BackendError
  no_manager_created : String → BackendError
  not_initialized : Step → BackendError
  peer_without_ips : String → BackendError
  not_reconfigured : String → BackendError

module _ {Key Net : Type 0} where
  -- The loop of buildPeerConfigsForRestart.
  unfoldable pub restart_configs :
      Option Key → List (PeerInfo Key Net) → Result BackendError (List (PeerConfig Key Net))
  restart_configs psk [] = ok []
  restart_configs psk (peer ∷ peers) = elim (build_add_config_from_peer_info peer psk) [
    | none ↦ err (peer_without_ips peer.email)
    | some config ↦ elim (restart_configs psk peers) [
      | err e ↦ err e
      | ok configs ↦ ok (config ∷ configs)
    ]
  ]

  unfoldable pub build_peer_configs_for_restart :
      Platform Key Net
      → List (PeerInfo Key Net)
      → Option Key
      → Result BackendError (List (PeerConfig Key Net))
  unfolding restart_configs
  build_peer_configs_for_restart p peers psk =
      restart_configs psk
        (sort_by (λ (peer : PeerInfo Key Net). p.key_string peer.public_key) peers)

module _ {Key Net : Type 0} (p : Platform Key Net) where
  -- What New has computed when the interface is to be set up: the configs of the wanted peers, and
  -- the peers that go into the store.
  unfoldable pub startup_plan :
      Settings
      → List (Option User)
      → Result SyncError (List (PeerConfig Key Net) × List (PeerInfo Key Net))
  startup_plan c us =
      let psk = get_pre_shared_key p c in
      elim (collect_desired_peers p c.interface_name (interface_networks p c)
        (normalize_users us)) [
          | err e ↦ err e
          | ok desired ↦
              let diff = build_sync_diff p psk (existing_by_key p new_peer_store) desired in
              let (configs, applied) = build_target_peer_configs diff.target_peers psk in
              ok (configs, filter_upserts_by_applied_keys p diff.upsert_peers applied)
        ]

module _ {Key Net Addr Link H : Type 0} (p : Platform Key Net)
    (k : Kernel Key Net Addr Link H) where
  -- newWithManagerFactory; a manager that cannot be initialised is closed again, and comes back here
  -- for what it has left of the host.
  unfoldable pub new_with_manager_factory :
      (String → Result String (Manager H))
      → Option Settings
      → List (Option User)
      → Result BackendError (WireGuard Key Net (Manager H)) × Option (Manager H)
  unfolding startup_plan
  new_with_manager_factory factory none us = (err no_settings, none)
  new_with_manager_factory factory (some c) us = elim (get_private_key p c) [
    | none ↦ (err invalid_private_key, none)
    | some key ↦ elim (startup_plan p c us) [
      | err e ↦ (err (not_collected e), none)
      | ok (configs, peers) ↦ elim (factory c.interface_name) [
        | err e ↦ (err (no_manager_created e), none)
        | ok manager ↦
            let (reply, manager') =
              initialize_with_peers k key c.listen_port c.address configs manager in
            elim reply [
              | err step ↦ (err (not_initialized step), some ((close k manager').1))
              | ok _ ↦ (
                ok (record {
                  config = c;
                  manager = some manager';
                  stats_tracker = [];
                  peer_store = init p.key_string (map some peers) new_peer_store;
                  state = running;
                }),
                some manager',
              )
            ]
      ]
    ]
  ]

  unfoldable pub restart_locked :
      WireGuard Key Net (Manager H) → Result BackendError (Unit {0}) × WireGuard Key Net (Manager H)
  unfolding build_peer_configs_for_restart ensure_running
  restart_locked w = elim (get_private_key p w.config) [
    | none ↦ (err invalid_private_key, w)
    | some key ↦
        elim (build_peer_configs_for_restart p (get_all w.peer_store)
          (get_pre_shared_key p w.config)) [
            | err e ↦ (err e, w)
            | ok configs ↦ elim (ensure_running w) [
              | err e ↦ (err (not_ready e), w)
              | ok manager ↦
                  let (reply, manager') =
                    apply_config k
                      (record {
                        private_key = some key;
                        listen_port = some w.config.listen_port;
                        peers = configs;
                        replace_peers = true;
                      })
                      manager in
                  (
                    elim reply [ err e ↦ err (not_reconfigured e) | ok _ ↦ ok tt ],
                    record w { manager = some manager' },
                  )
            ]
          ]
  ]

  unfoldable pub update_users_and_restart :
      List (Option User)
      → WireGuard Key Net (Manager H)
      → Result BackendError (Unit {0}) × WireGuard Key Net (Manager H)
  unfolding restart_locked
  update_users_and_restart us w =
      let (reply, w') = sync_users_partial p (device k) us w in
      elim reply [ err e ↦ (err (sync_failed e), w') | ok _ ↦ restart_locked w' ]

module _ {Key Net Addr Link H : Type 0} (k : Kernel Key Net Addr Link H) where
  -- The manager is closed and forgotten; it comes back here for what it has left of the host.
  unfoldable pub shutdown :
      WireGuard Key Net (Manager H) → Option (Manager H) × WireGuard Key Net (Manager H)
  shutdown w = (
    elim w.manager [ none ↦ none | some manager ↦ some ((close k manager).1) ],
    record w { manager = none; state = stopped },
  )
