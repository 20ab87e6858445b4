-- ===== src/Wireguard/Sync.antt =====
-- backend/wireguard/user_full_sync.go, user_partial_sync.go and user.go, and the readiness tests of
-- wireguard.go, lines 94 to 111. The device is wireguard.Manager behind the interface `Device`;
-- `syncMu` makes each call one step.
pub mod Existing
pub mod Partial
pub mod Full
pub mod Failure
pub mod Examples
use node_agent.Prelude.{
  String, Bool, true, false, Option, none, some, List, [], ◌∷◌, ◌==◌, not, if◌then◌else◌, contains,
  map, trim_space, Result, ok, err,
}
use node_agent.Prelude.Dict.{Dict, lookup, insert}
use node_agent.Common.{User}
use node_agent.Stats.Tracker.{Tracker, remove_stats}
use node_agent.Wireguard.{
  PeerInfo, Platform, PeerConfig, SyncError, key_taken, not_started, no_manager, nil_user,
  apply_failed,
}
use node_agent.Wireguard.Config.{Settings, get_pre_shared_key, interface_networks}
use node_agent.Wireguard.PeerStore.{
  PeerStore, get_all, get_by_email, get_email_map, apply_changes, replace_all,
}
use node_agent.Wireguard.Users.{DesiredPeer, normalize_users, collect_desired_peers}
use node_agent.Wireguard.Plan.{SyncDiff, build_sync_diff, build_target_peer_configs}

pub data Lifecycle : Type 0 where
  stopped starting running : Lifecycle

-- What a Manager does for a synchronisation; a failure is an error's text.
pub record Device (Key Net D : Type 0) : Type 0 where
  pub apply_peers : List (PeerConfig Key Net) → D → Result String (Unit {0}) × D
  pub apply_peers_replace_all : List (PeerConfig Key Net) → D → Result String (Unit {0}) × D

pub record WireGuard (Key Net D : Type 0) : Type 0 where
  pub config : Settings
  pub manager : Option D
  pub stats_tracker : Tracker
  pub peer_store : PeerStore Key Net
  pub state : Lifecycle

abbrev pub Outcome : Type 0
Outcome = Result SyncError (Unit {0})

abbrev pub remove_all_stats : List String → Tracker → Tracker
remove_all_stats [] t = t
remove_all_stats (key ∷ keys) t = remove_all_stats keys (remove_stats key t)

module _ {Key Net : Type 0} where
  -- The peers whose keys were applied.
  unfoldable pub valid_targets :
      Dict (PeerInfo Key Net) → List String → List (Option (PeerInfo Key Net))
  valid_targets [] applied = []
  valid_targets ((key, peer) ∷ m) applied =
      let rest = valid_targets m applied in if contains applied key then some peer ∷ rest else rest

  -- Keys that an untouched user has.
  unfoldable pub check_owners : List String → Dict String → Dict (DesiredPeer Key Net) → Outcome
  check_owners touched owners [] = ok tt
  check_owners touched owners ((key, d) ∷ more) =
      let rest = check_owners touched owners more in
      elim (lookup key owners) [
        | none ↦ rest
        | some owner ↦
            if owner == d.email
            then rest
            else if not (contains touched owner)
            then err (key_taken key owner)
            else rest
      ]

  module _ (p : Platform Key Net) where
    unfoldable pub index_by_key :
        List (PeerInfo Key Net) → Dict (PeerInfo Key Net) → Dict (PeerInfo Key Net)
    index_by_key [] m = m
    index_by_key (peer ∷ peers) m =
        index_by_key peers (insert (p.key_string peer.public_key) peer m)

    abbrev pub existing_by_key : PeerStore Key Net → Dict (PeerInfo Key Net)
    existing_by_key ps = index_by_key (get_all ps) []

    -- The peers that the touched users have.
    unfoldable pub existing_subset :
        List String → PeerStore Key Net → Dict (PeerInfo Key Net) → Dict (PeerInfo Key Net)
    existing_subset [] ps m = m
    existing_subset (email ∷ emails) ps m =
        existing_subset emails ps (elim (get_by_email email ps) [
          | none ↦ m
          | some peer ↦ insert (p.key_string peer.public_key) peer m
        ])

module _ {Key Net D : Type 0} where
  -- ensureRunningWithManagerLocked, with the manager that the caller then reads.
  unfoldable pub ensure_running : WireGuard Key Net D → Result SyncError D
  ensure_running w = elim w.state [
    | stopped ↦ err not_started
    | starting ↦ err not_started
    | running ↦ elim w.manager [ none ↦ err no_manager | some d ↦ ok d ]
  ]

  -- The end of either synchronisation: the store's new contents, and the keys that left it.
  unfoldable pub with_store :
      List String × PeerStore Key Net → WireGuard Key Net D → WireGuard Key Net D
  with_store (removed, ps) w = record w {
    peer_store = ps;
    stats_tracker = remove_all_stats removed w.stats_tracker;
  }

  module _ (p : Platform Key Net) where
    module _ (dev : Device Key Net D) where
      -- The end of syncUsersFull, where something changed.
      unfoldable pub apply_full :
          SyncDiff Key Net → WireGuard Key Net D → Outcome × WireGuard Key Net D
      unfolding ensure_running valid_targets with_store get_pre_shared_key
      apply_full diff w =
          let (configs, applied) =
            build_target_peer_configs diff.target_peers (get_pre_shared_key p w.config) in
          elim (ensure_running w) [
            | err e ↦ (err e, w)
            | ok d ↦
                let (reply, d') = dev.apply_peers_replace_all configs d in
                let w' : WireGuard Key Net D = record w { manager = some d' } in
                elim reply [
                  | err e ↦ (err (apply_failed e), w')
                  | ok _ ↦ (
                    ok tt,
                    with_store
                        (replace_all p.key_string (valid_targets diff.target_peers applied)
                          w.peer_store)
                        w',
                  )
                ]
          ]

      unfoldable pub sync_users_full :
          List (Option User) → WireGuard Key Net D → Outcome × WireGuard Key Net D
      unfolding apply_full
      sync_users_full us w =
          elim (collect_desired_peers p w.config.interface_name (interface_networks p w.config)
            (normalize_users us)) [
              | err e ↦ (err e, w)
              | ok desired ↦
                  let diff =
                    build_sync_diff p (get_pre_shared_key p w.config)
                      (existing_by_key p w.peer_store) desired in
                  if not diff.changed then (ok tt, w) else apply_full diff w
            ]

      -- The end of syncUsersPartialReconcile: the device is told only of what it has to change.
      unfoldable pub apply_partial :
          SyncDiff Key Net → WireGuard Key Net D → Outcome × WireGuard Key Net D
      unfolding ensure_running with_store
      apply_partial diff w =
          let commit = λ (w' : WireGuard Key Net D).
            with_store
              (apply_changes p.key_string diff.remove_keys (map some diff.upsert_peers)
                w'.peer_store)
              w' in
          elim diff.peer_configs [
            | [] ↦ (ok tt, commit w)
            | config ∷ configs ↦ elim (ensure_running w) [
              | err e ↦ (err e, w)
              | ok d ↦
                  let (reply, d') = dev.apply_peers (config ∷ configs) d in
                  let w' : WireGuard Key Net D = record w { manager = some d' } in
                  elim reply [ err e ↦ (err (apply_failed e), w') | ok _ ↦ (ok tt, commit w') ]
            ]
          ]

      unfoldable pub sync_users_partial :
          List (Option User) → WireGuard Key Net D → Outcome × WireGuard Key Net D
      unfolding apply_partial check_owners existing_subset
      sync_users_partial us w =
          let users = normalize_users us in
          let touched = map (λ (u : User). u.email) users in
          elim (collect_desired_peers p w.config.interface_name (interface_networks p w.config)
            users) [
              | err e ↦ (err e, w)
              | ok desired ↦ elim (check_owners touched (get_email_map w.peer_store) desired) [
                | err e ↦ (err e, w)
                | ok _ ↦
                    apply_partial
                      (build_sync_diff p (get_pre_shared_key p w.config)
                        (existing_subset p touched w.peer_store []) desired)
                      w
              ]
            ]

      unfoldable pub sync_user : Option User → WireGuard Key Net D → Outcome × WireGuard Key Net D
      unfolding sync_users_partial
      sync_user none w = (err nil_user, w)
      sync_user (some u) w = sync_users_partial (some u ∷ []) w

      abbrev pub sync_users :
          List (Option User) → WireGuard Key Net D → Outcome × WireGuard Key Net D
      sync_users us w = sync_users_full us w

      abbrev pub update_users :
          List (Option User) → WireGuard Key Net D → Outcome × WireGuard Key Net D
      update_users us w = sync_users_partial us w
