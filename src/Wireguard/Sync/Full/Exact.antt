-- ===== src/Wireguard/Sync/Full/Exact.antt =====
-- The whole of syncUsersFull: all the peers that the panel wants, and no other.
use node_agent.Prelude.{
  ◌≡◌, inl, inr, sym, ap, ◌∙◌, subst, Option, some, List, arith, Bool-cases, Result-cases, ok, map,
}
use node_agent.Prelude.Dict.{Dict, IsMap, map_values-IsMap}
use node_agent.Common.{User}
use node_agent.Wireguard.{Platform}
use node_agent.Wireguard.Config.{get_pre_shared_key, interface_networks}
use node_agent.Wireguard.PeerStore.{replace_all}
use node_agent.Wireguard.Users.{DesiredPeer, normalize_users, collect_desired_peers}
use node_agent.Wireguard.Users.Collected.{collect_desired_peers-IsCollected}
use node_agent.Wireguard.Plan.{
  SyncDiff, build_sync_diff, target_of, peers_of, build_target_peer_configs,
}
use node_agent.Wireguard.Plan.Diff.{HaveIps}
use node_agent.Wireguard.Plan.Built.{targets_of, build_sync_diff-IsPlanned}
use node_agent.Wireguard.Plan.Targets.{AreCanonical, targets_of-AreTargets, targets_of-HaveIps}
use node_agent.Wireguard.Sync.{
  Device, WireGuard, existing_by_key, ensure_running, with_store, apply_full, sync_users_full,
}
use node_agent.Wireguard.Sync.Existing.{IsSound, existing_by_key_lem, existing_by_key-parsed}
use node_agent.Wireguard.Sync.Partial.Reconciled.{found_peers}
use node_agent.Wireguard.Sync.Full.{
  HasExactly, valid_targets-all, build_target_peer_configs-applied, replace_all-HasExactly,
  quiet-HasExactly,
}

module _ {Key Net D : Type 0} (p : Platform Key Net) (dev : Device Key Net D) where
  apply_full-store :
      (diff : SyncDiff Key Net) (w w' : WireGuard Key Net D)
      → IsMap diff.target_peers
      → HaveIps p diff.target_peers
      → apply_full p dev diff w ≡ (ok tt, w')
      → w'.peer_store
        ≡ (replace_all p.key_string (map some (peers_of diff.target_peers)) w.peer_store).1
  unfolding apply_full with_store
  apply_full-store diff w w' u h e =
      let psk = get_pre_shared_key p w.config in
      let built = build_target_peer_configs diff.target_peers psk in
      let valid =
        valid_targets-all diff.target_peers built.1 u
          (λ k i. build_target_peer_configs-applied p psk diff.target_peers u h k ∙ i) in
      elim (Result-cases (ensure_running w)) [
        | inr (x, f) ↦ absurd (ground (arith, e, f))
        | inl (d, f) ↦ elim (Result-cases (dev.apply_peers_replace_all built.0 d).0) [
          | inr (x, g) ↦ absurd (ground (arith, e, f, g))
          | inl (y, g) ↦ ground (arith, e, f, g, valid)
        ]
      ]

  -- The whole synchronisation, where the peers wanted were found.
  pub exact :
      ((x : Key) → p.parse_key (p.key_string x) ≡ some x)
      → (us : List (Option User)) (w w' : WireGuard Key Net D)
        (desired : Dict (DesiredPeer Key Net))
      → collect_desired_peers p w.config.interface_name
          (interface_networks p w.config)
          (normalize_users us)
        ≡ ok desired
      → AreCanonical p.key_string desired
      → IsSound p.key_string w.peer_store
      → sync_users_full p dev us w ≡ (ok tt, w')
      → HasExactly p (targets_of desired) w'.peer_store × IsSound p.key_string w'.peer_store
  unfolding sync_users_full
  exact parses us w w' desired c canonical sound e =
      let users = normalize_users us in
      let ps = w.peer_store in
      let targets = targets_of desired in
      let existing = existing_by_key p ps in
      let psk = get_pre_shared_key p w.config in
      let diff = build_sync_diff p psk existing desired in
      let pools = interface_networks p w.config in
      let h = collect_desired_peers-IsCollected p w.config.interface_name pools us desired c in
      let are = targets_of-AreTargets p pools users desired h canonical in
      let u = map_values-IsMap target_of desired h.is_map in
      let ips = targets_of-HaveIps p pools users desired h in
      let (existing_map, found) = existing_by_key_lem p ps sound in
      let parsed = existing_by_key-parsed p parses ps sound in
      let planned =
        build_sync_diff-IsPlanned p psk existing desired existing_map h.is_map ips parsed in
      elim (Bool-cases diff.changed) [
        | inr n ↦
            let same : w ≡ w' = ground (arith, e, c, n) in
            subst
              (λ (v : WireGuard Key Net D).
                HasExactly p targets v.peer_store × IsSound p.key_string v.peer_store)
              same
              (quiet-HasExactly p users targets u are ps existing diff sound found planned n, sound)
        | inl y ↦
            let done : apply_full p dev diff w ≡ (ok tt, w') = ground (arith, e, c, y) in
            subst (λ new. HasExactly p targets new × IsSound p.key_string new)
              (sym (
                apply_full-store diff w w' (subst IsMap (sym planned.wanted) u)
                  (subst (HaveIps p) (sym planned.wanted) ips) done
                ∙ ap (λ m. (replace_all p.key_string (map some (peers_of m)) ps).1) planned.wanted))
              (replace_all-HasExactly p users targets u are ps)
      ]

  -- Where the synchronisation of all users succeeds, it has found their peers, and the store has
  -- these and no other: each under its key, with its email and the texts of its networks in order.
  -- Emails and keys are one to one again. Conditions: emails and keys were one to one, a key's text
  -- can be parsed, and the texts of the keys that are found are those that the keys print.
  pub sync_users_full-HasExactly :
      ((x : Key) → p.parse_key (p.key_string x) ≡ some x)
      → (us : List (Option User)) (w w' : WireGuard Key Net D)
      → ((desired : Dict (DesiredPeer Key Net))
          → found_peers p dev us w ≡ ok desired
          → AreCanonical p.key_string desired)
      → IsSound p.key_string w.peer_store
      → sync_users_full p dev us w ≡ (ok tt, w')
      → (desired : Dict (DesiredPeer Key Net)) × (found_peers p dev us w ≡ ok desired)
        × HasExactly p (targets_of desired) w'.peer_store
        × IsSound p.key_string w'.peer_store
  unfolding sync_users_full
  sync_users_full-HasExactly parses us w w' canonical sound e =
      elim (Result-cases (found_peers p dev us w)) [
        | inr (x, f) ↦ absurd (ground (arith, e, f))
        | inl (desired, f) ↦
            let (new, one) = exact parses us w w' desired f (canonical desired f) sound e in
            (desired, f, new, one)
      ]
