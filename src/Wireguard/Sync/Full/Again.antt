-- ===== src/Wireguard/Sync/Full/Again.antt =====
-- A synchronisation of the same users finds nothing to change.
use node_agent.Prelude.{
  String, ◌≡◌, inl, inr, refl, sym, ◌∙◌, subst, true, false, Option, none, some, List, [], ◌∷◌,
  arith, eq_iff, eq_refl, Option-cases, List-cases, ok, contains, In,
}
use node_agent.Prelude.Dict.{Dict, lookup, has_key}
use node_agent.Common.{User}
use node_agent.Wireguard.{PeerInfo, Platform}
use node_agent.Wireguard.Config.{get_pre_shared_key, interface_networks}
use node_agent.Wireguard.PeerStore.{PeerStore, get_by_key}
use node_agent.Wireguard.Users.{DesiredPeer, normalize_users, collect_desired_peers}
use node_agent.Wireguard.Users.Collected.{collect_desired_peers-IsCollected}
use node_agent.Wireguard.Plan.{SyncDiff, build_sync_diff, peers_of}
use node_agent.Wireguard.Plan.Diff.{is_unchanged}
use node_agent.Wireguard.Plan.Built.{IsPlanned, targets_of, build_sync_diff-IsPlanned, In-peers_of}
use node_agent.Wireguard.Plan.Targets.{AreCanonical, targets_of-HaveIps}
use node_agent.Wireguard.Sync.{Device, WireGuard, existing_by_key, sync_users_full}
use node_agent.Wireguard.Sync.Existing.{IsSound, existing_by_key_lem, existing_by_key-parsed}
use node_agent.Wireguard.Sync.Partial.{same_ips-texts}
use node_agent.Wireguard.Sync.Full.{HasExactly}
use node_agent.Wireguard.Sync.Full.Exact.{exact}
use node_agent.Wireguard.Sync.Failure.{IsSafe, sync_users-IsSafe}

no_text : (keys : List String) → ((k : String) → contains keys k ≡ false) → keys ≡ []
no_text [] h = refl
no_text (key ∷ keys) h = absurd (ground (arith, h key, eq_refl key))

module _ {Key Net : Type 0} (p : Platform Key Net) where
  exact-quiet :
      (ps : PeerStore Key Net) (existing targets : Dict (PeerInfo Key Net))
      (diff : SyncDiff Key Net)
      → ((k : String) → lookup k existing ≡ lookup k ps.peers)
      → IsPlanned p existing targets diff
      → HasExactly p targets ps
      → diff.changed ≡ false
  unfolding get_by_key has_key
  exact-quiet ps existing targets diff found planned h =
      let kept : (k : String) → contains diff.remove_keys k ≡ false = λ k.
        elim (Option-cases (lookup k targets)) [
          | inl e ↦ ground (arith, planned.removed k, found k, h.no_other k e, e)
          | inr (t, e) ↦ ground (arith, planned.removed k, e)
        ] in
      let no_new : (k : String) → lookup k planned.upserts ≡ none = λ k.
        elim (Option-cases (lookup k targets)) [
          | inl e ↦ ground (arith, planned.upserted k, found k, h.no_other k e, e)
          | inr (t, e) ↦
              let s = h.shown k t e in
              let same : is_unchanged p s.peer t ≡ true = ground (
                arith,
                same_ips-texts p s.peer.allowed_ips t.allowed_ips s.same_networks,
                s.same_email,
                eq_iff s.peer.email t.email,
              ) in
              ground (arith, planned.upserted k, found k, s.stored, e, same)
        ] in
      let empty : peers_of planned.upserts ≡ [] = elim (List-cases (peers_of planned.upserts)) [
        | inl e ↦ e
        | inr (q, rest, e) ↦
            let (k, f) =
              In-peers_of planned.upserts q planned.distinct (subst (In q) (sym e) (inl refl)) in
            absurd (ground (arith, f, no_new k))
      ] in
      planned.still (no_text diff.remove_keys kept) (planned.listed ∙ empty)

module _ {Key Net D : Type 0} (p : Platform Key Net) (dev : Device Key Net D) where
  -- Where the synchronisation of all users succeeded, doing it again succeeds at once: the service,
  -- its device included, stays as it is. Conditions: as for the first synchronisation.
  pub sync_users_full-again :
      ((x : Key) → p.parse_key (p.key_string x) ≡ some x)
      → (us : List (Option User)) (w w' : WireGuard Key Net D)
        (desired : Dict (DesiredPeer Key Net))
      → collect_desired_peers p w.config.interface_name
          (interface_networks p w.config)
          (normalize_users us)
        ≡ ok desired
      → AreCanonical p.key_string desired
      → IsSound p.key_string w.peer_store
      → sync_users_full p dev us w ≡ (ok tt, w')
      → sync_users_full p dev us w' ≡ (ok tt, w')
  unfolding sync_users_full
  sync_users_full-again parses us w w' desired c canonical sound e =
      let (there, sound') = exact p dev parses us w w' desired c canonical sound e in
      let in_place = subst (IsSafe w) e (sync_users-IsSafe p dev us w).0 in
      let same = in_place.0.config in
      let c' : collect_desired_peers p w'.config.interface_name (interface_networks p w'.config)
            (normalize_users us)
          ≡ ok desired =
        rw same c in
      let pools = interface_networks p w'.config in
      let psk = get_pre_shared_key p w'.config in
      let h = collect_desired_peers-IsCollected p w'.config.interface_name pools us desired c' in
      let existing = existing_by_key p w'.peer_store in
      let (existing_map, found) = existing_by_key_lem p w'.peer_store sound' in
      let planned =
        build_sync_diff-IsPlanned p psk existing desired existing_map h.is_map
          (targets_of-HaveIps p pools (normalize_users us) desired h)
          (existing_by_key-parsed p parses w'.peer_store sound') in
      let quiet =
        exact-quiet p w'.peer_store existing (targets_of desired)
          (build_sync_diff p psk existing desired) found planned there in
      ground (arith, c', quiet)
