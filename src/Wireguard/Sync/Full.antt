-- ===== src/Wireguard/Sync/Full.antt =====
-- What syncUsersFull leaves in the peer store.
pub mod Exact
pub mod Again
use node_agent.Prelude.{
  String, ◌≡◌, ◌⊎◌, inl, inr, refl, sym, ap, ◌∙◌, subst, Bool, true, false, Option, none, some,
  List, [], ◌∷◌, arith, ◌==◌, eq_iff, eq_refl, Option-cases, Bool-cases, List-cases, Result-cases,
  Result, ok, err, contains, if◌then◌else◌, map, not, ◌&&◌, ◌||◌, ◌≢◌, In,
}
use node_agent.Prelude.Dict.{Dict, lookup, has_key, IsMap, map_values-IsMap}
use node_agent.Prelude.KeyOrder.{in_order, in_order_lem}
use node_agent.Common.{User}
use node_agent.Wireguard.{PeerInfo, Platform, SyncError}
use node_agent.Wireguard.Config.{get_pre_shared_key, interface_networks}
use node_agent.Wireguard.PeerStore.{PeerStore, get_by_key, replace_all}
use node_agent.Wireguard.PeerStore.Contents.{AreDistinct, replace_all-contents}
use node_agent.Wireguard.PeerStore.Origins.{replace_all-origin}
use node_agent.Wireguard.Users.{DesiredPeer, normalize_users, collect_desired_peers}
use node_agent.Wireguard.Users.Collected.{IsCollected, collect_desired_peers-IsCollected}
use node_agent.Wireguard.Plan.{
  SyncDiff, build_sync_diff, target_of, peers_of, keys_of, in_key_order, target_configs,
  build_target_peer_configs, build_add_config_from_peer_info,
}
use node_agent.Wireguard.Plan.Diff.{
  HaveIps, is_unchanged, contains-keys_of, add_config-some, HaveIps-tail,
}
use node_agent.Wireguard.Plan.Built.{
  IsPlanned, targets_of, build_sync_diff-IsPlanned, In-peers_of, peers_of-In,
}
use node_agent.Wireguard.Plan.Targets.{
  AreCanonical, AreTargets, targets_of-AreTargets, targets_of-HaveIps, peers_of-AreDistinct,
}
use node_agent.Wireguard.Sync.{
  Device, WireGuard, Outcome, valid_targets, existing_by_key, ensure_running, with_store,
  apply_full, sync_users_full,
}
use node_agent.Wireguard.Sync.Existing.{IsSound, existing_by_key_lem, replace_all-IsMap}
use node_agent.Wireguard.Sync.Partial.{Shows, In-map-some, map-some-In, texts-same_ips}

module _ {Key Net : Type 0} where
  -- Where every peer's key was applied, every peer is valid.
  pub valid_targets-all :
      (m : Dict (PeerInfo Key Net)) (applied : List String)
      → IsMap m
      → ((k : String) → has_key k m ≡ true → contains applied k ≡ true)
      → valid_targets m applied ≡ map some (peers_of m)
  unfolding valid_targets has_key lookup
  valid_targets-all [] applied u h = refl
  valid_targets-all ((j, t) ∷ m) applied u h =
      let rest = valid_targets-all m applied u.1 (λ k i. h k (ground (arith, i))) in
      ground (arith, rest, h j (ground (arith, eq_refl j)))

  module _ (p : Platform Key Net) (psk : Option Key) where
    target_configs-applied :
        (m : Dict (PeerInfo Key Net)) → IsMap m → HaveIps p m → (target_configs psk m).1 ≡ keys_of m
    unfolding target_configs lookup
    target_configs-applied [] u h = refl
    target_configs-applied ((j, t) ∷ m) u h =
        let rest = target_configs-applied m u.1 (HaveIps-tail p j t m u.0 h) in
        ground (arith, rest, add_config-some p psk t (h j t (ground (arith, eq_refl j))))

    pub build_target_peer_configs-applied :
        (m : Dict (PeerInfo Key Net))
        → IsMap m
        → HaveIps p m
        → (k : String) → contains (build_target_peer_configs m psk).1 k ≡ has_key k m
    unfolding build_target_peer_configs in_key_order has_key
    build_target_peer_configs-applied m u h k =
        let (u', same) = in_order_lem m u in
        ap (λ keys. contains keys k)
          (target_configs-applied (in_order m) u' (λ j t e. h j t (sym (same j) ∙ e)))
        ∙ contains-keys_of (in_order m) k
        ∙ ground (arith, same k)

module _ {Key Net : Type 0} (p : Platform Key Net) where
  -- The store has the wanted peers, and no other.
  pub record HasExactly (targets : Dict (PeerInfo Key Net)) (ps : PeerStore Key Net) : Type 0 where
    pub shown :
        (k : String) (t : PeerInfo Key Net)
        → lookup k targets ≡ some t
        → Shows p (get_by_key k ps) t
    pub no_other : (k : String) → lookup k targets ≡ none → get_by_key k ps ≡ none

  module _ (us : List User) (targets : Dict (PeerInfo Key Net)) (u : IsMap targets)
      (are : AreTargets p.key_string us targets) where
    pub replace_all-HasExactly :
        (ps : PeerStore Key Net)
        → let new = (replace_all p.key_string (map some (peers_of targets)) ps).1 in
          HasExactly targets new × IsSound p.key_string new
    unfolding get_by_key
    replace_all-HasExactly ps =
        let peers = map some (peers_of targets) in
        let new = (replace_all p.key_string peers ps).1 in
        let distinct = peers_of-AreDistinct p.key_string us targets targets u (λ k t e. e) are in
        let contents = replace_all-contents p.key_string peers ps distinct in
        (
          record {
            shown = λ k t e. record {
              peer = t;
              stored =
                  ap (λ j. lookup j new.peers) (sym (are.own_key k t e))
                  ∙ (contents.2 t (In-map-some t (peers_of targets) (peers_of-In targets k t e))).0;
              same_key = refl;
              same_email = refl;
              same_networks = refl;
            };
            no_other = λ k e. elim (Option-cases (lookup k new.peers)) [
              | inl f ↦ f
              | inr (q, f) ↦
                  let (i, own) = replace_all-origin p.key_string peers ps k q distinct f in
                  let (j, g) = In-peers_of targets q u (map-some-In q (peers_of targets) i) in
                  absurd (ground (arith, e, g, sym (are.own_key j q g) ∙ own))
            ];
          },
          record { one = contents.1; is_map = replace_all-IsMap p.key_string peers ps },
        )

    -- Where nothing changes, the store had the wanted peers.
    pub quiet-HasExactly :
        (ps : PeerStore Key Net) (existing : Dict (PeerInfo Key Net)) (diff : SyncDiff Key Net)
        → IsSound p.key_string ps
        → ((k : String) → lookup k existing ≡ lookup k ps.peers)
        → IsPlanned p existing targets diff
        → diff.changed ≡ false
        → HasExactly targets ps
    unfolding get_by_key has_key
    quiet-HasExactly ps existing diff sound found planned e =
        let (no_removes, no_upserts) = planned.quiet e in
        let no_new : (k : String) → lookup k planned.upserts ≡ none = λ k.
          elim (Option-cases (lookup k planned.upserts)) [
            | inl f ↦ f
            | inr (t, f) ↦
                absurd (
                  subst (In t) (sym planned.listed ∙ no_upserts)
                    (peers_of-In planned.upserts k t f))
          ] in
        record {
          shown = λ k t f. elim (Option-cases (lookup k ps.peers)) [
            | inl g ↦ absurd (ground (arith, planned.upserted k, no_new k, found k, f, g))
            | inr (q, g) ↦
                let same : is_unchanged p q t ≡ true = ground (
                  arith,
                  planned.upserted k,
                  no_new k,
                  found k,
                  f,
                  g,
                  Bool-cases (is_unchanged p q t),
                ) in
                record {
                  peer = q;
                  stored = g;
                  same_key = (sound.one.at_key k q g).0 ∙ sym (are.own_key k t f);
                  same_email = ground (arith, same, eq_iff q.email t.email);
                  same_networks =
                      texts-same_ips p q.allowed_ips t.allowed_ips (ground (arith, same));
                }
          ];
          no_other = λ k f. elim (Option-cases (lookup k ps.peers)) [
            | inl g ↦ g
            | inr (q, g) ↦ absurd (ground (arith, planned.removed k, no_removes, found k, f, g))
          ];
        }
