-- ===== src/Wireguard/Plan.antt =====
-- backend/wireguard/user_common.go, lines 15 to 188 and 282 to 303: what has to change for the
-- interface to have the desired peers. The entries of a map have different keys, so a loop over one
-- map that fills another adds its entries in front.
pub mod Diff
pub mod Built
pub mod Targets
use node_agent.Prelude.{
  ℕ, suc, String, Bool, true, false, Option, none, some, List, [], ◌∷◌, ◌++◌, ◌==◌, ◌&&◌, ◌||◌, not,
  eqb, if◌then◌else◌, contains, sort_by,
}
use node_agent.Prelude.Dict.{Dict, lookup, has_key, map_values}
use node_agent.Wireguard.{PeerInfo, Platform, PeerConfig}
use node_agent.Wireguard.Users.{DesiredPeer}

pub record SyncDiff (Key Net : Type 0) : Type 0 where
  pub remove_keys : List String
  pub upsert_peers : List (PeerInfo Key Net)
  pub peer_configs : List (PeerConfig Key Net)
  pub target_peers : Dict (PeerInfo Key Net)
  pub changed : Bool

-- removeSet, upsertByKey and peerConfigs of buildSyncDiff.
pub record Draft (Key Net : Type 0) : Type 0 where
  pub removes : Dict (PeerInfo Key Net)
  pub upserts : Dict (PeerInfo Key Net)
  pub configs : List (PeerConfig Key Net)

abbrev is_empty : {A : Type 0} → List A → Bool
is_empty [] = true
is_empty (a ∷ as') = false

abbrev pub count_of : {A : Type 0} → List A → ℕ
count_of [] = 0
count_of (a ∷ as') = suc (count_of as')

module _ {Key Net : Type 0} where
  unfoldable pub build_add_config : Key → List Net → Option Key → PeerConfig Key Net
  build_add_config key nets psk = record {
    public_key = key;
    remove = false;
    preshared_key = psk;
    keepalive = some 0;
    replace_allowed_ips = false;
    allowed_ips = nets;
  }

  unfoldable pub build_remove_config : Key → PeerConfig Key Net
  build_remove_config key = record {
    public_key = key;
    remove = true;
    preshared_key = none;
    keepalive = none;
    replace_allowed_ips = false;
    allowed_ips = [];
  }

  -- `none` is the error that the peer has no address.
  unfoldable pub build_add_config_from_peer_info :
      PeerInfo Key Net → Option Key → Option (PeerConfig Key Net)
  unfolding build_add_config
  build_add_config_from_peer_info peer psk = elim peer.allowed_ips [
    | [] ↦ none
    | net ∷ nets ↦ some (build_add_config peer.public_key (net ∷ nets) psk)
  ]

  -- The peers of a map in the order of their keys.
  unfoldable pub in_key_order : Dict (PeerInfo Key Net) → Dict (PeerInfo Key Net)
  in_key_order m = sort_by (λ entry. entry.0) m

  abbrev pub peers_of : Dict (PeerInfo Key Net) → List (PeerInfo Key Net)
  peers_of [] = []
  peers_of ((key, peer) ∷ m) = peer ∷ peers_of m

  abbrev pub keys_of : Dict (PeerInfo Key Net) → List String
  keys_of [] = []
  keys_of ((key, peer) ∷ m) = key ∷ keys_of m

  abbrev pub target_of : DesiredPeer Key Net → PeerInfo Key Net
  target_of d = record {
    email = d.email;
    public_key = d.parsed_key;
    allowed_ips = d.allowed_ip_nets;
  }

  -- The loop of buildTargetPeerConfigs over the sorted entries: the configs, and the applied keys.
  unfoldable pub target_configs :
      Option Key → Dict (PeerInfo Key Net) → List (PeerConfig Key Net) × List String
  unfolding build_add_config_from_peer_info
  target_configs psk [] = ([], [])
  target_configs psk ((key, peer) ∷ m) =
      let (configs, applied) = target_configs psk m in
      elim (build_add_config_from_peer_info peer psk) [
        | none ↦ (configs, applied)
        | some config ↦ (config ∷ configs, key ∷ applied)
      ]

  unfoldable pub build_target_peer_configs :
      Dict (PeerInfo Key Net) → Option Key → List (PeerConfig Key Net) × List String
  unfolding target_configs in_key_order
  build_target_peer_configs targets psk = target_configs psk (in_key_order targets)

  module _ (p : Platform Key Net) where
    -- As many networks, with the same texts one by one.
    unfoldable pub same_ips : List Net → List Net → Bool
    same_ips [] [] = true
    same_ips [] (b ∷ bs) = false
    same_ips (a ∷ as') [] = false
    same_ips (a ∷ as') (b ∷ bs) = (p.net_string a == p.net_string b) && same_ips as' bs

    -- One peer that exists and is wanted.
    unfoldable pub diff_kept :
        Option Key → String → PeerInfo Key Net → PeerInfo Key Net → Draft Key Net → Draft Key Net
    unfolding same_ips build_add_config_from_peer_info
    diff_kept psk key existing target rest =
        let equal = same_ips existing.allowed_ips target.allowed_ips in
        let upserted = record rest { upserts = (key, target) ∷ rest.upserts } in
        let changed : Draft Key Net = elim (build_add_config_from_peer_info target psk) [
          | none ↦ rest
          | some config ↦ record upserted {
            configs = record config { replace_allowed_ips = true } ∷ rest.configs;
          }
        ] in
        if not (existing.email == target.email) || not equal
        then if not equal then changed else upserted
        else rest

    unfoldable pub diff_existing :
        Option Key
        → Dict (PeerInfo Key Net)
        → Dict (PeerInfo Key Net)
        → Draft Key Net
        → Draft Key Net
    unfolding diff_kept
    diff_existing psk [] targets rest = rest
    diff_existing psk ((key, existing) ∷ more) targets rest =
        let later = diff_existing psk more targets rest in
        elim (lookup key targets) [
          | none ↦ record later { removes = (key, existing) ∷ later.removes }
          | some target ↦ diff_kept psk key existing target later
        ]

    unfoldable pub diff_new :
        Option Key → Dict (PeerInfo Key Net) → Dict (PeerInfo Key Net) → Draft Key Net
    unfolding build_add_config_from_peer_info
    diff_new psk [] existing = record { removes = []; upserts = []; configs = [] }
    diff_new psk ((key, target) ∷ more) existing =
        let later = diff_new psk more existing in
        let added : Draft Key Net = elim (build_add_config_from_peer_info target psk) [
          | none ↦ later
          | some config ↦ record later {
            upserts = (key, target) ∷ later.upserts;
            configs = config ∷ later.configs;
          }
        ] in
        if has_key key existing then later else added

    -- The loop of buildRemoveConfigsForPeers over the sorted keys; a key that cannot be parsed stays.
    unfoldable pub remove_configs : List String → List String × List (PeerConfig Key Net)
    unfolding build_remove_config
    remove_configs [] = ([], [])
    remove_configs (key ∷ keys) =
        let (valid, configs) = remove_configs keys in
        elim (p.parse_key key) [
          | none ↦ (valid, configs)
          | some parsed ↦ (key ∷ valid, build_remove_config parsed ∷ configs)
        ]

    unfoldable pub build_remove_configs_for_peers :
        Dict (PeerInfo Key Net) → List String × List (PeerConfig Key Net)
    unfolding remove_configs in_key_order
    build_remove_configs_for_peers removes = remove_configs (keys_of (in_key_order removes))

    -- The error that the function may return is always nil.
    unfoldable pub build_sync_diff :
        Option Key → Dict (PeerInfo Key Net) → Dict (DesiredPeer Key Net) → SyncDiff Key Net
    unfolding diff_existing diff_new build_remove_configs_for_peers in_key_order
    build_sync_diff psk existing desired =
        let targets = map_values target_of desired in
        let draft = diff_existing psk existing targets (diff_new psk targets existing) in
        let (removed, configs) = build_remove_configs_for_peers draft.removes in
        let upserts = peers_of (in_key_order draft.upserts) in
        record {
          remove_keys = removed;
          upsert_peers = upserts;
          peer_configs = draft.configs ++ configs;
          target_peers = targets;
          changed = not (is_empty removed) || not (is_empty upserts);
        }

    -- The peers of the list whose key was applied.
    unfoldable pub filter_loop : List (PeerInfo Key Net) → List String → List (PeerInfo Key Net)
    filter_loop [] applied = []
    filter_loop (peer ∷ peers) applied =
        let rest = filter_loop peers applied in
        if contains applied (p.key_string peer.public_key) then peer ∷ rest else rest

    unfoldable pub filter_upserts_by_applied_keys :
        List (PeerInfo Key Net) → List String → List (PeerInfo Key Net)
    unfolding filter_loop
    filter_upserts_by_applied_keys upserts applied =
        if eqb (count_of applied) (count_of upserts) then upserts else filter_loop upserts applied
