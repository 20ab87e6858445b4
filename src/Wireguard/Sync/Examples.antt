-- ===== src/Wireguard/Sync/Examples.antt =====
-- The theorems of a synchronisation at a concrete service. A key and a network stand for their own
-- text; the device takes every change.
use node_agent.Prelude.Sorting.{sort_by}
use node_agent.Prelude.Text.{trim_space}
use node_agent.Prelude.{
  String, ◌≡◌, ◌≢◌, refl, sym, subst, true, some, none, List, [], ◌∷◌, ◌++◌, Option, arith, ok, In,
}
use node_agent.Prelude.Int.{pos}
use node_agent.Prelude.Dict.{IsMap, has_key, map_values, insert, Dict, lookup}
use node_agent.Common.{User, emails}
use node_agent.Wireguard.{PeerInfo, Platform, PeerConfig}
use node_agent.Wireguard.Config.{networks, interface_networks}
use node_agent.Wireguard.PeerStore.{get_by_email, PeerStore, new_peer_store, upsert, get_email_map}
use node_agent.Wireguard.PeerStore.OneToOne.{new_peer_store-IsOneToOne, upsert-IsOneToOne}
use node_agent.Wireguard.Users.{collect_loop, DesiredPeer, normalize_users, collect_desired_peers}
use node_agent.Wireguard.Users.Desired.{collect_desired_peers-IsChecked}
use node_agent.Wireguard.Users.Given.{IsGiven, IsInside, collect_desired_peers-IsGiven}
use node_agent.Wireguard.Users.Collected.{collect_desired_peers-IsCollected}
use node_agent.Wireguard.Plan.Diff.{HaveIps}
use node_agent.Wireguard.Plan.{build_sync_diff}
use node_agent.Wireguard.Plan.Built.{targets_of, IsPlanned, build_sync_diff-IsPlanned}
use node_agent.Wireguard.Plan.Targets.{AreCanonical, targets_of-HaveIps}
use node_agent.Wireguard.Sync.{
  index_by_key, Device, WireGuard, running, sync_users_full, sync_users_partial,
}
use node_agent.Wireguard.Sync.Existing.{IsSound}
use node_agent.Wireguard.Sync.Partial.{IsReconciled}
use node_agent.Wireguard.Sync.Partial.Reconciled.{found_peers, sync_users_partial-IsReconciled}
use node_agent.Wireguard.Sync.Full.{HasExactly}
use node_agent.Wireguard.Sync.Full.Exact.{sync_users_full-HasExactly}
use node_agent.Wireguard.Sync.Full.Again.{sync_users_full-again}
use node_agent.Wireguard.Sync.Failure.{
  IsSafe, IsCollectable, IsApplicable, sync_users-IsSafe, sync_users-Succeeds,
}

abbrev pub platform : Platform String String
platform = record {
  key_string = λ k. k;
  parse_key = λ s. some s;
  parse_cidr = λ s. some s;
  net_string = λ n. n;
  ip_length = λ n. 4;
  covers = λ pool n. true;
  prefix_length = λ n. 32;
}

abbrev device : Device String String (List (PeerConfig String String))
device = record {
  apply_peers = λ configs d. (ok tt, d ++ configs);
  apply_peers_replace_all = λ configs d. (ok tt, configs);
}

abbrev peer : String → String → String → PeerInfo String String
peer email key ip = record { email = email; public_key = key; allowed_ips = ip ∷ [] }

abbrev user : String → String → String → Option User
user email key ip = some (record {
  email = email;
  proxies = some (record {
    vmess = none;
    vless = none;
    trojan = none;
    shadowsocks = none;
    wireguard = some (record { public_key = key; peer_ips = ip ∷ [] });
    hysteria = none;
  });
  inbounds = "wg0" ∷ [];
})

-- Ann and Carl are there.
abbrev two_peers : PeerStore String String
two_peers = record {
  peers = ("k1", peer "ann" "k1" "10.0.0.2/32") ∷ ("k3", peer "carl" "k3" "10.0.0.4/32") ∷ [];
  email_to_key = ("ann", "k1") ∷ ("carl", "k3") ∷ [];
}

two_peers-IsSound : IsSound platform.key_string two_peers
unfolding upsert insert lookup
two_peers-IsSound = record {
  one = upsert-IsOneToOne platform.key_string (peer "carl" "k3" "10.0.0.4/32") _ (
      upsert-IsOneToOne platform.key_string (peer "ann" "k1" "10.0.0.2/32") new_peer_store
        (new_peer_store-IsOneToOne platform.key_string));
  is_map = (refl, (refl, tt));
}

abbrev pub service : WireGuard String String (List (PeerConfig String String))
service = record {
  config = record {
    interface_name = "wg0";
    private_key = "p";
    pre_shared_key = "";
    listen_port = pos 51820;
    address = "10.0.0.1/24" ∷ [];
    latency = none;
  };
  manager = some [];
  stats_tracker = [];
  peer_store = two_peers;
  state = running;
}

-- Ann gets a new key, and Bob takes over the old one.
abbrev pub users : List (Option User)
users = user "ann" "k2" "10.0.0.2/32" ∷ none ∷ user "bob" "k1" "10.0.0.3/32" ∷ []

abbrev desired_peer : String → String → String → DesiredPeer String String
desired_peer email key ip = record {
  email = email;
  public_key = key;
  parsed_key = key;
  allowed_ip_nets = ip ∷ [];
}

abbrev pub desired : Dict (DesiredPeer String String)
desired =
    ("k2", desired_peer "ann" "k2" "10.0.0.2/32")
    ∷ ("k1", desired_peer "bob" "k1" "10.0.0.3/32")
    ∷ []

abbrev pools : List String
pools = "10.0.0.1/24" ∷ []

pub collected :
    collect_desired_peers platform "wg0"
      (interface_networks platform service.config)
      (normalize_users users)
    ≡ ok desired
unfolding collect_loop normalize_users insert networks trim_space lookup
collected = refl

collected_in_pools : collect_desired_peers platform "wg0" pools (normalize_users users) ≡ ok desired
unfolding collect_loop normalize_users insert lookup
collected_in_pools = refl

pub desired-AreCanonical : AreCanonical platform.key_string desired
desired-AreCanonical k d e =
    let parsed =
      ((collect_desired_peers-IsChecked platform pools "wg0" (normalize_users users) desired
          collected_in_pools).0
        k d e).parsed in
    ground (arith, parsed)

abbrev partly_synced : WireGuard String String (List (PeerConfig String String))
partly_synced = (sync_users_partial platform device users service).1

abbrev synced : WireGuard String String (List (PeerConfig String String))
synced = (sync_users_full platform device users service).1

partly : sync_users_partial platform device users service ≡ (ok tt, partly_synced)
unfolding sync_users_partial collect_loop normalize_users insert networks trim_space lookup
    get_email_map map_values build_sync_diff get_by_email
partly = refl

wholly : sync_users_full platform device users service ≡ (ok tt, synced)
unfolding sync_users_full collect_loop normalize_users insert networks trim_space lookup
    build_sync_diff sort_by index_by_key map_values has_key
wholly = refl

parses : (k : String) → platform.parse_key (platform.key_string k) ≡ some k
parses k = refl

collect_desired_peers-IsGiven_example :
    ((k : String) (d : DesiredPeer String String)
      → lookup k desired ≡ some d
      → IsGiven platform "wg0" (normalize_users users) k d
        × (platform.parse_key k ≡ some d.parsed_key)
        × (d.allowed_ip_nets ≢ [])
        × ((net : String) → In net d.allowed_ip_nets → IsInside platform pools net))
    × ((k k' : String) (d d' : DesiredPeer String String) (net net' : String)
        → lookup k desired ≡ some d
        → lookup k' desired ≡ some d'
        → In net d.allowed_ip_nets
        → In net' d'.allowed_ip_nets
        → net ≡ net'
        → d.email ≡ d'.email)
collect_desired_peers-IsGiven_example =
    collect_desired_peers-IsGiven platform "wg0" pools (normalize_users users) desired
      collected_in_pools

stored-IsMap : IsMap two_peers.peers
stored-IsMap = two_peers-IsSound.is_map

desired-IsMap : IsMap desired
unfolding lookup
desired-IsMap = (refl, (refl, tt))

desired-HaveIps : HaveIps platform (targets_of desired)
desired-HaveIps =
    targets_of-HaveIps platform pools (normalize_users users) desired
      (collect_desired_peers-IsCollected platform "wg0" pools users desired collected_in_pools)

build_sync_diff-IsPlanned_example :
    IsPlanned platform two_peers.peers
      (targets_of desired)
      (build_sync_diff platform none two_peers.peers desired)
build_sync_diff-IsPlanned_example =
    build_sync_diff-IsPlanned platform none two_peers.peers desired stored-IsMap desired-IsMap
      desired-HaveIps (λ k i. (k, refl))

found-AreCanonical :
    (found : Dict (DesiredPeer String String))
    → found_peers platform device users service ≡ ok found
    → AreCanonical platform.key_string found
found-AreCanonical found e =
    let same : found ≡ desired = cc (e, collected) in
    subst (AreCanonical platform.key_string) (sym same) desired-AreCanonical

sync_users_partial-IsReconciled_example :
    (found : Dict (DesiredPeer String String)) × (found_peers platform device users service
      ≡ ok found)
    × IsReconciled platform
        (emails (normalize_users users))
        (targets_of found)
        two_peers
        partly_synced.peer_store
    × IsSound platform.key_string partly_synced.peer_store
sync_users_partial-IsReconciled_example =
    sync_users_partial-IsReconciled platform device parses users service partly_synced
      found-AreCanonical two_peers-IsSound partly

sync_users_full-HasExactly_example :
    (found : Dict (DesiredPeer String String)) × (found_peers platform device users service
      ≡ ok found)
    × HasExactly platform (targets_of found) synced.peer_store
    × IsSound platform.key_string synced.peer_store
sync_users_full-HasExactly_example =
    sync_users_full-HasExactly platform device parses users service synced found-AreCanonical
      two_peers-IsSound wholly

sync_users_full-again_example : sync_users_full platform device users synced ≡ (ok tt, synced)
sync_users_full-again_example =
    sync_users_full-again platform device parses users service synced desired collected
      desired-AreCanonical two_peers-IsSound wholly

sync_users-IsSafe_example :
    IsSafe service (sync_users_full platform device users service)
    × IsSafe service (sync_users_partial platform device users service)
sync_users-IsSafe_example = sync_users-IsSafe platform device users service

sync_users-Succeeds_example :
    ((sync_users_full platform device users service).0 ≡ ok tt
      → IsCollectable platform device users service)
    × (IsCollectable platform device users service
        → (sync_users_full platform device users service).0 ≡ ok tt)
    × ((sync_users_partial platform device users service).0 ≡ ok tt
        → IsApplicable platform device users service)
    × (IsApplicable platform device users service
        → (sync_users_partial platform device users service).0 ≡ ok tt)
sync_users-Succeeds_example =
    sync_users-Succeeds platform device users service [] refl refl (λ configs. (refl, refl))
