-- ===== src/Wireguard/Backend/Examples.antt =====
-- The theorems of the backend at a kernel that knows the names of its links.
use node_agent.Wireguard.Config.{get_private_key}
use node_agent.Prelude.{
  String, ◌≡◌, ◌⊎◌, refl, true, false, some, List, [], ◌∷◌, ok, err, contains, ◌==◌, if◌then◌else◌,
  arith, Bool-cases,
}
use node_agent.Prelude.Int.{pos}
use node_agent.Wireguard.{PeerConfig}
use node_agent.Wireguard.Plan.Built.{targets_of}
use node_agent.Wireguard.Sync.{running, WireGuard}
use node_agent.Wireguard.Sync.Existing.{IsSound}
use node_agent.Wireguard.Sync.Full.{HasExactly}
use node_agent.Wireguard.Sync.Examples.{
  platform, users, desired, service, collected, desired-AreCanonical,
}
use node_agent.Wireguard.Manager.{
  link_not_found, Kernel, Manager, no_client, initialize_with_peers, close, apply_peers_replace_all,
}
use node_agent.Wireguard.Manager.Cleanup.{
  IsKernel, IsCleared, CannotBegin, initialize_with_peers-close,
}
use node_agent.Wireguard.Backend.{new_with_manager_factory}
use node_agent.Wireguard.Backend.Startup.{new_with_manager_factory-HasExactly}

abbrev without : String → List String → List String
without name [] = []
without name (x ∷ xs) = let rest = without name xs in if x == name then rest else x ∷ rest

contains-without : (name : String) (xs : List String) → contains (without name xs) name ≡ false
contains-without name [] = refl
contains-without name (x ∷ xs) = ground (arith, contains-without name xs)

abbrev kernel : Kernel String String String String (List String)
kernel = record {
  parse_addr = λ s. ok s;
  link_add = λ name h. (ok tt, name ∷ h);
  link_by_name = λ name h. if contains h name then ok name else err link_not_found;
  addr_add = λ link addr h. (ok tt, h);
  link_set_up = λ link h. (ok tt, h);
  link_del = λ link h. (ok tt, without link h);
  configure_device = λ name config h. (ok tt, h);
  close_client = λ h. (ok tt, h);
}

kernel-IsKernel : IsKernel kernel
kernel-IsKernel = record {
  deletes =
      λ name h link f d. ground (arith, f, Bool-cases (contains h name), contains-without name h);
  refuses = λ name h text f. absurd (ground (arith, f));
}

abbrev manager : Manager (List String)
manager = record { client = true; iface_name = "wg0"; host = "eth0" ∷ "wg0" ∷ [] }

initialize_with_peers-close_example :
    let (reply, m') =
      initialize_with_peers kernel "p" (pos 51820) ("10.0.0.1/24" ∷ []) [] manager in
    let (errors, closed) = close kernel manager in
    ((reply ≡ ok tt)
      ⊎ ((m' ≡ manager) × CannotBegin kernel ("10.0.0.1/24" ∷ []) manager)
      ⊎ IsCleared kernel "wg0" m'.host)
    × IsCleared kernel "wg0" closed.host
    × (errors ≡ [] → kernel.link_by_name "wg0" closed.host ≡ err link_not_found)
    × ((initialize_with_peers kernel "p" (pos 51820) ("10.0.0.1/24" ∷ []) [] closed).0
        ≡ err no_client)
    × ((text : String) × ((apply_peers_replace_all kernel [] closed).0 ≡ err text))
initialize_with_peers-close_example =
    initialize_with_peers-close kernel kernel-IsKernel "p" (pos 51820) ("10.0.0.1/24" ∷ []) []
      manager

sets_up :
    (configs : List (PeerConfig String String))
    → (initialize_with_peers kernel "p" (pos 51820) ("10.0.0.1/24" ∷ []) configs manager).0 ≡ ok tt
unfolding initialize_with_peers
sets_up configs = refl

new_with_manager_factory-HasExactly_example :
    (w : WireGuard String String (Manager (List String))) × ((new_with_manager_factory platform
        kernel
        (λ name. ok manager)
        (some service.config)
        users).0
      ≡ ok w)
    × (w.state ≡ running)
    × HasExactly platform (targets_of desired) w.peer_store
    × IsSound platform.key_string w.peer_store
unfolding get_private_key
new_with_manager_factory-HasExactly_example =
    new_with_manager_factory-HasExactly platform kernel (λ name. ok manager) service.config users
      "p" desired manager refl collected desired-AreCanonical refl sets_up
