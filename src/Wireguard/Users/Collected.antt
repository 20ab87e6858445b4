-- ===== src/Wireguard/Users/Collected.antt =====
-- What a synchronisation relies on of the peers that collectDesiredPeers finds for normalised users.
use node_agent.Prelude.{String, ◌≡◌, inl, inr, subst, some, List, [], Option, ok}
use node_agent.Prelude.Dict.{Dict, lookup, IsMap, insert-IsMap}
use node_agent.Common.{User}
use node_agent.Wireguard.{Platform}
use node_agent.Wireguard.Users.Loop.{peer_of, settle-cases, collect_loop_inv}
use node_agent.Wireguard.Users.Desired.{IsChecked, collect_desired_peers-IsChecked}
use node_agent.Wireguard.Users.Once.{
  AreOfUsers, normalize_users-AreOnce, collect_desired_peers-AreOfUsers,
}
use node_agent.Wireguard.Users.{
  DesiredPeer, public_key_of, normalize_users, settle, Scan, collect_desired_peers,
}

module _ {Key Net : Type 0} (p : Platform Key Net) where
  pub record IsCollected (pools : List Net) (us : List User) (desired : Dict (DesiredPeer Key Net))
      : Type 0 where
    pub is_map : IsMap desired
    pub checked :
        (k : String) (d : DesiredPeer Key Net) → lookup k desired ≡ some d → IsChecked p pools k d
    pub of_users : AreOfUsers us desired

  settle-IsMap :
      (u : User) (key : Key) (s : Scan Net) (desired result : Dict (DesiredPeer Key Net))
      → settle p u key s desired ≡ ok result
      → IsMap desired
      → IsMap result
  settle-IsMap u key s desired result e h = elim (settle-cases p u key s desired result e) [
    | inl same ↦ subst IsMap same h
    | inr (some_net, added) ↦
        subst IsMap added (insert-IsMap (public_key_of u) (peer_of u key s.nets) desired h)
  ]

  pub collect_desired_peers-IsCollected :
      (name : String) (pools : List Net) (us : List (Option User))
      (desired : Dict (DesiredPeer Key Net))
      → collect_desired_peers p name pools (normalize_users us) ≡ ok desired
      → IsCollected pools (normalize_users us) desired
  collect_desired_peers-IsCollected name pools us desired e =
      let users = normalize_users us in
      record {
        is_map =
            (collect_loop_inv p name pools (λ rest seen found. IsMap found)
              (λ u rest seen found h. h)
              (λ u rest key seen s found found' may parsed f g h.
                settle-IsMap u key s found found' g h)
              users [] [] desired e tt).1;
        checked = (collect_desired_peers-IsChecked p pools name users desired e).0;
        of_users =
            collect_desired_peers-AreOfUsers p name pools users desired e
              (normalize_users-AreOnce us);
      }
