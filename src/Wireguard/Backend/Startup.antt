-- ===== src/Wireguard/Backend/Startup.antt =====
-- The peers that the backend starts with.
use node_agent.Prelude.{
  String, ◌≡◌, ◌≢◌, inl, inr, refl, sym, ◌∙◌, subst, true, Option, some, List, [], ◌∷◌, arith,
  Bool-cases, Result-cases, Result, ok, err, contains, map, In, eqb,
}
use node_agent.Prelude.Dict.{Dict, lookup, has_key, IsMap, map_values-IsMap}
use node_agent.Common.{User}
use node_agent.Wireguard.{PeerInfo, Platform, PeerConfig, SyncError}
use node_agent.Wireguard.Config.{Settings, get_private_key, get_pre_shared_key, interface_networks}
use node_agent.Wireguard.PeerStore.{new_peer_store, init, replace_all}
use node_agent.Wireguard.Users.{DesiredPeer, normalize_users, collect_desired_peers}
use node_agent.Wireguard.Users.Collected.{IsCollected, collect_desired_peers-IsCollected}
use node_agent.Wireguard.Plan.{
  build_sync_diff, target_of, peers_of, build_target_peer_configs, filter_loop,
  filter_upserts_by_applied_keys, count_of,
}
use node_agent.Wireguard.Plan.Built.{targets_of, build_sync_diff-IsPlanned, In-peers_of}
use node_agent.Wireguard.Plan.Targets.{
  AreCanonical, AreTargets, targets_of-AreTargets, targets_of-HaveIps,
}
use node_agent.Wireguard.Sync.{running, WireGuard, existing_by_key, index_by_key}
use node_agent.Wireguard.Sync.Existing.{IsSound}
use node_agent.Wireguard.Sync.Full.{
  HasExactly, build_target_peer_configs-applied, replace_all-HasExactly,
}
use node_agent.Wireguard.Manager.{Kernel, Manager, initialize_with_peers}
use node_agent.Wireguard.Backend.{startup_plan, new_with_manager_factory}

module _ {Key Net : Type 0} (p : Platform Key Net) where
  filter_loop-all :
      (peers : List (PeerInfo Key Net)) (applied : List String)
      → ((q : PeerInfo Key Net) → In q peers → contains applied (p.key_string q.public_key) ≡ true)
      → filter_loop p peers applied ≡ peers
  unfolding filter_loop
  filter_loop-all [] applied h = refl
  filter_loop-all (q ∷ peers) applied h =
      ground (arith, h q (inl refl), filter_loop-all peers applied (λ x i. h x (inr i)))

  filter_upserts_by_applied_keys-all :
      (peers : List (PeerInfo Key Net)) (applied : List String)
      → ((q : PeerInfo Key Net) → In q peers → contains applied (p.key_string q.public_key) ≡ true)
      → filter_upserts_by_applied_keys p peers applied ≡ peers
  unfolding filter_upserts_by_applied_keys
  filter_upserts_by_applied_keys-all peers applied h =
      ground (
        arith,
        filter_loop-all peers applied h,
        Bool-cases (eqb (count_of applied) (count_of peers)),
      )

  -- The peers that go into the store are the wanted ones, under their keys.
  record IsStart (desired : Dict (DesiredPeer Key Net)) (peers : List (PeerInfo Key Net))
      : Type 0 where
    wanted : Dict (PeerInfo Key Net)
    listed : peers ≡ peers_of wanted
    distinct : IsMap wanted
    same : (k : String) → lookup k wanted ≡ lookup k (targets_of desired)

  startup_plan-IsStart :
      (c : Settings) (us : List (Option User)) (configs : List (PeerConfig Key Net))
      (peers : List (PeerInfo Key Net)) (desired : Dict (DesiredPeer Key Net))
      → collect_desired_peers p c.interface_name (interface_networks p c) (normalize_users us)
        ≡ ok desired
      → AreCanonical p.key_string desired
      → startup_plan p c us ≡ ok (configs, peers)
      → IsStart desired peers
  unfolding startup_plan index_by_key has_key lookup
  startup_plan-IsStart c us configs peers desired e canonical f =
      let psk = get_pre_shared_key p c in
      let pools = interface_networks p c in
      let users = normalize_users us in
      let h = collect_desired_peers-IsCollected p c.interface_name pools us desired e in
      let are = targets_of-AreTargets p pools users desired h canonical in
      let ips = targets_of-HaveIps p pools users desired h in
      let diff = build_sync_diff p psk (existing_by_key p new_peer_store) desired in
      let planned =
        build_sync_diff-IsPlanned p psk (existing_by_key p new_peer_store) desired tt h.is_map ips
          (λ k i. absurd (ground (arith, i))) in
      let applied = (build_target_peer_configs diff.target_peers psk).1 in
      let all_applied : (k : String) → contains applied k ≡ has_key k (targets_of desired) =
        subst
          (λ m.
            (k : String)
            → contains (build_target_peer_configs m psk).1 k ≡ has_key k (targets_of desired))
          (sym planned.wanted)
          (build_target_peer_configs-applied p psk (targets_of desired)
            (map_values-IsMap target_of desired h.is_map) ips) in
      let kept = filter_upserts_by_applied_keys-all diff.upsert_peers applied (λ q i.
        let (j, g) =
          In-peers_of planned.upserts q planned.distinct (subst (In q) planned.listed i) in
        let mine : lookup j (targets_of desired) ≡ some q = ground (arith, g, planned.upserted j) in
        subst (λ x. contains applied x ≡ true) (sym (are.own_key j q mine))
          (all_applied j ∙ ground (arith, mine))) in
      let result : filter_upserts_by_applied_keys p diff.upsert_peers applied ≡ peers =
        ground (arith, f, e) in
      record {
        wanted = planned.upserts;
        listed = sym result ∙ kept ∙ planned.listed;
        distinct = planned.distinct;
        same = planned.upserted;
      }

  startup_plan-ok :
      (c : Settings) (us : List (Option User)) (desired : Dict (DesiredPeer Key Net))
      → collect_desired_peers p c.interface_name (interface_networks p c) (normalize_users us)
        ≡ ok desired
      → (x : SyncError) → startup_plan p c us ≢ err x
  unfolding startup_plan
  startup_plan-ok c us desired e x f = ground (arith, e, f)

  IsStart-HasExactly :
      (pools : List Net) (us : List User) (desired : Dict (DesiredPeer Key Net))
      (peers : List (PeerInfo Key Net))
      → IsCollected p pools us desired
      → AreCanonical p.key_string desired
      → IsStart desired peers
      → let ps = init p.key_string (map some peers) new_peer_store in
        HasExactly p (targets_of desired) ps × IsSound p.key_string ps
  unfolding replace_all
  IsStart-HasExactly pools us desired peers h canonical start =
      let are = targets_of-AreTargets p pools us desired h canonical in
      let mine : AreTargets p.key_string us start.wanted = record {
        own_key = λ k t e. are.own_key k t (sym (start.same k) ∙ e);
        once = λ k k' t t' e e' m.
            are.once k k' t t' (sym (start.same k) ∙ e) (sym (start.same k') ∙ e') m;
        given = λ k t e. are.given k t (sym (start.same k) ∙ e);
      } in
      let (exact, sound) =
        replace_all-HasExactly p us start.wanted start.distinct mine new_peer_store in
      subst
        (λ x.
          let ps = init p.key_string (map some x) new_peer_store in
          HasExactly p (targets_of desired) ps × IsSound p.key_string ps)
        (sym start.listed)
        (
          record {
            shown = λ k t e. exact.shown k t (start.same k ∙ e);
            no_other = λ k e. exact.no_other k (start.same k ∙ e);
          },
          sound,
        )

module _ {Key Net Addr Link H : Type 0} (p : Platform Key Net)
    (k : Kernel Key Net Addr Link H) where
  -- New starts a backend where its settings have a private key, the peers of the users are found, and
  -- the manager can be created and sets the interface up: the backend is running, and its store has
  -- these peers and no other, each under its key with its email and networks, one to one. Condition:
  -- the texts of the keys wanted are those that the keys print.
  pub new_with_manager_factory-HasExactly :
      (factory : String → Result String (Manager H)) (c : Settings) (us : List (Option User))
      (key : Key) (desired : Dict (DesiredPeer Key Net)) (manager : Manager H)
      → get_private_key p c ≡ some key
      → collect_desired_peers p c.interface_name (interface_networks p c) (normalize_users us)
        ≡ ok desired
      → AreCanonical p.key_string desired
      → factory c.interface_name ≡ ok manager
      → ((configs : List (PeerConfig Key Net))
          → (initialize_with_peers k key c.listen_port c.address configs manager).0 ≡ ok tt)
      → (w : WireGuard Key Net (Manager H)) × ((new_with_manager_factory p k factory (some c) us).0
          ≡ ok w)
        × (w.state ≡ running)
        × HasExactly p (targets_of desired) w.peer_store
        × IsSound p.key_string w.peer_store
  unfolding new_with_manager_factory
  new_with_manager_factory-HasExactly factory c us key desired manager e f canonical g works =
      elim (Result-cases (startup_plan p c us)) [
        | inr (x, h) ↦ absurd (startup_plan-ok p c us desired f x h)
        | inl (plan, h) ↦
            let (configs, peers) = plan in
            let (exact, sound) =
              IsStart-HasExactly p (interface_networks p c) (normalize_users us) desired peers
                (collect_desired_peers-IsCollected p c.interface_name (interface_networks p c) us
                  desired f)
                canonical (startup_plan-IsStart p c us configs peers desired f canonical h) in
            (
              record {
                config = c;
                manager =
                    some ((initialize_with_peers k key c.listen_port c.address configs manager).1);
                stats_tracker = [];
                peer_store = init p.key_string (map some peers) new_peer_store;
                state = running;
              },
              ground (arith, e, h, g, works configs),
              refl,
              exact,
              sound,
            )
      ]
