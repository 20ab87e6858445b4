-- ===== src/Wireguard/Sync/Partial/Reconciled.antt =====
-- The whole of syncUsersPartialReconcile: which users' peers it touches, and how.
use node_agent.Prelude.{
  String, ◌≡◌, ◌⊎◌, inl, inr, sym, ap, ◌∙◌, subst, true, Option, some, List, [], ◌∷◌, arith, ◌==◌,
  eq_iff, Option-cases, Bool-cases, List-cases, Result-cases, Result, ok, contains, map,
}
use node_agent.Prelude.Dict.{Dict, lookup, lookup-map_values, has_key}
use node_agent.Common.{User, emails}
use node_agent.Wireguard.{PeerInfo, Platform, SyncError}
use node_agent.Wireguard.Config.{get_pre_shared_key, interface_networks}
use node_agent.Wireguard.PeerStore.{get_email_map, apply_changes}
use node_agent.Wireguard.Users.{DesiredPeer, normalize_users, collect_desired_peers}
use node_agent.Wireguard.Users.Collected.{collect_desired_peers-IsCollected}
use node_agent.Wireguard.Plan.{SyncDiff, build_sync_diff}
use node_agent.Wireguard.Plan.Built.{targets_of, build_sync_diff-IsPlanned}
use node_agent.Wireguard.Plan.Targets.{
  AreCanonical, lookup-targets_of, targets_of-AreTargets, targets_of-HaveIps,
}
use node_agent.Wireguard.Sync.{
  Device, WireGuard, check_owners, existing_subset, ensure_running, with_store, apply_partial,
  sync_users_partial,
}
use node_agent.Wireguard.Sync.Existing.{IsSound, existing_subset_lem, existing_subset-IsMap}
use node_agent.Wireguard.Sync.Partial.{IsReconciled, apply_changes-IsReconciled}

module _ {Key Net : Type 0} where
  pub check_owners_lem :
      (touched : List String) (owners : Dict String) (m : Dict (DesiredPeer Key Net))
      → check_owners touched owners m ≡ ok tt
      → (k : String) (d : DesiredPeer Key Net) (owner : String) → lookup k m ≡ some d
      → lookup k owners ≡ some owner
      → (owner ≡ d.email) ⊎ (contains touched owner ≡ true)
  unfolding check_owners lookup
  check_owners_lem touched owners [] ok_all k d owner e f = absurd (ground (arith, e))
  check_owners_lem touched owners ((j, x) ∷ m) ok_all k d owner e f =
      let rest : check_owners touched owners m ≡ ok tt = elim (Option-cases (lookup j owners)) [
        | inl g ↦ ground (arith, ok_all, g)
        | inr (o, g) ↦
            ground (arith, ok_all, g, Bool-cases (o == x.email), Bool-cases (contains touched o))
      ] in
      elim (Bool-cases (j == k)) [
        | inr n ↦ check_owners_lem touched owners m rest k d owner (ground (arith, e, n)) f
        | inl y ↦
            let same : x ≡ d = ground (arith, e, y) in
            let g : lookup j owners ≡ some owner =
              ap (λ i. lookup i owners) ((eq_iff j k).0 y) ∙ f in
            elim (Bool-cases (contains touched owner)) [
              | inl t ↦ inr t
              | inr n ↦ inl (
                  ground (arith, ok_all, g, n, eq_iff owner x.email)
                  ∙ ap (λ (z : DesiredPeer Key Net). z.email) same)
            ]
      ]

module _ {Key Net D : Type 0} (p : Platform Key Net) (dev : Device Key Net D) where
  abbrev pub found_peers :
      List (Option User) → WireGuard Key Net D → Result SyncError (Dict (DesiredPeer Key Net))
  found_peers us w =
      collect_desired_peers p w.config.interface_name (interface_networks p w.config)
        (normalize_users us)

  -- Where it succeeds, applying a difference commits it to the store.
  apply_partial-store :
      (diff : SyncDiff Key Net) (w w' : WireGuard Key Net D)
      → apply_partial p dev diff w ≡ (ok tt, w')
      → w'.peer_store
        ≡ (apply_changes p.key_string diff.remove_keys (map some diff.upsert_peers) w.peer_store).1
  unfolding apply_partial with_store
  apply_partial-store diff w w' e = elim (List-cases diff.peer_configs) [
    | inl f ↦ ground (arith, e, f)
    | inr (config, configs, f) ↦ elim (Result-cases (ensure_running w)) [
      | inr (x, g) ↦ absurd (ground (arith, e, f, g))
      | inl (d, g) ↦ elim (Result-cases (dev.apply_peers (config ∷ configs) d).0) [
        | inr (x, h) ↦ absurd (ground (arith, e, f, g, h))
        | inl (u, h) ↦ ground (arith, e, f, g, h)
      ]
    ]
  ]

  -- The whole synchronisation, where the peers wanted were found.
  reconciled :
      ((x : Key) → p.parse_key (p.key_string x) ≡ some x)
      → (us : List (Option User)) (w w' : WireGuard Key Net D)
        (desired : Dict (DesiredPeer Key Net))
      → collect_desired_peers p w.config.interface_name
          (interface_networks p w.config)
          (normalize_users us)
        ≡ ok desired
      → AreCanonical p.key_string desired
      → IsSound p.key_string w.peer_store
      → sync_users_partial p dev us w ≡ (ok tt, w')
      → IsReconciled p (emails (normalize_users us)) (targets_of desired) w.peer_store w'.peer_store
        × IsSound p.key_string w'.peer_store
  unfolding sync_users_partial get_email_map has_key
  reconciled parses us w w' desired c canonical sound e =
      let users = normalize_users us in
      let ps = w.peer_store in
      let owners = get_email_map ps in
      let existing = existing_subset p (emails users) ps [] in
      let diff = build_sync_diff p (get_pre_shared_key p w.config) existing desired in
      let pools = interface_networks p w.config in
      let h = collect_desired_peers-IsCollected p w.config.interface_name pools us desired c in
      let are = targets_of-AreTargets p pools users desired h canonical in
      let free : check_owners (emails users) owners desired ≡ ok tt =
        elim (Result-cases (check_owners (emails users) owners desired)) [
          | inl (u, f) ↦ f
          | inr (x, f) ↦ absurd (ground (arith, e, c, f))
        ] in
      let done : apply_partial p dev diff w ≡ (ok tt, w') = ground (arith, e, c, free) in
      let found = λ (k : String). existing_subset_lem p (emails users) ps [] k sound.one in
      let parsed : (k : String) → has_key k existing ≡ true → (x : Key) × (p.parse_key k ≡ some x) =
        λ k i. elim (Option-cases (lookup k ps.peers)) [
          | inl f ↦ absurd (ground (arith, i, found k, f))
          | inr (q, f) ↦ (
            q.public_key,
            subst (λ j. p.parse_key j ≡ some q.public_key) (sound.one.at_key k q f).0
                (parses q.public_key),
          )
        ] in
      let planned =
        build_sync_diff-IsPlanned p (get_pre_shared_key p w.config) existing desired
          (existing_subset-IsMap p (emails users) ps [] tt) h.is_map
          (targets_of-HaveIps p pools users desired h) parsed in
      let owned : (k : String) (q t : PeerInfo Key Net)
          → lookup k (targets_of desired) ≡ some t
          → lookup k ps.peers ≡ some q
          → contains (emails users) q.email ≡ true =
        λ k q t f g.
          let (d, f', same) = lookup-targets_of desired k t f in
          let own : lookup k owners ≡ some q.email =
            lookup-map_values (λ (x : PeerInfo Key Net). x.email) k ps.peers ∙ ground (arith, g) in
          elim (check_owners_lem (emails users) owners desired free k d q.email f' own) [
            | inr touched ↦ touched
            | inl mine ↦ ap (contains (emails users)) mine ∙ h.of_users.given k d f'
          ] in
      subst
        (λ new.
          IsReconciled p (emails users) (targets_of desired) ps new × IsSound p.key_string new)
        (sym (apply_partial-store diff w w' done))
        (apply_changes-IsReconciled p users ps existing (targets_of desired) diff sound planned are
          (λ k. found k) owned)

  -- Where the synchronisation of some users succeeds, it has found their peers. In the new store each
  -- of these stands under its key, with its email and the texts of its networks in order; no key of
  -- these was that of a user who is not among them; no other peer of these users is left; every peer
  -- of another user is as it was; and emails and keys are one to one again. Conditions: emails and
  -- keys were one to one, a key's text can be parsed, and the texts of the keys that are found are
  -- those that the keys print.
  pub sync_users_partial-IsReconciled :
      ((x : Key) → p.parse_key (p.key_string x) ≡ some x)
      → (us : List (Option User)) (w w' : WireGuard Key Net D)
      → ((desired : Dict (DesiredPeer Key Net))
          → found_peers us w ≡ ok desired
          → AreCanonical p.key_string desired)
      → IsSound p.key_string w.peer_store
      → sync_users_partial p dev us w ≡ (ok tt, w')
      → (desired : Dict (DesiredPeer Key Net)) × (found_peers us w ≡ ok desired)
        × IsReconciled p
            (emails (normalize_users us))
            (targets_of desired)
            w.peer_store
            w'.peer_store
        × IsSound p.key_string w'.peer_store
  unfolding sync_users_partial
  sync_users_partial-IsReconciled parses us w w' canonical sound e =
      elim (Result-cases (found_peers us w)) [
        | inr (x, f) ↦ absurd (ground (arith, e, f))
        | inl (desired, f) ↦
            let (new, one) = reconciled parses us w w' desired f (canonical desired f) sound e in
            (desired, f, new, one)
      ]
