-- ===== src/Wireguard/Sync/Failure.antt =====
-- What a synchronisation leaves as it is, and that only its known errors make it fail.
use node_agent.Prelude.{
  String, ◌≡◌, ◌⊎◌, ◌∙◌, inl, inr, refl, true, Option, some, contains, eq_iff, eq_refl,
  Option-cases, Result, List, [], ◌∷◌, arith, Bool-cases, List-cases, Result-cases, ok, err,
}
use node_agent.Prelude.Dict.{Dict, IsMap, lookup, lookup-map_values}
use node_agent.Common.{User, emails}
use node_agent.Wireguard.{PeerInfo, Platform, SyncError, PeerConfig}
use node_agent.Wireguard.Config.{get_pre_shared_key, interface_networks}
use node_agent.Wireguard.PeerStore.{PeerStore, get_by_key, get_email_map}
use node_agent.Wireguard.Users.{DesiredPeer, normalize_users, collect_desired_peers}
use node_agent.Wireguard.Users.Collected.{collect_desired_peers-IsCollected}
use node_agent.Wireguard.Sync.Partial.Reconciled.{check_owners_lem}
use node_agent.Wireguard.Plan.{SyncDiff, build_sync_diff, build_target_peer_configs}
use node_agent.Wireguard.Sync.{
  Device, WireGuard, Outcome, running, check_owners, existing_by_key, existing_subset,
  ensure_running, with_store, apply_full, sync_users_full, apply_partial, sync_users_partial,
}

module _ {Key Net D : Type 0} where
  -- Only what the device has may differ.
  pub record IsUntouched (w w' : WireGuard Key Net D) : Type 0 where
    pub store : w'.peer_store ≡ w.peer_store
    pub stats : w'.stats_tracker ≡ w.stats_tracker

  pub record IsInPlace (w w' : WireGuard Key Net D) : Type 0 where
    pub config : w'.config ≡ w.config
    pub state : w'.state ≡ w.state

  ensure_running-running :
      (w : WireGuard Key Net D) (d : D)
      → w.state ≡ running
      → w.manager ≡ some d
      → ensure_running w ≡ ok d
  unfolding ensure_running
  ensure_running-running w d e f = ground (arith, e, f)

  -- An error leaves the store and the statistics.
  abbrev pub Leaves : Outcome → WireGuard Key Net D → WireGuard Key Net D → Type 0
  Leaves (ok _) w w' = Unit
  Leaves (err e) w w' = IsUntouched w w'

  abbrev pub IsSafe : WireGuard Key Net D → Outcome × WireGuard Key Net D → Type 0
  IsSafe w (reply, w') = IsInPlace w w' × Leaves reply w w'

  refused-IsSafe : (e : SyncError) (w : WireGuard Key Net D) → IsSafe w (err e, w)
  refused-IsSafe e w =
      (record { config = refl; state = refl }, record { store = refl; stats = refl })

  module _ (p : Platform Key Net) (dev : Device Key Net D) where
    apply_full-IsSafe :
        (diff : SyncDiff Key Net) (w : WireGuard Key Net D) → IsSafe w (apply_full p dev diff w)
    unfolding apply_full with_store
    apply_full-IsSafe diff w =
        let configs =
          (build_target_peer_configs diff.target_peers (get_pre_shared_key p w.config)).0 in
        elim (Result-cases (ensure_running w)) [
          | inr (x, f) ↦ rw (f, apply_full) (refused-IsSafe x w)
          | inl (d, f) ↦ elim (Result-cases (dev.apply_peers_replace_all configs d).0) [
            | inr (x, g) ↦
                rw (f, g, apply_full)
                  (record { config = refl; state = refl }, record { store = refl; stats = refl })
            | inl (x, g) ↦ rw (f, g, apply_full) (record { config = refl; state = refl }, tt)
          ]
        ]

    apply_partial-IsSafe :
        (diff : SyncDiff Key Net) (w : WireGuard Key Net D) → IsSafe w (apply_partial p dev diff w)
    unfolding apply_partial with_store
    apply_partial-IsSafe diff w = elim (List-cases diff.peer_configs) [
      | inl e ↦ rw (e, apply_partial) (record { config = refl; state = refl }, tt)
      | inr (config, configs, e) ↦ elim (Result-cases (ensure_running w)) [
        | inr (x, f) ↦ rw (e, f, apply_partial) (refused-IsSafe x w)
        | inl (d, f) ↦ elim (Result-cases (dev.apply_peers (config ∷ configs) d).0) [
          | inr (x, g) ↦
              rw (e, f, g, apply_partial)
                (record { config = refl; state = refl }, record { store = refl; stats = refl })
          | inl (x, g) ↦ rw (e, f, g, apply_partial) (record { config = refl; state = refl }, tt)
        ]
      ]
    ]

    sync_users_full-IsSafe :
        (us : List (Option User)) (w : WireGuard Key Net D) → IsSafe w (sync_users_full p dev us w)
    unfolding sync_users_full
    sync_users_full-IsSafe us w =
        elim (Result-cases (
          collect_desired_peers p w.config.interface_name (interface_networks p w.config)
            (normalize_users us))) [
              | inr (x, f) ↦ rw (f, sync_users_full) (refused-IsSafe x w)
              | inl (desired, f) ↦
                  let diff =
                    build_sync_diff p (get_pre_shared_key p w.config)
                      (existing_by_key p w.peer_store) desired in
                  elim (Bool-cases diff.changed) [
                    | inl y ↦ rw (f, y, sync_users_full) (apply_full-IsSafe diff w)
                    | inr n ↦
                        rw (f, n, sync_users_full) (record { config = refl; state = refl }, tt)
                  ]
            ]

    sync_users_partial-IsSafe :
        (us : List (Option User)) (w : WireGuard Key Net D)
        → IsSafe w (sync_users_partial p dev us w)
    unfolding sync_users_partial
    sync_users_partial-IsSafe us w =
        let users = normalize_users us in
        elim (Result-cases
          (collect_desired_peers p w.config.interface_name (interface_networks p w.config) users)) [
            | inr (x, f) ↦ rw (f, sync_users_partial) (refused-IsSafe x w)
            | inl (desired, f) ↦
                elim (Result-cases
                  (check_owners (emails users) (get_email_map w.peer_store) desired)) [
                    | inr (x, g) ↦ rw (f, g, sync_users_partial) (refused-IsSafe x w)
                    | inl (x, g) ↦
                        rw (f, g, sync_users_partial)
                          (apply_partial-IsSafe
                            (build_sync_diff p (get_pre_shared_key p w.config)
                              (existing_subset p (emails users) w.peer_store []) desired)
                            w)
                  ]
          ]

    -- Neither synchronisation changes the settings or the state of the service; and where one returns
    -- an error, the peer store and the statistics are as they were.
    pub sync_users-IsSafe :
        (us : List (Option User)) (w : WireGuard Key Net D)
        → IsSafe w (sync_users_full p dev us w) × IsSafe w (sync_users_partial p dev us w)
    sync_users-IsSafe us w = (sync_users_full-IsSafe us w, sync_users_partial-IsSafe us w)

    apply_partial-ok :
        (diff : SyncDiff Key Net) (w : WireGuard Key Net D) (d : D)
        → ensure_running w ≡ ok d
        → ((configs : List (PeerConfig Key Net)) → (dev.apply_peers configs d).0 ≡ ok tt)
        → (apply_partial p dev diff w).0 ≡ ok tt
    unfolding apply_partial
    apply_partial-ok diff w d e accepts = elim (List-cases diff.peer_configs) [
      | inl f ↦ ground (arith, f)
      | inr (config, configs, f) ↦ ground (arith, f, e, accepts (config ∷ configs))
    ]

    apply_full-ok :
        (diff : SyncDiff Key Net) (w : WireGuard Key Net D) (d : D)
        → ensure_running w ≡ ok d
        → ((configs : List (PeerConfig Key Net))
            → (dev.apply_peers_replace_all configs d).0 ≡ ok tt)
        → (apply_full p dev diff w).0 ≡ ok tt
    unfolding apply_full
    apply_full-ok diff w d e accepts = ground (
      arith,
      e,
      accepts (build_target_peer_configs diff.target_peers (get_pre_shared_key p w.config)).0,
    )

    -- What collectDesiredPeers finds for the users.
    abbrev pub found :
        List (Option User) → WireGuard Key Net D → Result SyncError (Dict (DesiredPeer Key Net))
    found us w =
        collect_desired_peers p w.config.interface_name (interface_networks p w.config)
          (normalize_users us)

    -- A key that is wanted and in the store is that of the same user, or of another one given.
    abbrev pub AreFree : List String → PeerStore Key Net → Dict (DesiredPeer Key Net) → Type 0
    AreFree touched ps desired =
        (k : String) (d : DesiredPeer Key Net) (q : PeerInfo Key Net)
        → lookup k desired ≡ some d
        → get_by_key k ps ≡ some q
        → (q.email ≡ d.email) ⊎ (contains touched q.email ≡ true)

    abbrev pub IsCollectable : List (Option User) → WireGuard Key Net D → Type 0
    IsCollectable us w = (desired : Dict (DesiredPeer Key Net)) × (found us w ≡ ok desired)

    abbrev pub IsApplicable : List (Option User) → WireGuard Key Net D → Type 0
    IsApplicable us w =
        (desired : Dict (DesiredPeer Key Net)) × (found us w ≡ ok desired)
        × AreFree (emails (normalize_users us)) w.peer_store desired

    check_owners-AreFree :
        (touched : List String) (ps : PeerStore Key Net) (desired : Dict (DesiredPeer Key Net))
        → check_owners touched (get_email_map ps) desired ≡ ok tt
        → AreFree touched ps desired
    unfolding get_email_map get_by_key
    check_owners-AreFree touched ps desired free k d q e f =
        check_owners_lem touched (get_email_map ps) desired free k d q.email e
          (lookup-map_values (λ (x : PeerInfo Key Net). x.email) k ps.peers ∙ ground (arith, f))

    AreFree-check_owners :
        (touched : List String) (ps : PeerStore Key Net) (desired : Dict (DesiredPeer Key Net))
        → IsMap desired
        → AreFree touched ps desired
        → check_owners touched (get_email_map ps) desired ≡ ok tt
    unfolding check_owners get_email_map get_by_key lookup
    AreFree-check_owners touched ps [] u free = refl
    AreFree-check_owners touched ps ((j, d) ∷ m) u free =
        let rest =
          AreFree-check_owners touched ps m u.1
            (λ k e q f g. free k e q (ground (arith, f, u.0, eq_iff j k)) g) in
        let own = lookup-map_values (λ (x : PeerInfo Key Net). x.email) j ps.peers in
        elim (Option-cases (lookup j ps.peers)) [
          | inl e ↦ ground (arith, own, e, rest)
          | inr (q, e) ↦ ground (
            arith,
            own,
            e,
            rest,
            free j d q (ground (arith, eq_refl j)) e,
            eq_iff q.email d.email,
          )
        ]

    -- A synchronisation of a running service whose device accepts what it is told succeeds exactly if
    -- the peers of the users can be found and, for the one of some users, every key wanted that is in
    -- the store is that of the same user or of another one given.
    pub sync_users-Succeeds :
        (us : List (Option User)) (w : WireGuard Key Net D) (d : D)
        → w.state ≡ running
        → w.manager ≡ some d
        → ((configs : List (PeerConfig Key Net))
            → ((dev.apply_peers configs d).0 ≡ ok tt)
              × ((dev.apply_peers_replace_all configs d).0 ≡ ok tt))
        → ((sync_users_full p dev us w).0 ≡ ok tt → IsCollectable us w)
          × (IsCollectable us w → (sync_users_full p dev us w).0 ≡ ok tt)
          × ((sync_users_partial p dev us w).0 ≡ ok tt → IsApplicable us w)
          × (IsApplicable us w → (sync_users_partial p dev us w).0 ≡ ok tt)
    unfolding sync_users_full sync_users_partial
    sync_users-Succeeds us w d up has accepts =
        let e = ensure_running-running w d up has in
        let psk = get_pre_shared_key p w.config in
        let touched = emails (normalize_users us) in
        (
          λ done. elim (Result-cases (found us w)) [
            | inl y ↦ y
            | inr (x, f) ↦ absurd (ground (arith, done, f))
          ],
          λ (desired, c).
              let full = build_sync_diff p psk (existing_by_key p w.peer_store) desired in
              ground (
                arith,
                c,
                Bool-cases full.changed,
                apply_full-ok full w d e (λ configs. (accepts configs).1),
              ),
          λ done. elim (Result-cases (found us w)) [
            | inr (x, f) ↦ absurd (ground (arith, done, f))
            | inl (desired, f) ↦
                elim (Result-cases (check_owners touched (get_email_map w.peer_store) desired)) [
                  | inr (x, g) ↦ absurd (ground (arith, done, f, g))
                  | inl (u, g) ↦ (desired, f, check_owners-AreFree touched w.peer_store desired g)
                ]
          ],
          λ (desired, c, free).
              let h =
                collect_desired_peers-IsCollected p w.config.interface_name
                  (interface_networks p w.config) us desired c in
              let some_diff =
                build_sync_diff p psk (existing_subset p touched w.peer_store []) desired in
              ground (
                arith,
                c,
                AreFree-check_owners touched w.peer_store desired h.is_map free,
                apply_partial-ok some_diff w d e (λ configs. (accepts configs).0),
              ),
        )
