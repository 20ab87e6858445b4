-- ===== src/Wireguard/Plan/Built.antt =====
-- The difference that buildSyncDiff returns.
use node_agent.Prelude.{
  String, ◌≡◌, inl, inr, refl, ap, ◌∙◌, true, false, Option, some, List, [], ◌∷◌, arith, ◌==◌,
  eq_iff, eq_refl, ◌&&◌, not, Option-cases, Bool-cases, List-cases, contains, In,
}
use node_agent.Prelude.Dict.{Dict, lookup, has_key, IsMap, map_values, map_values-IsMap}
use node_agent.Prelude.KeyOrder.{in_order, in_order_lem}
use node_agent.Wireguard.{PeerInfo, Platform}
use node_agent.Wireguard.Users.{DesiredPeer}
use node_agent.Wireguard.Plan.Diff.{
  contains-keys_of, diff_new_lem, diff_existing_lem, upsert_for, HaveIps,
}
use node_agent.Wireguard.Plan.{
  SyncDiff, in_key_order, peers_of, keys_of, target_of, diff_existing, diff_new, remove_configs,
  build_remove_configs_for_peers, build_sync_diff,
}

module _ {Key Net : Type 0} where
  -- The peers wanted, by key.
  abbrev pub targets_of : Dict (DesiredPeer Key Net) → Dict (PeerInfo Key Net)
  targets_of desired = map_values target_of desired

  pub In-peers_of :
      (m : Dict (PeerInfo Key Net)) (q : PeerInfo Key Net)
      → IsMap m
      → In q (peers_of m)
      → (k : String) × (lookup k m ≡ some q)
  unfolding lookup
  In-peers_of [] q u i = elim i [ ]
  In-peers_of ((j, t) ∷ m) q u (inl e) = (j, ground (arith, e, eq_refl j))
  In-peers_of ((j, t) ∷ m) q u (inr i) =
      let (k, f) = In-peers_of m q u.1 i in (k, ground (arith, f, u.0, eq_iff j k))

  pub peers_of-In :
      (m : Dict (PeerInfo Key Net)) (k : String) (q : PeerInfo Key Net)
      → lookup k m ≡ some q
      → In q (peers_of m)
  unfolding lookup
  peers_of-In [] k q e = absurd (ground (arith, e))
  peers_of-In ((j, t) ∷ m) k q e = elim (Bool-cases (j == k)) [
    | inl y ↦ inl (ground (arith, e, y))
    | inr n ↦ inr (peers_of-In m k q (ground (arith, e, n)))
  ]

  module _ (p : Platform Key Net) where
    remove_configs-keys :
        (keys : List String)
        → ((k : String) → contains keys k ≡ true → (x : Key) × (p.parse_key k ≡ some x))
        → (remove_configs p keys).0 ≡ keys
    unfolding remove_configs
    remove_configs-keys [] h = refl
    remove_configs-keys (key ∷ keys) h =
        let (x, e) = h key (ground (arith, eq_refl key)) in
        let rest = remove_configs-keys keys (λ k i. h k (ground (arith, i))) in
        ground (arith, e, rest)

    -- What leaves the store, and what is put into it, for each key.
    pub record IsPlanned (existing targets : Dict (PeerInfo Key Net)) (diff : SyncDiff Key Net)
        : Type 0 where
      pub removed :
          (k : String) → contains diff.remove_keys k ≡ has_key k existing && not (has_key k targets)
      pub upserts : Dict (PeerInfo Key Net)
      pub listed : diff.upsert_peers ≡ peers_of upserts
      pub distinct : IsMap upserts
      pub upserted :
          (k : String) → lookup k upserts ≡ upsert_for p (lookup k existing) (lookup k targets)
      pub wanted : diff.target_peers ≡ targets
      pub quiet : diff.changed ≡ false → (diff.remove_keys ≡ []) × (diff.upsert_peers ≡ [])
      pub still : diff.remove_keys ≡ [] → diff.upsert_peers ≡ [] → diff.changed ≡ false

    -- The difference removes exactly the keys that exist and are not wanted, and puts in, once each,
    -- the wanted peers that are new or whose email or networks differ; where it finds no change there
    -- is nothing to remove or put in. Conditions: both are maps, every wanted peer has an address, and
    -- every key that exists can be parsed.
    pub build_sync_diff-IsPlanned :
        (psk : Option Key) (existing : Dict (PeerInfo Key Net))
        (desired : Dict (DesiredPeer Key Net))
        → IsMap existing
        → IsMap desired
        → HaveIps p (targets_of desired)
        → ((k : String) → has_key k existing ≡ true → (x : Key) × (p.parse_key k ≡ some x))
        → IsPlanned existing (targets_of desired) (build_sync_diff p psk existing desired)
    unfolding build_sync_diff build_remove_configs_for_peers in_key_order has_key
    build_sync_diff-IsPlanned psk existing desired u v h parsed =
        let targets = targets_of desired in
        let new = diff_new p psk targets existing in
        let (found, um, none_removed) =
          diff_new_lem p psk targets existing h (map_values-IsMap target_of desired v) in
        let draft = diff_existing p psk existing targets new in
        let (ups, rem, um', rm) =
          diff_existing_lem p psk existing targets new h u um none_removed
            (λ k e. ground (arith, found k, e)) in
        let (su, sl) = in_order_lem draft.upserts um' in
        let (ru, rl) = in_order_lem draft.removes rm in
        let gone : (k : String)
            → contains (keys_of (in_order draft.removes)) k
              ≡ has_key k existing && not (has_key k targets) =
          λ k.
            contains-keys_of (in_order draft.removes) k
            ∙ ground (
              arith,
              rl k,
              rem k,
              Option-cases (lookup k existing),
              Option-cases (lookup k targets),
            ) in
        let kept =
          remove_configs-keys (keys_of (in_order draft.removes))
            (λ k i. parsed k (ground (arith, gone k, i))) in
        record {
          removed = λ k. ap (λ keys. contains keys k) kept ∙ gone k;
          upserts = in_order draft.upserts;
          listed = refl;
          distinct = su;
          upserted = λ k.
              sl k
              ∙ ups k
              ∙ ground (
                arith,
                found k,
                Option-cases (lookup k existing),
                Option-cases (lookup k targets),
              );
          wanted = refl;
          still = λ e f. ground (arith, e, f);
          quiet = λ e. ground (
            arith,
            e,
            List-cases (build_sync_diff p psk existing desired).remove_keys,
            List-cases (build_sync_diff p psk existing desired).upsert_peers,
          );
        }
