-- ===== src/Wireguard/PeerStore/Origins.antt =====
-- Where the peers of the store come from.
use node_agent.Prelude.{
  String, ◌≡◌, ◌≢◌, ◌⊎◌, inl, inr, sym, ap, ◌∙◌, true, false, Option, none, some, List, [], ◌∷◌,
  arith, ◌==◌, eq_iff, Bool-cases, Option-cases, contains, In,
}
use node_agent.Prelude.Dict.{lookup}
use node_agent.Wireguard.{PeerInfo}
use node_agent.Wireguard.PeerStore.{
  PeerStore, new_peer_store, upsert, upsert_loop, apply_changes, remove_loop, replace_all,
}
use node_agent.Wireguard.PeerStore.OneToOne.{IsOneToOne, peers-upsert, remove_loop-IsOneToOne}
use node_agent.Wireguard.PeerStore.Contents.{
  AreDistinct, Apart, Holds, peers-remove_loop, upsert_loop-keeps, upsert_loop-Holds,
  init-upsert_loop, new_peer_store-AreFresh,
}

module _ {Key Net : Type 0} (key_string : Key → String) where
  upsert_loop-origin :
      (peers : List (Option (PeerInfo Key Net))) (ps : PeerStore Key Net) (k : String)
      (q : PeerInfo Key Net)
      → lookup k (upsert_loop key_string peers ps).peers ≡ some q
      → ((In (some q) peers) × (key_string q.public_key ≡ k)) ⊎ (lookup k ps.peers ≡ some q)
  unfolding upsert_loop
  upsert_loop-origin [] ps k q e = inr e
  upsert_loop-origin (none ∷ peers) ps k q e = elim (upsert_loop-origin peers ps k q e) [
    | inl (i, own) ↦ inl (inr i, own)
    | inr old ↦ inr old
  ]
  upsert_loop-origin (some p ∷ peers) ps k q e =
      elim (upsert_loop-origin peers (upsert key_string p ps) k q e) [
        | inl (i, own) ↦ inl (inr i, own)
        | inr old ↦ elim (Bool-cases (key_string p.public_key == k)) [
          | inl y ↦
              let same : p ≡ q = ground (arith, old, y, peers-upsert key_string p ps k) in
              inl (
                inl (ap some (sym same)),
                ap (λ (x : PeerInfo Key Net). key_string x.public_key) (sym same)
                    ∙ (eq_iff (key_string p.public_key) k).0 y,
              )
          | inr n ↦ inr (ground (arith, old, n, peers-upsert key_string p ps k))
        ]
      ]

  -- What is under a key after ApplyChanges: a new peer, an old one that nothing replaces, or none.
  pub apply_changes-new :
      (remove_keys : List String) (peers : List (Option (PeerInfo Key Net)))
      (ps : PeerStore Key Net) (q : PeerInfo Key Net)
      → IsOneToOne key_string ps
      → AreDistinct key_string peers
      → In (some q) peers
      → lookup (key_string q.public_key) (apply_changes key_string remove_keys peers ps).1.peers
        ≡ some q
  unfolding apply_changes
  apply_changes-new remove_keys peers ps q h d i =
      (upsert_loop-Holds key_string peers q (remove_loop remove_keys ps).1 d
        (remove_loop-IsOneToOne key_string remove_keys ps h) i).0

  pub apply_changes-kept :
      (remove_keys : List String) (peers : List (Option (PeerInfo Key Net)))
      (ps : PeerStore Key Net) (k : String) (q : PeerInfo Key Net)
      → IsOneToOne key_string ps
      → lookup k ps.peers ≡ some q
      → contains remove_keys k ≡ false
      → Apart key_string q peers
      → lookup k (apply_changes key_string remove_keys peers ps).1.peers ≡ some q
  unfolding apply_changes
  apply_changes-kept remove_keys peers ps k q h e stays a =
      let ps' = (remove_loop remove_keys ps).1 in
      let h' = remove_loop-IsOneToOne key_string remove_keys ps h in
      let left : lookup k ps'.peers ≡ some q =
        ground (arith, e, stays, peers-remove_loop remove_keys ps k) in
      let (own, at) = h'.at_key k q left in
      let held : Holds key_string q ps' =
        (ap (λ x. lookup x ps'.peers) own ∙ left, at ∙ ap some (sym own)) in
      ap (λ x. lookup x (upsert_loop key_string peers ps').peers) (sym own)
      ∙ (upsert_loop-keeps key_string peers q ps' a h' held).0

  pub apply_changes-gone :
      (remove_keys : List String) (peers : List (Option (PeerInfo Key Net)))
      (ps : PeerStore Key Net) (k : String)
      → (contains remove_keys k ≡ true) ⊎ (lookup k ps.peers ≡ none)
      → ((q : PeerInfo Key Net) → In (some q) peers → key_string q.public_key ≢ k)
      → lookup k (apply_changes key_string remove_keys peers ps).1.peers ≡ none
  unfolding apply_changes
  apply_changes-gone remove_keys peers ps k out others =
      let ps' = (remove_loop remove_keys ps).1 in
      elim (Option-cases (lookup k (upsert_loop key_string peers ps').peers)) [
        | inl e ↦ e
        | inr (q, e) ↦ elim (upsert_loop-origin peers ps' k q e) [
          | inl (i, own) ↦ absurd (others q i own)
          | inr old ↦ absurd (ground (arith, old, out, peers-remove_loop remove_keys ps k))
        ]
      ]

  -- ReplaceAll leaves the new peers and no other.
  pub replace_all-origin :
      (peers : List (Option (PeerInfo Key Net))) (ps : PeerStore Key Net) (k : String)
      (q : PeerInfo Key Net)
      → AreDistinct key_string peers
      → lookup k (replace_all key_string peers ps).1.peers ≡ some q
      → (In (some q) peers) × (key_string q.public_key ≡ k)
  unfolding replace_all lookup
  replace_all-origin peers ps k q d e =
      let same =
        init-upsert_loop key_string peers new_peer_store d
          (new_peer_store-AreFresh key_string peers) in
      elim (upsert_loop-origin peers new_peer_store k q
        (ap (λ (s : PeerStore Key Net). lookup k s.peers) (sym same) ∙ e)) [
          | inl i ↦ i
          | inr old ↦ absurd (ground (arith, old))
        ]
