-- ===== src/Wireguard/PeerStore/Contents.antt =====
-- What the store has after a call.
use node_agent.Prelude.{
  String, ◌≡◌, ◌≢◌, inl, inr, refl, ◌∙◌, ap, sym, subst, Option, none, some, List, [], ◌∷◌, arith,
  eq_iff, eq_refl, Option-cases, if◌then◌else◌, not, ◌&&◌, contains, In,
}
use node_agent.Prelude.Dict.{Dict, lookup, has_key, lookup-insert, lookup-delete}
use node_agent.Wireguard.{PeerInfo}
use node_agent.Wireguard.PeerStore.{
  PeerStore, new_peer_store, remove_key, remove_loop, put, upsert, upsert_loop, apply_changes, init,
  replace_all, drop_old_key, drop_old_email, gone_keys, get_by_key, get_by_email,
}
use node_agent.Wireguard.PeerStore.OneToOne.{
  IsOneToOne, held_elsewhere, key_of_email, upsert_loop-IsOneToOne, remove_loop-IsOneToOne,
  new_peer_store-IsOneToOne, peers-upsert, email_to_key-upsert, upsert-IsOneToOne,
}

module _ {Key Net : Type 0} where
  pub peers-remove_loop :
      (keys : List String) (ps : PeerStore Key Net) (k : String)
      → lookup k (remove_loop keys ps).1.peers
        ≡ (if contains keys k then none else lookup k ps.peers)
  unfolding remove_loop remove_key
  peers-remove_loop [] ps k = refl
  peers-remove_loop (key ∷ keys) ps k = elim (Option-cases (lookup key ps.peers)) [
    | inl e ↦ rw (e, remove_loop) (ground (arith, e, peers-remove_loop keys ps k, eq_iff key k))
    | inr (p, e) ↦
        rw (e, remove_loop, peers-remove_loop keys (remove_key key p ps) k)
          (ground (arith, eq_iff key k, lookup-delete key k ps.peers))
  ]

  pub removed-remove_loop :
      (keys : List String) (ps : PeerStore Key Net) (k : String)
      → contains (remove_loop keys ps).0 k ≡ contains keys k && has_key k ps.peers
  unfolding remove_loop remove_key has_key
  removed-remove_loop [] ps k = refl
  removed-remove_loop (key ∷ keys) ps k = elim (Option-cases (lookup key ps.peers)) [
    | inl e ↦ rw (e, remove_loop) (ground (arith, e, removed-remove_loop keys ps k, eq_iff key k))
    | inr (p, e) ↦
        rw (e, remove_loop, removed-remove_loop keys (remove_key key p ps) k)
          (ground (arith, e, eq_iff key k, lookup-delete key k ps.peers))
  ]

  pub contains-gone_keys :
      (old new_peers : Dict (PeerInfo Key Net)) (k : String)
      → contains (gone_keys old new_peers) k ≡ has_key k old && not (has_key k new_peers)
  unfolding gone_keys has_key lookup
  contains-gone_keys [] m k = refl
  contains-gone_keys ((key, p) ∷ old) m k = ground (arith, contains-gone_keys old m k, eq_iff key k)

module _ {Key Net : Type 0} (key_string : Key → String) where
  -- Two peers share neither a key nor an email.
  abbrev pub Differ : PeerInfo Key Net → PeerInfo Key Net → Type 0
  Differ p q = (key_string p.public_key ≢ key_string q.public_key) × (p.email ≢ q.email)

  abbrev pub Apart : PeerInfo Key Net → List (Option (PeerInfo Key Net)) → Type 0
  Apart p [] = Unit
  Apart p (none ∷ peers) = Apart p peers
  Apart p (some q ∷ peers) = Differ q p × Apart p peers

  abbrev pub AreDistinct : List (Option (PeerInfo Key Net)) → Type 0
  AreDistinct [] = Unit
  AreDistinct (none ∷ peers) = AreDistinct peers
  AreDistinct (some p ∷ peers) = Apart p peers × AreDistinct peers

  -- The store has the peer under its key, and the key under its email.
  abbrev pub Holds : PeerInfo Key Net → PeerStore Key Net → Type 0
  Holds p ps =
      (lookup (key_string p.public_key) ps.peers ≡ some p)
      × (lookup p.email ps.email_to_key ≡ some (key_string p.public_key))

  upsert-Holds : (p : PeerInfo Key Net) (ps : PeerStore Key Net) → Holds p (upsert key_string p ps)
  upsert-Holds p ps =
      let own = key_string p.public_key in
      (
        ground (arith, peers-upsert key_string p ps own, eq_refl own),
        ground (arith, email_to_key-upsert key_string p ps p.email, eq_refl p.email),
      )

  upsert-keeps :
      (p q : PeerInfo Key Net) (ps : PeerStore Key Net)
      → Differ p q
      → IsOneToOne key_string ps
      → Holds q ps
      → Holds q (upsert key_string p ps)
  upsert-keeps p q ps d h a =
      let own = key_string p.public_key in
      let k = key_string q.public_key in
      (
        ground (
          arith,
          a.0,
          d.0,
          d.1,
          peers-upsert key_string p ps k,
          key_of_email key_string ps p q k h a.0,
          eq_iff own k,
        ),
        ground (
          arith,
          a.1,
          d.0,
          d.1,
          email_to_key-upsert key_string p ps q.email,
          held_elsewhere key_string ps p q k h a.0,
          eq_iff p.email q.email,
        ),
      )

  get-Holds :
      (p : PeerInfo Key Net) (ps : PeerStore Key Net)
      → Holds p ps
      → (get_by_key (key_string p.public_key) ps ≡ some p) × (get_by_email p.email ps ≡ some p)
  unfolding get_by_key get_by_email
  get-Holds p ps a = (a.0, rw (a.1, get_by_email) a.0)

  pub upsert_loop-keeps :
      (peers : List (Option (PeerInfo Key Net))) (q : PeerInfo Key Net) (ps : PeerStore Key Net)
      → Apart q peers
      → IsOneToOne key_string ps
      → Holds q ps
      → Holds q (upsert_loop key_string peers ps)
  unfolding upsert_loop
  upsert_loop-keeps [] q ps d h a = a
  upsert_loop-keeps (none ∷ peers) q ps d h a = upsert_loop-keeps peers q ps d h a
  upsert_loop-keeps (some p ∷ peers) q ps d h a =
      upsert_loop-keeps peers q (upsert key_string p ps) d.1 (upsert-IsOneToOne key_string p ps h)
        (upsert-keeps p q ps d.0 h a)

  pub upsert_loop-Holds :
      (peers : List (Option (PeerInfo Key Net))) (p : PeerInfo Key Net) (ps : PeerStore Key Net)
      → AreDistinct peers
      → IsOneToOne key_string ps
      → In (some p) peers
      → Holds p (upsert_loop key_string peers ps)
  unfolding upsert_loop
  upsert_loop-Holds [] p ps d h i = elim i [ ]
  upsert_loop-Holds (none ∷ peers) p ps d h (inl e) = ground (arith, e)
  upsert_loop-Holds (none ∷ peers) p ps d h (inr i) = upsert_loop-Holds peers p ps d h i
  upsert_loop-Holds (some q ∷ peers) p ps d h (inl e) =
      let same : q ≡ p = ground (arith, e) in
      subst (λ x. Holds x (upsert_loop key_string peers (upsert key_string q ps))) same
        (upsert_loop-keeps peers q (upsert key_string q ps) d.0
          (upsert-IsOneToOne key_string q ps h) (upsert-Holds q ps))
  upsert_loop-Holds (some q ∷ peers) p ps d h (inr i) =
      upsert_loop-Holds peers p (upsert key_string q ps) d.1 (upsert-IsOneToOne key_string q ps h) i

  abbrev Fresh : PeerInfo Key Net → PeerStore Key Net → Type 0
  Fresh p ps =
      (lookup (key_string p.public_key) ps.peers ≡ none) × (lookup p.email ps.email_to_key ≡ none)

  abbrev AreFresh : List (Option (PeerInfo Key Net)) → PeerStore Key Net → Type 0
  AreFresh [] ps = Unit
  AreFresh (none ∷ peers) ps = AreFresh peers ps
  AreFresh (some p ∷ peers) ps = Fresh p ps × AreFresh peers ps

  AreFresh-put :
      (peers : List (Option (PeerInfo Key Net))) (p : PeerInfo Key Net) (ps : PeerStore Key Net)
      → Apart p peers
      → AreFresh peers ps
      → AreFresh peers (put key_string p ps)
  unfolding put
  AreFresh-put [] p ps d f = tt
  AreFresh-put (none ∷ peers) p ps d f = AreFresh-put peers p ps d f
  AreFresh-put (some q ∷ peers) p ps d f =
      let own = key_string p.public_key in
      let k = key_string q.public_key in
      (
        ground (
          arith,
          f.0,
          d.0,
          lookup-insert own k p ps.peers,
          lookup-insert p.email q.email own ps.email_to_key,
          eq_iff own k,
          eq_iff p.email q.email,
        ),
        AreFresh-put peers p ps d.1 f.1,
      )

  upsert-put :
      (p : PeerInfo Key Net) (ps : PeerStore Key Net)
      → Fresh p ps
      → upsert key_string p ps ≡ put key_string p ps
  unfolding upsert drop_old_key drop_old_email
  upsert-put p ps f = ground (arith, f.0, f.1)

  -- Filling an empty store is upserting, where no key and no email comes twice.
  pub init-upsert_loop :
      (peers : List (Option (PeerInfo Key Net))) (ps : PeerStore Key Net)
      → AreDistinct peers
      → AreFresh peers ps
      → init key_string peers ps ≡ upsert_loop key_string peers ps
  unfolding init upsert_loop
  init-upsert_loop [] ps d f = refl
  init-upsert_loop (none ∷ peers) ps d f = init-upsert_loop peers ps d f
  init-upsert_loop (some p ∷ peers) ps d f =
      init-upsert_loop peers (put key_string p ps) d.1 (AreFresh-put peers p ps d.0 f.1)
      ∙ ap (upsert_loop key_string peers) (sym (upsert-put p ps f.0))

  pub new_peer_store-AreFresh :
      (peers : List (Option (PeerInfo Key Net))) → AreFresh peers new_peer_store
  unfolding lookup
  new_peer_store-AreFresh [] = tt
  new_peer_store-AreFresh (none ∷ peers) = new_peer_store-AreFresh peers
  new_peer_store-AreFresh (some p ∷ peers) = ((refl, refl), new_peer_store-AreFresh peers)

  -- ApplyChanges returns the keys that it was told to remove and the store had, and finds each new
  -- peer by its key and by its email. Conditions: emails and keys were one to one, and no two of the
  -- new peers share an email or a key.
  pub apply_changes-contents :
      (remove_keys : List String) (peers : List (Option (PeerInfo Key Net)))
      (ps : PeerStore Key Net)
      → IsOneToOne key_string ps
      → AreDistinct peers
      → let (removed, ps') = apply_changes key_string remove_keys peers ps in
        ((k : String) → contains removed k ≡ contains remove_keys k && has_key k ps.peers)
        × ((p : PeerInfo Key Net)
            → In (some p) peers
            → (get_by_key (key_string p.public_key) ps' ≡ some p)
              × (get_by_email p.email ps' ≡ some p))
  unfolding apply_changes get_by_key get_by_email
  apply_changes-contents remove_keys peers ps h d = (
    removed-remove_loop remove_keys ps,
    λ p i. get-Holds p _ (
        upsert_loop-Holds peers p (remove_loop remove_keys ps).1 d
          (remove_loop-IsOneToOne key_string remove_keys ps h) i),
  )

  -- ReplaceAll returns the keys that the store had and no longer has, and the new store is one to
  -- one and finds each new peer by its key and by its email. Condition: no two of the new peers share
  -- an email or a key.
  pub replace_all-contents :
      (peers : List (Option (PeerInfo Key Net))) (ps : PeerStore Key Net)
      → AreDistinct peers
      → let (removed, ps') = replace_all key_string peers ps in
        ((k : String) → contains removed k ≡ has_key k ps.peers && not (has_key k ps'.peers))
        × IsOneToOne key_string ps'
        × ((p : PeerInfo Key Net)
            → In (some p) peers
            → (get_by_key (key_string p.public_key) ps' ≡ some p)
              × (get_by_email p.email ps' ≡ some p))
  unfolding replace_all get_by_key get_by_email
  replace_all-contents peers ps d =
      let same = init-upsert_loop peers new_peer_store d (new_peer_store-AreFresh peers) in
      let one = new_peer_store-IsOneToOne key_string in
      (
        contains-gone_keys ps.peers (init key_string peers new_peer_store).peers,
        rw same (upsert_loop-IsOneToOne key_string peers new_peer_store one),
        λ p i. rw same (get-Holds p _ (upsert_loop-Holds peers p new_peer_store d one i)),
      )
