-- ===== src/Wireguard/Sync/Existing.antt =====
-- The peers that a synchronisation finds in the store, and what makes the store sound.
use node_agent.Prelude.{
  String, ◌≡◌, inl, inr, refl, sym, ap, ◌∙◌, subst, Bool, true, false, Option, none, some, List, [],
  ◌∷◌, arith, ◌==◌, eq_iff, eq_refl, Option-cases, Bool-cases, contains, if◌then◌else◌,
}
use node_agent.Prelude.Dict.{
  Dict, lookup, insert, IsMap, insert-IsMap, delete-IsMap, lookup-insert, has_key,
}
use node_agent.Wireguard.{PeerInfo, Platform}
use node_agent.Wireguard.PeerStore.{
  PeerStore, get_by_email, peer_values, remove_key, remove_loop, drop_old_key, drop_old_email, put,
  upsert, upsert_loop, init, apply_changes, replace_all, new_peer_store,
}
use node_agent.Wireguard.PeerStore.OneToOne.{IsOneToOne}
use node_agent.Wireguard.Sync.{index_by_key, existing_by_key, existing_subset}

-- Emails and keys are one to one, and the peers are a map.
pub record IsSound {Key Net : Type 0} (key_string : Key → String) (ps : PeerStore Key Net)
    : Type 0 where
  pub one : IsOneToOne key_string ps
  pub is_map : IsMap ps.peers

module _ {Key Net : Type 0} where
  remove_loop-IsMap :
      (keys : List String) (ps : PeerStore Key Net)
      → IsMap ps.peers
      → IsMap (remove_loop keys ps).1.peers
  unfolding remove_loop remove_key
  remove_loop-IsMap [] ps h = h
  remove_loop-IsMap (key ∷ keys) ps h = elim (Option-cases (lookup key ps.peers)) [
    | inl e ↦ rw (e, remove_loop) (remove_loop-IsMap keys ps h)
    | inr (q, e) ↦
        rw (e, remove_loop)
          (remove_loop-IsMap keys (remove_key key q ps) (delete-IsMap key ps.peers h))
  ]

  -- Whether the peer belongs to one of the emails.
  abbrev pub is_touched : List String → Option (PeerInfo Key Net) → Bool
  is_touched emails none = false
  is_touched emails (some q) = contains emails q.email

  module _ (key_string : Key → String) where
    drop_old_key-IsMap :
        (q : PeerInfo Key Net) (ps : PeerStore Key Net)
        → IsMap ps.peers
        → IsMap (drop_old_key key_string q ps).peers
    unfolding drop_old_key
    drop_old_key-IsMap q ps h = elim (Option-cases (lookup q.email ps.email_to_key)) [
      | inl e ↦ rw (e, drop_old_key) h
      | inr (old, e) ↦ elim (Bool-cases (old == key_string q.public_key)) [
        | inl y ↦ rw (e, y, drop_old_key) h
        | inr n ↦ rw (e, n, drop_old_key) (delete-IsMap old ps.peers h)
      ]
    ]

    upsert-IsMap :
        (q : PeerInfo Key Net) (ps : PeerStore Key Net)
        → IsMap ps.peers
        → IsMap (upsert key_string q ps).peers
    unfolding upsert put drop_old_email
    upsert-IsMap q ps h =
        let ps' = drop_old_key key_string q ps in
        let same : (drop_old_email key_string q ps').peers ≡ ps'.peers =
          ground (arith, Option-cases (lookup (key_string q.public_key) ps'.peers)) in
        insert-IsMap (key_string q.public_key) q (drop_old_email key_string q ps').peers
          (subst IsMap (sym same) (drop_old_key-IsMap q ps h))

    upsert_loop-IsMap :
        (peers : List (Option (PeerInfo Key Net))) (ps : PeerStore Key Net)
        → IsMap ps.peers
        → IsMap (upsert_loop key_string peers ps).peers
    unfolding upsert_loop
    upsert_loop-IsMap [] ps h = h
    upsert_loop-IsMap (none ∷ peers) ps h = upsert_loop-IsMap peers ps h
    upsert_loop-IsMap (some q ∷ peers) ps h =
        upsert_loop-IsMap peers (upsert key_string q ps) (upsert-IsMap q ps h)

    init-IsMap :
        (peers : List (Option (PeerInfo Key Net))) (ps : PeerStore Key Net)
        → IsMap ps.peers
        → IsMap (init key_string peers ps).peers
    unfolding init put
    init-IsMap [] ps h = h
    init-IsMap (none ∷ peers) ps h = init-IsMap peers ps h
    init-IsMap (some q ∷ peers) ps h =
        init-IsMap peers (put key_string q ps) (insert-IsMap (key_string q.public_key) q ps.peers h)

    pub apply_changes-IsMap :
        (keys : List String) (peers : List (Option (PeerInfo Key Net))) (ps : PeerStore Key Net)
        → IsMap ps.peers
        → IsMap (apply_changes key_string keys peers ps).1.peers
    unfolding apply_changes
    apply_changes-IsMap keys peers ps h =
        upsert_loop-IsMap peers (remove_loop keys ps).1 (remove_loop-IsMap keys ps h)

    pub replace_all-IsMap :
        (peers : List (Option (PeerInfo Key Net))) (ps : PeerStore Key Net)
        → IsMap (replace_all key_string peers ps).1.peers
    unfolding replace_all
    replace_all-IsMap peers ps = init-IsMap peers new_peer_store tt

    get_by_email-found :
        (ps : PeerStore Key Net) (k : String) (q : PeerInfo Key Net)
        → IsOneToOne key_string ps
        → lookup k ps.peers ≡ some q
        → get_by_email q.email ps ≡ some q
    unfolding get_by_email
    get_by_email-found ps k q h e = ground (arith, h.at_key k q e, e)

    get_by_email-stored :
        (ps : PeerStore Key Net) (email : String) (q : PeerInfo Key Net)
        → IsOneToOne key_string ps
        → get_by_email email ps ≡ some q
        → (q.email ≡ email) × (lookup (key_string q.public_key) ps.peers ≡ some q)
    unfolding get_by_email
    get_by_email-stored ps email q h e = elim (Option-cases (lookup email ps.email_to_key)) [
      | inl f ↦ absurd (ground (arith, e, f))
      | inr (k, f) ↦
          let (x, at, own) = h.at_email email k f in
          let same : x ≡ q = ground (arith, e, f, at) in
          (
            ap (λ (y : PeerInfo Key Net). y.email) (sym same) ∙ own,
            subst (λ (y : PeerInfo Key Net). lookup (key_string y.public_key) ps.peers ≡ some y)
                same (ap (λ j. lookup j ps.peers) (h.at_key k x at).0 ∙ at),
          )
    ]

  module _ (p : Platform Key Net) where
    existing_subset_step :
        (email k : String) (ps : PeerStore Key Net) (m : Dict (PeerInfo Key Net))
        → IsOneToOne p.key_string ps
        → let m' : Dict (PeerInfo Key Net) = elim (get_by_email email ps) [
          | none ↦ m
          | some peer ↦ insert (p.key_string peer.public_key) peer m
        ] in
          lookup k m'
          ≡ (if is_touched (email ∷ []) (lookup k ps.peers) then lookup k ps.peers else lookup k m)
    existing_subset_step email k ps m h = elim (Option-cases (get_by_email email ps)) [
      | inl e ↦ elim (Option-cases (lookup k ps.peers)) [
        | inl f ↦ rw (e, f) refl
        | inr (q, f) ↦
            rw e (
              ground
                (arith, e, f, get_by_email-found p.key_string ps k q h f, eq_iff email q.email))
      ]
      | inr (t, e) ↦
          let (own, at) = get_by_email-stored p.key_string ps email t h e in
          let j = p.key_string t.public_key in
          rw e (elim (Option-cases (lookup k ps.peers)) [
            | inl f ↦ ground (arith, f, at, lookup-insert j k t m, eq_iff j k)
            | inr (q, f) ↦ ground (
              arith,
              e,
              f,
              at,
              own,
              lookup-insert j k t m,
              eq_iff j k,
              eq_iff email q.email,
              get_by_email-found p.key_string ps k q h f,
              h.at_key k q f,
            )
          ])
    ]

    pub existing_subset_lem :
        (emails : List String) (ps : PeerStore Key Net) (m : Dict (PeerInfo Key Net)) (k : String)
        → IsOneToOne p.key_string ps
        → lookup k (existing_subset p emails ps m)
          ≡ (if is_touched emails (lookup k ps.peers) then lookup k ps.peers else lookup k m)
    unfolding existing_subset
    existing_subset_lem [] ps m k h = ground (arith, Option-cases (lookup k ps.peers))
    existing_subset_lem (email ∷ emails) ps m k h =
        existing_subset_lem emails ps _ k h
        ∙ ground (arith, existing_subset_step email k ps m h, Option-cases (lookup k ps.peers))

    pub existing_subset-IsMap :
        (emails : List String) (ps : PeerStore Key Net) (m : Dict (PeerInfo Key Net))
        → IsMap m
        → IsMap (existing_subset p emails ps m)
    unfolding existing_subset
    existing_subset-IsMap [] ps m u = u
    existing_subset-IsMap (email ∷ emails) ps m u = elim (Option-cases (get_by_email email ps)) [
      | inl e ↦ rw (e, existing_subset) (existing_subset-IsMap emails ps m u)
      | inr (q, e) ↦
          rw (e, existing_subset)
            (existing_subset-IsMap emails ps (insert (p.key_string q.public_key) q m)
              (insert-IsMap (p.key_string q.public_key) q m u))
    ]

    index_by_key_lem :
        (m found : Dict (PeerInfo Key Net))
        → IsMap m
        → ((k : String) (q : PeerInfo Key Net)
            → lookup k m ≡ some q
            → p.key_string q.public_key ≡ k)
        → IsMap found
        → IsMap (index_by_key p (peer_values m) found)
          × ((k : String)
              → lookup k (index_by_key p (peer_values m) found)
                ≡ (if has_key k m then lookup k m else lookup k found))
    unfolding index_by_key lookup has_key
    index_by_key_lem [] found u own v = (v, λ k. refl)
    index_by_key_lem ((j, q) ∷ m) found u own v =
        let mine = own j q (ground (arith, eq_refl j)) in
        let j' = p.key_string q.public_key in
        let (v', found') =
          index_by_key_lem m (insert j' q found) u.1
            (λ k t e. own k t (ground (arith, e, u.0, eq_iff j k))) (insert-IsMap j' q found v) in
        (
          v',
          λ k.
              found' k
              ∙ ground (
                arith,
                lookup-insert j' k q found,
                mine,
                eq_iff j k,
                eq_iff j' k,
                u.0,
                Option-cases (lookup k m),
              ),
        )

    pub existing_by_key_lem :
        (ps : PeerStore Key Net)
        → IsSound p.key_string ps
        → IsMap (existing_by_key p ps)
          × ((k : String) → lookup k (existing_by_key p ps) ≡ lookup k ps.peers)
    unfolding has_key lookup
    existing_by_key_lem ps h =
        let (u, found) =
          index_by_key_lem ps.peers [] h.is_map (λ k q e. (h.one.at_key k q e).0) tt in
        (u, λ k. found k ∙ ground (arith, Option-cases (lookup k ps.peers)))

    -- The texts of stored keys can be parsed.
    pub existing_by_key-parsed :
        ((x : Key) → p.parse_key (p.key_string x) ≡ some x)
        → (ps : PeerStore Key Net) → IsSound p.key_string ps
        → (k : String) → has_key k (existing_by_key p ps) ≡ true
        → (x : Key) × (p.parse_key k ≡ some x)
    unfolding has_key
    existing_by_key-parsed parses ps sound k i =
        let (u, found) = existing_by_key_lem ps sound in
        elim (Option-cases (lookup k ps.peers)) [
          | inl f ↦ absurd (ground (arith, i, found k, f))
          | inr (q, f) ↦ (
            q.public_key,
            subst (λ j. p.parse_key j ≡ some q.public_key) (sound.one.at_key k q f).0
                (parses q.public_key),
          )
        ]
