-- ===== src/Wireguard/Plan/Targets.antt =====
-- The peers wanted: no two share a key or an email, so the store takes them all.
use node_agent.Prelude.{
  String, ◌≡◌, ◌≢◌, inl, inr, sym, ap, ◌∙◌, subst, true, some, List, [], ◌∷◌, arith, eq_iff,
  eq_refl, Option-cases, contains, map,
}
use node_agent.Prelude.Dict.{Dict, lookup, IsMap, lookup-map_values}
use node_agent.Common.{User, emails}
use node_agent.Wireguard.{PeerInfo, Platform}
use node_agent.Wireguard.PeerStore.Contents.{Differ, Apart, AreDistinct}
use node_agent.Wireguard.Users.{DesiredPeer}
use node_agent.Wireguard.Users.Collected.{IsCollected}
use node_agent.Wireguard.Plan.{target_of, peers_of}
use node_agent.Wireguard.Plan.Diff.{HaveIps}
use node_agent.Wireguard.Plan.Built.{targets_of}

module _ {Key Net : Type 0} where
  -- The text of every wanted key is the one that the key itself prints.
  abbrev pub AreCanonical : (Key → String) → Dict (DesiredPeer Key Net) → Type 0
  AreCanonical key_string desired =
      (k : String) (d : DesiredPeer Key Net)
      → lookup k desired ≡ some d
      → key_string d.parsed_key ≡ k

  pub record AreTargets (key_string : Key → String) (us : List User)
      (targets : Dict (PeerInfo Key Net)) : Type 0 where
    pub own_key :
        (k : String) (t : PeerInfo Key Net)
        → lookup k targets ≡ some t
        → key_string t.public_key ≡ k
    pub once :
        (k k' : String) (t t' : PeerInfo Key Net)
        → lookup k targets ≡ some t
        → lookup k' targets ≡ some t'
        → t.email ≡ t'.email
        → k ≡ k'
    pub given :
        (k : String) (t : PeerInfo Key Net)
        → lookup k targets ≡ some t
        → contains (emails us) t.email ≡ true

  pub lookup-targets_of :
      (desired : Dict (DesiredPeer Key Net)) (k : String) (t : PeerInfo Key Net)
      → lookup k (targets_of desired) ≡ some t
      → (d : DesiredPeer Key Net) × (lookup k desired ≡ some d) × (target_of d ≡ t)
  lookup-targets_of desired k t e =
      let same = lookup-map_values target_of k desired in
      elim (Option-cases (lookup k desired)) [
        | inl f ↦ absurd (ground (arith, same, e, f))
        | inr (d, f) ↦ (d, f, ground (arith, same, e, f))
      ]

  module _ (p : Platform Key Net) (pools : List Net) (us : List User) where
    pub targets_of-AreTargets :
        (desired : Dict (DesiredPeer Key Net))
        → IsCollected p pools us desired
        → AreCanonical p.key_string desired
        → AreTargets p.key_string us (targets_of desired)
    targets_of-AreTargets desired h c = record {
      own_key = λ k t e.
          let (d, f, same) = lookup-targets_of desired k t e in
          ap (λ (x : PeerInfo Key Net). p.key_string x.public_key) (sym same) ∙ c k d f;
      once = λ k k' t t' e e' m.
          let (d, f, same) = lookup-targets_of desired k t e in
          let (d', f', same') = lookup-targets_of desired k' t' e' in
          h.of_users.once k k' d d' f f' (
            ap (λ (x : PeerInfo Key Net). x.email) same
            ∙ m
            ∙ sym (ap (λ (x : PeerInfo Key Net). x.email) same'));
      given = λ k t e.
          let (d, f, same) = lookup-targets_of desired k t e in
          subst (λ (x : PeerInfo Key Net). contains (emails us) x.email ≡ true) same
            (h.of_users.given k d f);
    }

    pub targets_of-HaveIps :
        (desired : Dict (DesiredPeer Key Net))
        → IsCollected p pools us desired
        → HaveIps p (targets_of desired)
    targets_of-HaveIps desired h k t e =
        let (d, f, same) = lookup-targets_of desired k t e in
        subst (λ (x : PeerInfo Key Net). x.allowed_ips ≢ []) same (h.checked k d f).has_net

  module _ (key_string : Key → String) where
    pub peers_of-Apart :
        (m : Dict (PeerInfo Key Net)) (q : PeerInfo Key Net)
        → IsMap m
        → ((k : String) (t : PeerInfo Key Net) → lookup k m ≡ some t → Differ key_string t q)
        → Apart key_string q (map some (peers_of m))
    unfolding lookup
    peers_of-Apart [] q u h = tt
    peers_of-Apart ((j, t) ∷ m) q u h = (
      h j t (ground (arith, eq_refl j)),
      peers_of-Apart m q u.1 (λ k t' e. h k t' (ground (arith, e, u.0, eq_iff j k))),
    )

    -- Some of the targets.
    abbrev pub AreAmong : Dict (PeerInfo Key Net) → Dict (PeerInfo Key Net) → Type 0
    AreAmong m targets =
        (k : String) (t : PeerInfo Key Net) → lookup k m ≡ some t → lookup k targets ≡ some t

    pub peers_of-AreDistinct :
        (us : List User) (m targets : Dict (PeerInfo Key Net))
        → IsMap m
        → AreAmong m targets
        → AreTargets key_string us targets
        → AreDistinct key_string (map some (peers_of m))
    unfolding lookup
    peers_of-AreDistinct us [] targets u a h = tt
    peers_of-AreDistinct us ((j, t) ∷ m) targets u a h =
        let mine = a j t (ground (arith, eq_refl j)) in
        let others : AreAmong m targets = λ k t' e. a k t' (ground (arith, e, u.0, eq_iff j k)) in
        (
          peers_of-Apart m t u.1 (λ k t' e.
              let other : k ≢ j = λ same. ground (arith, e, u.0, same) in
              (
                λ same. other (sym (h.own_key k t' (others k t' e)) ∙ same ∙ h.own_key j t mine),
                λ same. other (h.once k j t' t (others k t' e) mine same),
              )),
          peers_of-AreDistinct us m targets u.1 others h,
        )
