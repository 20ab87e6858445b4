-- ===== src/Wireguard/Sync/Partial.antt =====
-- What syncUsersPartialReconcile leaves in the peer store.
pub mod Reconciled
use node_agent.Prelude.{
  String, ◌≡◌, ◌≢◌, ◌⊎◌, inl, inr, refl, sym, ap, ◌∙◌, subst, Bool, true, false, Option, none, some,
  List, [], ◌∷◌, arith, ◌==◌, eq_iff, eq_refl, Option-cases, Bool-cases, contains, if◌then◌else◌,
  map, In, ok, ◌&&◌, not,
}
use node_agent.Prelude.Dict.{Dict, lookup, has_key}
use node_agent.Common.{User, emails}
use node_agent.Wireguard.{PeerInfo, Platform}
use node_agent.Wireguard.PeerStore.{PeerStore, get_by_key, apply_changes}
use node_agent.Wireguard.PeerStore.OneToOne.{apply_changes-IsOneToOne}
use node_agent.Wireguard.PeerStore.Contents.{Apart, AreDistinct}
use node_agent.Wireguard.PeerStore.Origins.{
  apply_changes-new, apply_changes-kept, apply_changes-gone,
}
use node_agent.Wireguard.Users.{DesiredPeer, normalize_users}
use node_agent.Wireguard.Plan.{SyncDiff, peers_of, same_ips}
use node_agent.Wireguard.Plan.Diff.{is_unchanged, upsert_for}
use node_agent.Wireguard.Plan.Built.{IsPlanned, In-peers_of, peers_of-In}
use node_agent.Wireguard.Plan.Targets.{AreTargets, AreAmong, peers_of-Apart, peers_of-AreDistinct}
use node_agent.Wireguard.Sync.Existing.{IsSound, is_touched, apply_changes-IsMap}

pub In-map-some : {A : Type 0} (a : A) (xs : List A) → In a xs → In (some a) (map some xs)
In-map-some a [] i = elim i [ ]
In-map-some a (x ∷ xs) (inl e) = inl (ap some e)
In-map-some a (x ∷ xs) (inr i) = inr (In-map-some a xs i)

pub map-some-In : {A : Type 0} (a : A) (xs : List A) → In (some a) (map some xs) → In a xs
map-some-In a [] i = elim i [ ]
map-some-In a (x ∷ xs) (inl e) = inl (ground (arith, e))
map-some-In a (x ∷ xs) (inr i) = inr (map-some-In a xs i)

module _ {Key Net : Type 0} (p : Platform Key Net) where
  pub texts-same_ips :
      (xs ys : List Net) → same_ips p xs ys ≡ true → map p.net_string xs ≡ map p.net_string ys
  unfolding same_ips
  texts-same_ips [] [] e = refl
  texts-same_ips [] (y ∷ ys) e = absurd (ground (arith, e))
  texts-same_ips (x ∷ xs) [] e = absurd (ground (arith, e))
  texts-same_ips (x ∷ xs) (y ∷ ys) e =
      ground (arith, e, eq_iff (p.net_string x) (p.net_string y), texts-same_ips xs ys)

  pub same_ips-texts :
      (xs ys : List Net) → map p.net_string xs ≡ map p.net_string ys → same_ips p xs ys ≡ true
  unfolding same_ips
  same_ips-texts [] [] e = refl
  same_ips-texts [] (y ∷ ys) e = absurd (ground (arith, e))
  same_ips-texts (x ∷ xs) [] e = absurd (ground (arith, e))
  same_ips-texts (x ∷ xs) (y ∷ ys) e =
      ground (arith, e, eq_iff (p.net_string x) (p.net_string y), same_ips-texts xs ys)

  -- The store shows the peer: the same key and email, and networks with the same texts in order.
  pub record Shows (shown : Option (PeerInfo Key Net)) (t : PeerInfo Key Net) : Type 0 where
    pub peer : PeerInfo Key Net
    pub stored : shown ≡ some peer
    pub same_key : p.key_string peer.public_key ≡ p.key_string t.public_key
    pub same_email : peer.email ≡ t.email
    pub same_networks : map p.net_string peer.allowed_ips ≡ map p.net_string t.allowed_ips

  -- A new store by an old one, the emails touched and the peers wanted.
  pub record IsReconciled (touched : List String) (targets : Dict (PeerInfo Key Net))
      (old new : PeerStore Key Net) : Type 0 where
    pub shown :
        (k : String) (t : PeerInfo Key Net) → lookup k targets ≡ some t → Shows (get_by_key k new) t
    pub unwanted :
        (k : String)
        → lookup k targets ≡ none
        → get_by_key k new
          ≡ (if is_touched touched (get_by_key k old) then none else get_by_key k old)
    -- No wanted key was another user's.
    pub unshared :
        (k : String) (q t : PeerInfo Key Net)
        → lookup k targets ≡ some t
        → get_by_key k old ≡ some q
        → contains touched q.email ≡ true

  module _ (us : List User) (ps : PeerStore Key Net) (existing targets : Dict (PeerInfo Key Net))
      (diff : SyncDiff Key Net) (sound : IsSound p.key_string ps)
      (planned : IsPlanned p existing targets diff) (are : AreTargets p.key_string us targets)
      (found : (k : String)
        → lookup k existing
          ≡ (if is_touched (emails us) (lookup k ps.peers) then lookup k ps.peers else none))
      (owned : (k : String) (q t : PeerInfo Key Net)
        → lookup k targets ≡ some t
        → lookup k ps.peers ≡ some q
        → contains (emails us) q.email ≡ true) where
    among : AreAmong p.key_string planned.upserts targets
    among k t e = ground (
      arith,
      e,
      planned.upserted k,
      Option-cases (lookup k existing),
      Option-cases (lookup k targets),
    )

    abbrev new_store : PeerStore Key Net
    new_store = (apply_changes p.key_string diff.remove_keys (map some diff.upsert_peers) ps).1

    upserts-In :
        (k : String) (t : PeerInfo Key Net)
        → lookup k planned.upserts ≡ some t
        → In (some t) (map some diff.upsert_peers)
    upserts-In k t e =
        subst (λ peers. In (some t) (map some peers)) (sym planned.listed)
          (In-map-some t (peers_of planned.upserts) (peers_of-In planned.upserts k t e))

    In-upserts :
        (q : PeerInfo Key Net)
        → In (some q) (map some diff.upsert_peers)
        → (k : String) × (lookup k targets ≡ some q)
    In-upserts q i =
        let (k, e) = In-peers_of planned.upserts q planned.distinct (
          map-some-In q (peers_of planned.upserts)
            (subst (λ peers. In (some q) (map some peers)) planned.listed i)) in
        (k, among k q e)

    -- A peer that is not replaced shares nothing with those that are put in.
    stays :
        (k : String) (q : PeerInfo Key Net)
        → lookup k ps.peers ≡ some q
        → lookup k planned.upserts ≡ none
        → ((j : String) (t : PeerInfo Key Net)
            → lookup j targets ≡ some t
            → t.email ≡ q.email
            → j ≡ k)
        → contains diff.remove_keys k ≡ false
        → lookup k new_store.peers ≡ some q
    stays k q e free alone left =
        apply_changes-kept p.key_string diff.remove_keys (map some diff.upsert_peers) ps k q
          sound.one e left
          (subst (λ peers. Apart p.key_string q (map some peers)) (sym planned.listed)
            (peers_of-Apart p.key_string planned.upserts q planned.distinct (λ j t f.
              let other : j ≢ k = λ same. ground (arith, f, free, same) in
              (
                λ same.
                    other (sym (are.own_key j t (among j t f)) ∙ same ∙ (sound.one.at_key k q e).0),
                λ same. other (alone j t (among j t f) same),
              ))))

    shown_lem :
        (k : String) (t : PeerInfo Key Net)
        → lookup k targets ≡ some t
        → Shows (lookup k new_store.peers) t
    unfolding has_key
    shown_lem k t e = elim (Option-cases (lookup k planned.upserts)) [
      | inr (x, f) ↦
          let same : x ≡ t = ground (arith, e, among k x f) in
          let own = are.own_key k t e in
          record {
            peer = t;
            stored =
                ap (λ j. lookup j new_store.peers) (sym own)
                ∙ apply_changes-new p.key_string diff.remove_keys (map some diff.upsert_peers) ps t
                    sound.one
                    (subst (λ peers. AreDistinct p.key_string (map some peers)) (sym planned.listed)
                      (peers_of-AreDistinct p.key_string us planned.upserts targets planned.distinct
                        among are))
                    (upserts-In k t (f ∙ ap some same));
            same_key = refl;
            same_email = refl;
            same_networks = refl;
          }
      | inl f ↦ elim (Option-cases (lookup k existing)) [
        | inl g ↦ absurd (ground (arith, planned.upserted k, e, f, g))
        | inr (q, g) ↦
            let at : lookup k ps.peers ≡ some q = ground (arith, found k, g) in
            let same : is_unchanged p q t ≡ true =
              ground (arith, planned.upserted k, e, f, g, Bool-cases (is_unchanged p q t)) in
            let email : q.email ≡ t.email = ground (arith, same, eq_iff q.email t.email) in
            record {
              peer = q;
              stored =
                  stays k q at f (λ j t' h m. are.once j k t' t h e (m ∙ email))
                    (ground (arith, planned.removed k, e));
              same_key = (sound.one.at_key k q at).0 ∙ sym (are.own_key k t e);
              same_email = email;
              same_networks = texts-same_ips q.allowed_ips t.allowed_ips (ground (arith, same));
            }
      ]
    ]

    unwanted_lem :
        (k : String)
        → lookup k targets ≡ none
        → lookup k new_store.peers
          ≡ (if is_touched (emails us) (lookup k ps.peers) then none else lookup k ps.peers)
    unfolding has_key
    unwanted_lem k e =
        let others : (q : PeerInfo Key Net)
            → In (some q) (map some diff.upsert_peers)
            → p.key_string q.public_key ≢ k =
          λ q i same.
            let (j, f) = In-upserts q i in
            absurd (ground (arith, e, f, sym (are.own_key j q f) ∙ same)) in
        let gone =
          apply_changes-gone p.key_string diff.remove_keys (map some diff.upsert_peers) ps k in
        elim (Option-cases (lookup k ps.peers)) [
          | inl f ↦ gone (inr f) others ∙ ground (arith, f)
          | inr (q, f) ↦ elim (Bool-cases (contains (emails us) q.email)) [
            | inl y ↦
                gone (inl (ground (arith, planned.removed k, found k, e, f, y))) others
                ∙ ground (arith, f, y)
            | inr n ↦
                stays k q f (ground (arith, planned.upserted k, found k, e, f, n))
                  (λ j t h m. absurd (ground (arith, are.given j t h, n, m)))
                  (ground (arith, planned.removed k, found k, e, f, n))
                ∙ ground (arith, f, n)
          ]
        ]

    pub apply_changes-IsReconciled :
        IsReconciled (emails us) targets ps new_store × IsSound p.key_string new_store
    unfolding get_by_key
    apply_changes-IsReconciled = (
      record { shown = shown_lem; unwanted = unwanted_lem; unshared = owned },
      record {
        one =
            apply_changes-IsOneToOne p.key_string diff.remove_keys (map some diff.upsert_peers) ps
              sound.one;
        is_map =
            apply_changes-IsMap p.key_string diff.remove_keys (map some diff.upsert_peers) ps
              sound.is_map;
      },
    )
