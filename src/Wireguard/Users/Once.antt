-- ===== src/Wireguard/Users/Once.antt =====
-- normalizeUsers leaves one user for each email, so collectDesiredPeers finds one peer for each.
use node_agent.Prelude.{
  String, ◌≡◌, inl, inr, refl, sym, ap, ◌∙◌, subst, true, false, Option, none, some, List, [], ◌∷◌,
  arith, ◌==◌, eq_iff, eq_refl, Bool-cases, ok, contains,
}
use node_agent.Prelude.Dict.{Dict, lookup, insert, lookup-insert, has_key, IsMap, insert-IsMap}
use node_agent.Common.{User, emails, AreOnce}
use node_agent.Wireguard.{Platform}
use node_agent.Wireguard.Users.Loop.{peer_of, settle-cases, collect_loop_inv}
use node_agent.Wireguard.Users.{
  DesiredPeer, public_key_of, Scan, is_incomplete, last_by_email, map_entries, normalize_users,
  settle, collect_desired_peers,
}

abbrev AreNamed : Dict User → Type 0
AreNamed [] = Unit
AreNamed ((email, u) ∷ m) = (u.email ≡ email) × AreNamed m

insert-AreNamed : (u : User) (m : Dict User) → AreNamed m → AreNamed (insert u.email u m)
unfolding insert
insert-AreNamed u [] h = (refl, tt)
insert-AreNamed u ((email, v) ∷ m) h = ground (arith, insert-AreNamed u m h.1)

last_by_email_lem :
    (us : List (Option User)) (m : Dict User)
    → IsMap m × AreNamed m
    → IsMap (last_by_email us m) × AreNamed (last_by_email us m)
unfolding last_by_email
last_by_email_lem [] m h = h
last_by_email_lem (none ∷ us) m h = last_by_email_lem us m h
last_by_email_lem (some u ∷ us) m h = elim (Bool-cases (is_incomplete u)) [
  | inl y ↦ rw (y, last_by_email) (last_by_email_lem us m h)
  | inr n ↦
      rw (n, last_by_email)
        (last_by_email_lem us (insert u.email u m)
          (insert-IsMap u.email u m h.0, insert-AreNamed u m h.1))
]

contains-emails :
    (m : Dict User) (email : String)
    → AreNamed m
    → contains (emails (map_entries m)) email ≡ has_key email m
unfolding map_entries has_key lookup
contains-emails [] email h = refl
contains-emails ((k, u) ∷ m) email h = rw h.0 (ground (arith, contains-emails m email h.1))

map_entries-AreOnce : (m : Dict User) → IsMap m → AreNamed m → AreOnce (map_entries m)
unfolding map_entries has_key
map_entries-AreOnce [] u h = tt
map_entries-AreOnce ((k, v) ∷ m) u h =
    (rw (contains-emails m v.email h.1, h.0) (ground (arith, u.0)), map_entries-AreOnce m u.1 h.1)

pub normalize_users-AreOnce : (us : List (Option User)) → AreOnce (normalize_users us)
unfolding normalize_users
normalize_users-AreOnce us =
    let (u, h) = last_by_email_lem us [] (tt, tt) in map_entries-AreOnce (last_by_email us []) u h

module _ {Key Net : Type 0} where
  -- A user has one peer at most, and those still to come have none.
  record AreSeparate (rest : List User) (desired : Dict (DesiredPeer Key Net)) : Type 0 where
    once :
        (k k' : String) (d d' : DesiredPeer Key Net)
        → lookup k desired ≡ some d
        → lookup k' desired ≡ some d'
        → d.email ≡ d'.email
        → k ≡ k'
    to_come :
        (k : String) (d : DesiredPeer Key Net)
        → lookup k desired ≡ some d
        → contains (emails rest) d.email ≡ false

  AreSeparate-tail :
      (u : User) (us : List User) (desired : Dict (DesiredPeer Key Net))
      → AreSeparate (u ∷ us) desired
      → AreSeparate us desired
  AreSeparate-tail u us desired h = record {
    once = h.once;
    to_come = λ k d e. ground (arith, h.to_come k d e);
  }

  AreSeparate-insert :
      (key : String) (peer : DesiredPeer Key Net) (u : User) (us : List User)
      (desired : Dict (DesiredPeer Key Net))
      → peer.email ≡ u.email
      → contains (emails us) u.email ≡ false
      → AreSeparate (u ∷ us) desired
      → AreSeparate us (insert key peer desired)
  AreSeparate-insert key peer u us desired own new h = record {
    once = λ k k' d d' e e' same. elim (Bool-cases (key == k)) [
      | inl y ↦ elim (Bool-cases (key == k')) [
        | inl y' ↦ sym ((eq_iff key k).0 y) ∙ (eq_iff key k').0 y'
        | inr n' ↦
            let old : lookup k' desired ≡ some d' =
              ground (arith, e', n', lookup-insert key k' peer desired) in
            absurd (
              ground (
                arith,
                h.to_come k' d' old,
                e,
                y,
                own,
                same,
                lookup-insert key k peer desired,
                eq_iff u.email d'.email,
              ))
      ]
      | inr n ↦
          let old : lookup k desired ≡ some d =
            ground (arith, e, n, lookup-insert key k peer desired) in
          elim (Bool-cases (key == k')) [
            | inr n' ↦
                h.once k k' d d' old (ground (arith, e', n', lookup-insert key k' peer desired))
                  same
            | inl y' ↦ absurd (
                ground (
                  arith,
                  h.to_come k d old,
                  e',
                  y',
                  own,
                  same,
                  lookup-insert key k' peer desired,
                  eq_iff u.email d.email,
                ))
          ]
    ];
    to_come = λ k d e. elim (Bool-cases (key == k)) [
      | inl y ↦
          let same : peer ≡ d = ground (arith, e, y, lookup-insert key k peer desired) in
          subst (λ (x : DesiredPeer Key Net). contains (emails us) x.email ≡ false) same
            (rw own new)
      | inr n ↦
          ground (arith, h.to_come k d (ground (arith, e, n, lookup-insert key k peer desired)))
    ];
  }

  -- Every peer found is that of a user given, and no user has two.
  pub record AreOfUsers (us : List User) (desired : Dict (DesiredPeer Key Net)) : Type 0 where
    pub once :
        (k k' : String) (d d' : DesiredPeer Key Net)
        → lookup k desired ≡ some d
        → lookup k' desired ≡ some d'
        → d.email ≡ d'.email
        → k ≡ k'
    pub given :
        (k : String) (d : DesiredPeer Key Net)
        → lookup k desired ≡ some d
        → contains (emails us) d.email ≡ true

  module _ (p : Platform Key Net) where
    settle-AreSeparate :
        (u : User) (us : List User) (key : Key) (s : Scan Net)
        (desired result : Dict (DesiredPeer Key Net))
        → settle p u key s desired ≡ ok result
        → contains (emails us) u.email ≡ false
        → AreSeparate (u ∷ us) desired
        → AreSeparate us result
    settle-AreSeparate u us key s desired result e new h =
        elim (settle-cases p u key s desired result e) [
          | inl same ↦ subst (AreSeparate us) same (AreSeparate-tail u us desired h)
          | inr (some_net, added) ↦
              subst (AreSeparate us) added (
                AreSeparate-insert (public_key_of u) (peer_of u key s.nets) u us desired refl new h)
        ]

    settle-given :
        (all : List User) (u : User) (key : Key) (s : Scan Net)
        (desired result : Dict (DesiredPeer Key Net))
        → settle p u key s desired ≡ ok result
        → contains (emails all) u.email ≡ true
        → ((k : String) (d : DesiredPeer Key Net)
            → lookup k desired ≡ some d
            → contains (emails all) d.email ≡ true)
        → (k : String) (d : DesiredPeer Key Net) → lookup k result ≡ some d
        → contains (emails all) d.email ≡ true
    settle-given all u key s desired result e mine h k d f =
        let own = public_key_of u in
        let peer = peer_of u key s.nets in
        elim (settle-cases p u key s desired result e) [
          | inl same ↦ h k d (ap (lookup k) same ∙ f)
          | inr (some_net, added) ↦
              let g : lookup k (insert own peer desired) ≡ some d = ap (lookup k) added ∙ f in
              elim (Bool-cases (own == k)) [
                | inr n ↦ h k d (ground (arith, g, n, lookup-insert own k peer desired))
                | inl y ↦
                    let same : peer ≡ d = ground (arith, g, y, lookup-insert own k peer desired) in
                    subst (λ (x : DesiredPeer Key Net). contains (emails all) x.email ≡ true) same
                      mine
              ]
        ]

    pub collect_desired_peers-AreOfUsers :
        (name : String) (pools : List Net) (us : List User) (desired : Dict (DesiredPeer Key Net))
        → collect_desired_peers p name pools us ≡ ok desired
        → AreOnce us
        → AreOfUsers us desired
    unfolding lookup
    collect_desired_peers-AreOfUsers name pools us desired e o =
        let (seen, separate) =
          collect_loop_inv p name pools (λ rest seen found. AreOnce rest × AreSeparate rest found)
            (λ u rest seen found h. (h.0.1, AreSeparate-tail u rest found h.1))
            (λ u rest key seen s found found' may parsed f g h.
              (h.0.1, settle-AreSeparate u rest key s found found' g h.0.0 h.1))
            us [] [] desired e
            (
              o,
              record {
                once = λ k k' d d' f. absurd (ground (arith, f));
                to_come = λ k d f. absurd (ground (arith, f));
              },
            ) in
        let (seen', given) =
          collect_loop_inv p name pools
            (λ rest seen found.
              ((email : String)
                → contains (emails rest) email ≡ true
                → contains (emails us) email ≡ true)
              × ((k : String) (d : DesiredPeer Key Net)
                  → lookup k found ≡ some d
                  → contains (emails us) d.email ≡ true))
            (λ u rest seen found h. (λ email i. h.0 email (ground (arith, i)), h.1))
            (λ u rest key seen s found found' may parsed f g h. (
              λ email i. h.0 email (ground (arith, i)),
              settle-given us u key s found found' g (h.0 u.email (ground (arith, eq_refl u.email)))
                  h.1,
            ))
            us [] [] desired e (λ email i. i, λ k d f. absurd (ground (arith, f))) in
        record { once = separate.1.once; given = given.1 }
