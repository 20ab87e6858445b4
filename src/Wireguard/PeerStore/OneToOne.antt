-- ===== src/Wireguard/PeerStore/OneToOne.antt =====
-- The 1:1 mapping between emails and keys that the store promises.
use node_agent.Prelude.{
  String, ◌≡◌, inl, inr, refl, ap, Bool, true, false, ◌&&◌, Option, none, some, List, [], ◌∷◌,
  arith, ◌==◌, eq_iff, eq_refl, Option-cases, Bool-cases, if◌then◌else◌, not,
}
use node_agent.Prelude.Dict.{lookup, lookup-insert, lookup-delete}
use node_agent.Wireguard.{PeerInfo}
use node_agent.Wireguard.PeerStore.{
  PeerStore, new_peer_store, remove_key, remove_loop, drop_old_key, drop_old_email, put, upsert,
  upsert_loop, apply_changes,
}

module _ {Key Net : Type 0} (key_string : Key → String) where
  pub record IsOneToOne (ps : PeerStore Key Net) : Type 0 where
    pub at_key :
        (k : String) (p : PeerInfo Key Net)
        → lookup k ps.peers ≡ some p
        → (key_string p.public_key ≡ k) × (lookup p.email ps.email_to_key ≡ some k)
    pub at_email :
        (e k : String)
        → lookup e ps.email_to_key ≡ some k
        → (p : PeerInfo Key Net) × (lookup k ps.peers ≡ some p) × (p.email ≡ e)

  remove_key-IsOneToOne :
      (key : String) (p : PeerInfo Key Net) (ps : PeerStore Key Net)
      → lookup key ps.peers ≡ some p
      → IsOneToOne ps
      → IsOneToOne (remove_key key p ps)
  unfolding remove_key
  remove_key-IsOneToOne key p ps found h = record {
    at_key = λ k q e.
        let was = h.at_key k q (ground (arith, lookup-delete key k ps.peers)) in
        let own = h.at_key key p found in
        (
          was.0,
          ground (
            arith,
            was.1,
            own.1,
            eq_iff key k,
            eq_iff p.email q.email,
            lookup-delete key k ps.peers,
            lookup-delete p.email q.email ps.email_to_key,
          ),
        );
    at_email = λ e k f.
        let (q, at, own) =
          h.at_email e k (ground (arith, lookup-delete p.email e ps.email_to_key)) in
        (
          q,
          ground (
            arith,
            at,
            own,
            found,
            eq_iff key k,
            eq_iff p.email e,
            lookup-delete key k ps.peers,
            lookup-delete p.email e ps.email_to_key,
          ),
          own,
        );
  }

  pub remove_loop-IsOneToOne :
      (keys : List String) (ps : PeerStore Key Net)
      → IsOneToOne ps
      → IsOneToOne (remove_loop keys ps).1
  unfolding remove_loop
  remove_loop-IsOneToOne [] ps h = h
  remove_loop-IsOneToOne (key ∷ keys) ps h = elim (Option-cases (lookup key ps.peers)) [
    | inl e ↦ rw (e, remove_loop) (remove_loop-IsOneToOne keys ps h)
    | inr (p, e) ↦
        rw (e, remove_loop)
          (remove_loop-IsOneToOne keys (remove_key key p ps) (remove_key-IsOneToOne key p ps e h))
  ]

  -- The key that the email had, if it is this one; the email that the key had, likewise.
  abbrev pub had_key : PeerInfo Key Net → PeerStore Key Net → String → Bool
  had_key p ps k = elim (lookup p.email ps.email_to_key) [ none ↦ false | some old ↦ old == k ]

  abbrev pub is_of_email : String → Option (PeerInfo Key Net) → Bool
  is_of_email e none = false
  is_of_email e (some q) = q.email == e

  abbrev pub had_email : PeerInfo Key Net → PeerStore Key Net → String → Bool
  had_email p ps e = is_of_email e (lookup (key_string p.public_key) ps.peers)

  drop_old_key_lem :
      (p : PeerInfo Key Net) (ps : PeerStore Key Net) (k : String)
      → (lookup k (drop_old_key key_string p ps).peers ≡ (
          if had_key p ps k && not (key_string p.public_key == k) then none else lookup k ps.peers))
        × ((drop_old_key key_string p ps).email_to_key ≡ ps.email_to_key)
  unfolding drop_old_key
  drop_old_key_lem p ps k =
      let own = key_string p.public_key in
      elim (Option-cases (lookup p.email ps.email_to_key)) [
        | inl e ↦ rw (e, drop_old_key) (ground arith, refl)
        | inr (old, e) ↦
            rw (e, drop_old_key)
              (ground
                (arith, lookup-delete old k ps.peers, eq_iff old k, eq_iff old own, eq_iff own k))
      ]

  drop_old_email_lem :
      (p : PeerInfo Key Net) (ps : PeerStore Key Net) (e : String)
      → (lookup e (drop_old_email key_string p ps).email_to_key
          ≡ (if had_email p ps e && not (p.email == e) then none else lookup e ps.email_to_key))
        × ((drop_old_email key_string p ps).peers ≡ ps.peers)
  unfolding drop_old_email
  drop_old_email_lem p ps e = elim (Option-cases (lookup (key_string p.public_key) ps.peers)) [
    | inl f ↦ rw (f, drop_old_email) (ground arith, refl)
    | inr (q, f) ↦
        rw (f, drop_old_email)
          (ground (
            arith,
            lookup-delete q.email e ps.email_to_key,
            eq_iff q.email e,
            eq_iff q.email p.email,
            eq_iff p.email e,
          ))
  ]

  pub peers-upsert :
      (p : PeerInfo Key Net) (ps : PeerStore Key Net) (k : String)
      → lookup k (upsert key_string p ps).peers ≡ (
          if key_string p.public_key == k
          then some p
          else if had_key p ps k
          then none
          else lookup k ps.peers)
  unfolding upsert put
  peers-upsert p ps k =
      let ps' = drop_old_key key_string p ps in
      let own = key_string p.public_key in
      rw (lookup-insert, (drop_old_email_lem p ps' k).1, (drop_old_key_lem p ps k).0) (ground arith)

  pub email_to_key-upsert :
      (p : PeerInfo Key Net) (ps : PeerStore Key Net) (e : String)
      → lookup e (upsert key_string p ps).email_to_key ≡ (
          if p.email == e
          then some (key_string p.public_key)
          else if had_email p ps e
          then none
          else lookup e ps.email_to_key)
  unfolding upsert put
  email_to_key-upsert p ps e =
      let ps' = drop_old_key key_string p ps in
      let own = key_string p.public_key in
      let kept = drop_old_key_lem p ps own in
      let held : lookup own ps'.peers ≡ lookup own ps.peers = ground (arith, kept.0, eq_refl own) in
      rw (lookup-insert, (drop_old_email_lem p ps' e).0, kept.1, ap (is_of_email e) held)
        (ground arith)

  -- The email of a peer that another key has is that key's alone.
  pub held_elsewhere :
      (ps : PeerStore Key Net) (p q : PeerInfo Key Net) (k : String)
      → IsOneToOne ps
      → lookup k ps.peers ≡ some q
      → had_email p ps q.email ≡ true
      → key_string p.public_key ≡ k
  held_elsewhere ps p q k h at held =
      elim (Option-cases (lookup (key_string p.public_key) ps.peers)) [
        | inl e ↦ ground (arith, e, held)
        | inr (x, e) ↦ ground (
          arith,
          e,
          held,
          h.at_key (key_string p.public_key) x e,
          h.at_key k q at,
          eq_iff x.email q.email,
        )
      ]

  pub key_of_email :
      (ps : PeerStore Key Net) (p q : PeerInfo Key Net) (k : String)
      → IsOneToOne ps
      → lookup k ps.peers ≡ some q
      → had_key p ps k ≡ true
      → q.email ≡ p.email
  key_of_email ps p q k h at had = elim (Option-cases (lookup p.email ps.email_to_key)) [
    | inl e ↦ ground (arith, e, had)
    | inr (old, e) ↦
        let (x, found, own) = h.at_email p.email old e in
        ground (arith, e, had, found, own, at, eq_iff old k)
  ]

  pub upsert-IsOneToOne :
      (p : PeerInfo Key Net) (ps : PeerStore Key Net)
      → IsOneToOne ps
      → IsOneToOne (upsert key_string p ps)
  upsert-IsOneToOne p ps h = record {
    at_key = λ k q e. elim (Bool-cases (key_string p.public_key == k)) [
      | inl y ↦ ground (
        arith,
        peers-upsert p ps k,
        email_to_key-upsert p ps p.email,
        eq_iff (key_string p.public_key) k,
        eq_refl p.email,
      )
      | inr n ↦
          let at : lookup k ps.peers ≡ some q = ground (arith, peers-upsert p ps k) in
          ground (
            arith,
            peers-upsert p ps k,
            h.at_key k q at,
            held_elsewhere ps p q k h at,
            email_to_key-upsert p ps q.email,
            eq_iff p.email q.email,
            eq_iff (key_string p.public_key) k,
            eq_refl k,
          )
    ];
    at_email = λ e k f. elim (Bool-cases (p.email == e)) [
      | inl y ↦ (
        p,
        ground (
          arith,
          peers-upsert p ps k,
          email_to_key-upsert p ps e,
          eq_iff (key_string p.public_key) k,
        ),
        (eq_iff p.email e).0 y,
      )
      | inr n ↦
          let (q, at, own) = h.at_email e k (ground (arith, email_to_key-upsert p ps e)) in
          (
            q,
            ground (
              arith,
              at,
              own,
              peers-upsert p ps k,
              email_to_key-upsert p ps e,
              key_of_email ps p q k h at,
              eq_iff q.email p.email,
              eq_iff (key_string p.public_key) k,
              eq_iff p.email e,
              eq_iff q.email e,
            ),
            own,
          )
    ];
  }

  pub upsert_loop-IsOneToOne :
      (peers : List (Option (PeerInfo Key Net))) (ps : PeerStore Key Net)
      → IsOneToOne ps
      → IsOneToOne (upsert_loop key_string peers ps)
  unfolding upsert_loop
  upsert_loop-IsOneToOne [] ps h = h
  upsert_loop-IsOneToOne (none ∷ peers) ps h = upsert_loop-IsOneToOne peers ps h
  upsert_loop-IsOneToOne (some p ∷ peers) ps h =
      upsert_loop-IsOneToOne peers (upsert key_string p ps) (upsert-IsOneToOne p ps h)

  -- ApplyChanges keeps emails and keys one to one, whatever keys are removed and whatever peers are
  -- put in. Condition: they were one to one before.
  pub apply_changes-IsOneToOne :
      (remove_keys : List String) (upserts : List (Option (PeerInfo Key Net)))
      (ps : PeerStore Key Net)
      → IsOneToOne ps
      → IsOneToOne (apply_changes key_string remove_keys upserts ps).1
  unfolding apply_changes
  apply_changes-IsOneToOne remove_keys upserts ps h =
      upsert_loop-IsOneToOne upserts (remove_loop remove_keys ps).1
        (remove_loop-IsOneToOne remove_keys ps h)

  pub new_peer_store-IsOneToOne : IsOneToOne new_peer_store
  unfolding lookup
  new_peer_store-IsOneToOne = record {
    at_key = λ k p e. ground arith;
    at_email = λ e k f. ground arith;
  }
