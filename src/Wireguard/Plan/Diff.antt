-- ===== src/Wireguard/Plan/Diff.antt =====
-- What buildSyncDiff plans: for every key, by the peer that exists and the peer that is wanted.
use node_agent.Prelude.{
  String, ◌≡◌, ◌≢◌, inl, inr, refl, sym, ap, ◌∙◌, subst, Bool, true, Option, none, some, [], ◌∷◌,
  arith, ◌==◌, eq_iff, eq_refl, ◌&&◌, if◌then◌else◌, Option-cases, List-cases, contains,
}
use node_agent.Prelude.Dict.{Dict, lookup, has_key, IsMap}
use node_agent.Wireguard.{PeerInfo, Platform}
use node_agent.Wireguard.Plan.{
  Draft, build_add_config, build_add_config_from_peer_info, keys_of, same_ips, diff_kept,
  diff_existing, diff_new,
}

pub contains-keys_of :
    {Key Net : Type 0} (m : Dict (PeerInfo Key Net)) (k : String)
    → contains (keys_of m) k ≡ has_key k m
unfolding has_key lookup
contains-keys_of [] k = refl
contains-keys_of ((j, q) ∷ m) k = ground (arith, contains-keys_of m k)

module _ {Key Net : Type 0} (p : Platform Key Net) where
  -- The same email, and the same networks by their texts.
  abbrev pub is_unchanged : PeerInfo Key Net → PeerInfo Key Net → Bool
  is_unchanged q t = (q.email == t.email) && same_ips p q.allowed_ips t.allowed_ips

  -- What has to be put into the store under a key.
  abbrev pub upsert_for :
      Option (PeerInfo Key Net) → Option (PeerInfo Key Net) → Option (PeerInfo Key Net)
  upsert_for none wanted = wanted
  upsert_for (some q) none = none
  upsert_for (some q) (some t) = if is_unchanged q t then none else some t

  abbrev pub HaveIps : Dict (PeerInfo Key Net) → Type 0
  HaveIps m = (k : String) (t : PeerInfo Key Net) → lookup k m ≡ some t → t.allowed_ips ≢ []

  pub HaveIps-tail :
      (j : String) (t : PeerInfo Key Net) (m : Dict (PeerInfo Key Net))
      → lookup j m ≡ none
      → HaveIps ((j, t) ∷ m)
      → HaveIps m
  unfolding lookup
  HaveIps-tail j t m free h k t' e = h k t' (ground (arith, e, free, eq_iff j k))

  -- An entry in front, if there is one.
  push : String → Option (PeerInfo Key Net) → Dict (PeerInfo Key Net) → Dict (PeerInfo Key Net)
  push k none m = m
  push k (some t) m = (k, t) ∷ m

  lookup-push :
      (k asked : String) (o : Option (PeerInfo Key Net)) (m : Dict (PeerInfo Key Net))
      → lookup k m ≡ none
      → lookup asked (push k o m) ≡ (if k == asked then o else lookup asked m)
  unfolding push lookup
  lookup-push k asked none m free = ground (arith, free, eq_iff k asked)
  lookup-push k asked (some t) m free = ground arith

  push-IsMap :
      (k : String) (o : Option (PeerInfo Key Net)) (m : Dict (PeerInfo Key Net))
      → lookup k m ≡ none
      → IsMap m
      → IsMap (push k o m)
  unfolding push
  push-IsMap k none m free u = u
  push-IsMap k (some t) m free u = (free, u)

  module _ (psk : Option Key) where
    pub add_config-some :
        (t : PeerInfo Key Net)
        → t.allowed_ips ≢ []
        → build_add_config_from_peer_info t psk
          ≡ some (build_add_config t.public_key t.allowed_ips psk)
    unfolding build_add_config_from_peer_info
    add_config-some t h = elim (List-cases t.allowed_ips) [
      | inl e ↦ absurd (h e)
      | inr (net, nets, e) ↦ ground (arith, e)
    ]

    diff_new_step :
        (k : String) (t : PeerInfo Key Net) (m existing : Dict (PeerInfo Key Net))
        → t.allowed_ips ≢ []
        → ((diff_new p psk ((k, t) ∷ m) existing).upserts
            ≡ push k
                (if has_key k existing then none else some t)
                (diff_new p psk m existing).upserts)
          × ((diff_new p psk ((k, t) ∷ m) existing).removes ≡ (diff_new p psk m existing).removes)
    unfolding diff_new push
    diff_new_step k t m existing h = ground (arith, add_config-some t h)

    pub diff_new_lem :
        (m existing : Dict (PeerInfo Key Net))
        → HaveIps m
        → IsMap m
        → ((k : String)
            → lookup k (diff_new p psk m existing).upserts
              ≡ (if has_key k existing then none else lookup k m))
          × IsMap (diff_new p psk m existing).upserts
          × ((diff_new p psk m existing).removes ≡ [])
    unfolding diff_new has_key lookup
    diff_new_lem [] existing h u = (λ k. ground arith, tt, refl)
    diff_new_lem ((j, t) ∷ m) existing h u =
        let step = diff_new_step j t m existing (h j t (ground (arith, eq_refl j))) in
        let (found, distinct, removes) = diff_new_lem m existing (HaveIps-tail j t m u.0 h) u.1 in
        let L = (diff_new p psk m existing).upserts in
        let o : Option (PeerInfo Key Net) = if has_key j existing then none else some t in
        let free : lookup j L ≡ none = ground (arith, found j, u.0) in
        (
          λ k.
              ap (lookup k) step.0 ∙ lookup-push j k o L free ∙ ground (arith, found k, eq_iff j k),
          subst IsMap (sym step.0) (push-IsMap j o L free distinct),
          step.1 ∙ removes,
        )

    diff_kept_lem :
        (k : String) (q t : PeerInfo Key Net) (rest : Draft Key Net)
        → t.allowed_ips ≢ []
        → ((diff_kept p psk k q t rest).upserts
            ≡ (if is_unchanged q t then rest.upserts else (k, t) ∷ rest.upserts))
          × ((diff_kept p psk k q t rest).removes ≡ rest.removes)
    unfolding diff_kept
    diff_kept_lem k q t rest h = ground (arith, add_config-some t h)

    abbrev pub removed_for : Option (PeerInfo Key Net) → Bool → Option (PeerInfo Key Net)
    removed_for none wanted = none
    removed_for (some q) wanted = if wanted then none else some q

    diff_existing_step :
        (k : String) (q : PeerInfo Key Net) (m targets : Dict (PeerInfo Key Net))
        (rest : Draft Key Net)
        → HaveIps targets
        → let later = diff_existing p psk m targets rest in
          let out = diff_existing p psk ((k, q) ∷ m) targets rest in
          (out.upserts ≡ push k (upsert_for (some q) (lookup k targets)) later.upserts)
          × (out.removes ≡ push k (removed_for (some q) (has_key k targets)) later.removes)
    unfolding diff_existing push has_key
    diff_existing_step k q m targets rest h =
        let later = diff_existing p psk m targets rest in
        elim (Option-cases (lookup k targets)) [
          | inl e ↦ ground (arith, e)
          | inr (t, e) ↦ ground (arith, e, diff_kept_lem k q t later (h k t e))
        ]

    pub diff_existing_lem :
        (m targets : Dict (PeerInfo Key Net)) (rest : Draft Key Net)
        → HaveIps targets
        → IsMap m
        → IsMap rest.upserts
        → rest.removes ≡ []
        → ((k : String) → has_key k m ≡ true → lookup k rest.upserts ≡ none)
        → let out = diff_existing p psk m targets rest in
          ((k : String)
            → lookup k out.upserts ≡ (
                if has_key k m
                then upsert_for (lookup k m) (lookup k targets)
                else lookup k rest.upserts))
          × ((k : String) → lookup k out.removes ≡ removed_for (lookup k m) (has_key k targets))
          × IsMap out.upserts
          × IsMap out.removes
    unfolding diff_existing has_key lookup
    diff_existing_lem [] targets rest h u v r free =
        (λ k. refl, λ k. ap (lookup k) r, v, subst IsMap (sym r) tt)
    diff_existing_lem ((j, q) ∷ m) targets rest h u v r free =
        let later = diff_existing p psk m targets rest in
        let (ups, rem, um, rm) =
          diff_existing_lem m targets rest h u.1 v r (λ k e. free k (ground (arith, e))) in
        let step = diff_existing_step j q m targets rest h in
        let o = upsert_for (some q) (lookup j targets) in
        let o' = removed_for (some q) (has_key j targets) in
        let no_up : lookup j later.upserts ≡ none =
          ground (arith, ups j, u.0, free j (ground (arith, eq_refl j))) in
        let no_rem : lookup j later.removes ≡ none = ground (arith, rem j, u.0) in
        (
          λ k.
              ap (lookup k) step.0
              ∙ lookup-push j k o later.upserts no_up
              ∙ ground (arith, ups k, eq_iff j k, u.0),
          λ k.
              ap (lookup k) step.1
              ∙ lookup-push j k o' later.removes no_rem
              ∙ ground (arith, rem k, eq_iff j k, u.0),
          subst IsMap (sym step.0) (push-IsMap j o later.upserts no_up um),
          subst IsMap (sym step.1) (push-IsMap j o' later.removes no_rem rm),
        )
