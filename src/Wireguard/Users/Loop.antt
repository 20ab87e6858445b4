-- ===== src/Wireguard/Users/Loop.antt =====
-- The rule for an invariant of the loop of collectDesiredPeers.
use node_agent.Prelude.{
  String, ◌≡◌, inl, inr, subst, some, List, [], ◌∷◌, arith, ◌⊎◌, ◌≢◌, List-cases, Option-cases,
  Bool-cases, Result-cases, ok, true,
}
use node_agent.Prelude.Dict.{Dict, lookup, insert}
use node_agent.Common.{User}
use node_agent.Wireguard.{Platform}
use node_agent.Wireguard.Users.{
  DesiredPeer, public_key_of, peer_ips_of, should_include, Scan, scan_ips, add_desired, settle,
  collect_loop,
}

module _ {Key Net : Type 0} where
  abbrev pub peer_of : User → Key → List Net → DesiredPeer Key Net
  peer_of u key nets = record {
    email = u.email;
    public_key = public_key_of u;
    parsed_key = key;
    allowed_ip_nets = nets;
  }

  -- A user either is left out or gets a peer with the addresses scanned.
  pub settle-cases :
      (p : Platform Key Net) (u : User) (key : Key) (s : Scan Net)
      (desired result : Dict (DesiredPeer Key Net))
      → settle p u key s desired ≡ ok result
      → (desired ≡ result)
        ⊎ ((s.nets ≢ []) × (insert (public_key_of u) (peer_of u key s.nets) desired ≡ result))
  unfolding settle add_desired
  settle-cases p u key s desired result e = elim (List-cases s.nets) [
    | inl f ↦ inl (ground (arith, e, f))
    | inr (net, nets, f) ↦ elim (Bool-cases s.invalid) [
      | inl bad ↦ inl (ground (arith, e, f, bad))
      | inr good ↦ inr (
        λ z. ground (arith, f, z),
        ground (arith, e, f, good, Option-cases (lookup (public_key_of u) desired)),
      )
    ]
  ]

  module _ (p : Platform Key Net) (name : String) (pools : List Net)
      (I : List User → Dict String → Dict (DesiredPeer Key Net) → Type 0)
      (skip : (u : User) (us : List User) (seen : Dict String)
          (desired : Dict (DesiredPeer Key Net))
        → I (u ∷ us) seen desired
        → I us seen desired)
      (take : (u : User) (us : List User) (key : Key) (seen : Dict String) (s : Scan Net)
          (desired result : Dict (DesiredPeer Key Net))
        → should_include name u ≡ true
        → p.parse_key (public_key_of u) ≡ some key
        → scan_ips p pools u.email (peer_ips_of u) seen ≡ ok s
        → settle p u key s desired ≡ ok result
        → I (u ∷ us) seen desired
        → I us s.seen_ips result) where
    pub collect_loop_inv :
        (us : List User) (seen : Dict String) (desired result : Dict (DesiredPeer Key Net))
        → collect_loop p name pools us seen desired ≡ ok result
        → I us seen desired
        → (seen' : Dict String) × I [] seen' result
    unfolding collect_loop
    collect_loop_inv [] seen desired result e h =
        let same : desired ≡ result = cc in (seen, subst (I [] seen) same h)
    collect_loop_inv (u ∷ us) seen desired result e h =
        let skipped = collect_loop_inv us seen desired result in
        let left = skip u us seen desired h in
        elim (Bool-cases (should_include name u)) [
          | inr out ↦ skipped (ground (arith, e, out)) left
          | inl inside ↦ elim (Option-cases (p.parse_key (public_key_of u))) [
            | inl bad ↦ skipped (ground (arith, e, inside, bad)) left
            | inr (key, parsed) ↦
                elim (Result-cases (scan_ips p pools u.email (peer_ips_of u) seen)) [
                  | inr (x, f) ↦ absurd (ground (arith, e, inside, parsed, f))
                  | inl (s, f) ↦ elim (Result-cases (settle p u key s desired)) [
                    | inr (x, g) ↦ absurd (ground (arith, e, inside, parsed, f, g))
                    | inl (desired', g) ↦
                        collect_loop_inv us s.seen_ips desired' result
                          (ground (arith, e, inside, parsed, f, g))
                          (take u us key seen s desired desired' inside parsed f g h)
                  ]
                ]
          ]
        ]
