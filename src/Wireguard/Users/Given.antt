-- ===== src/Wireguard/Users/Given.antt =====
-- Which user a desired peer is of, and what allows its addresses, in terms of the user and of the
-- interface's networks alone.
use node_agent.Prelude.{
  ◌≤◌, String, ◌≡◌, ◌≢◌, ◌⊎◌, inl, inr, refl, sym, ap, ◌∙◌, subst, Bool, true, false, some, List,
  [], ◌∷◌, arith, ◌==◌, eq_iff, List-cases, Option-cases, Bool-cases, Result-cases, ok, contains,
  In,
}
use node_agent.Prelude.Dict.{Dict, lookup, insert, lookup-insert}
use node_agent.Common.{User, Proxy, Wireguard}
use node_agent.Wireguard.{Platform}
use node_agent.Wireguard.Users.Desired.{collect_desired_peers-IsChecked}
use node_agent.Wireguard.Users.Loop.{peer_of, settle-cases, collect_loop_inv}
use node_agent.Wireguard.Users.{
  DesiredPeer, public_key_of, peer_ips_of, in_some_pool, peer_ip_allowed_on_interface, Scan,
  scan_ips, settle, collect_desired_peers,
}

module _ {Key Net : Type 0} (p : Platform Key Net) where
  -- The network lies in one of the interface's, if these are known.
  abbrev pub IsInside : List Net → Net → Type 0
  IsInside pools net =
      (pools ≡ [])
      ⊎ ((pool : Net) × In pool pools
          × (p.ip_length net ≡ p.ip_length pool)
          × (p.covers pool net ≡ true)
          × (p.prefix_length pool ≤ p.prefix_length net))

  in_some_pool_lem :
      (net : Net) (pools : List Net)
      → in_some_pool p net pools ≡ true
      → (pool : Net) × In pool pools
        × (p.ip_length net ≡ p.ip_length pool)
        × (p.covers pool net ≡ true)
        × (p.prefix_length pool ≤ p.prefix_length net)
  unfolding in_some_pool
  in_some_pool_lem net [] e = absurd (ground (arith, e))
  in_some_pool_lem net (pool ∷ pools) e = elim (Bool-cases (in_some_pool p net pools)) [
    | inl later ↦
        let (q, i, size, covered, shorter) = in_some_pool_lem net pools later in
        (q, inr i, size, covered, shorter)
    | inr n ↦ (pool, inl refl, ground (arith, e, n), ground (arith, e, n), ground (arith, e, n))
  ]

  pub peer_ip_allowed-IsInside :
      (net : Net) (pools : List Net)
      → peer_ip_allowed_on_interface p net pools ≡ true
      → IsInside pools net
  unfolding peer_ip_allowed_on_interface
  peer_ip_allowed-IsInside net [] e = inl refl
  peer_ip_allowed-IsInside net (pool ∷ pools) e = inr (in_some_pool_lem net (pool ∷ pools) e)

  -- A peer of a user who may use the interface: under the key of the user's message, with networks
  -- that the user's addresses name.
  pub record IsGiven (name : String) (us : List User) (k : String) (d : DesiredPeer Key Net)
      : Type 0 where
    pub user : User
    pub listed : In user us
    pub may_use : contains user.inbounds name ≡ true
    pub email : d.email ≡ user.email
    pub proxies : Proxy
    pub has_proxies : user.proxies ≡ some proxies
    pub wireguard : Wireguard
    pub has_wireguard : proxies.wireguard ≡ some wireguard
    pub key : wireguard.public_key ≡ k
    pub named :
        (net : Net)
        → In net d.allowed_ip_nets
        → (ip : String) × In ip wireguard.peer_ips × (p.parse_cidr ip ≡ some net)

  -- Every network of a scan is named by an address that was scanned.
  abbrev AreNamedBy : List String → Scan Net → Type 0
  AreNamedBy ips s =
      (net : Net) → In net s.nets → (ip : String) × In ip ips × (p.parse_cidr ip ≡ some net)

  none-AreNamedBy :
      (ips : List String) (seen : Dict String) (broken : Bool) (s : Scan Net)
      → record { seen_ips = seen; nets = []; invalid = broken } ≡ s
      → AreNamedBy ips s
  none-AreNamedBy ips seen broken s e = subst (AreNamedBy ips) e (λ net i. elim i [ ])

  one_more :
      (ip : String) (ips : List String) (s : Scan Net) → AreNamedBy ips s → AreNamedBy (ip ∷ ips) s
  one_more ip ips s h net i = let (text, j, e) = h net i in (text, inr j, e)

  scan_ips-AreNamedBy :
      (pools : List Net) (email : String) (ips : List String) (seen : Dict String) (s : Scan Net)
      → scan_ips p pools email ips seen ≡ ok s
      → AreNamedBy ips s
  unfolding scan_ips
  scan_ips-AreNamedBy pools email [] seen s e = none-AreNamedBy [] seen false s (cc)
  scan_ips-AreNamedBy pools email (ip ∷ ips) seen s e = elim (Option-cases (p.parse_cidr ip)) [
    | inl bad ↦ none-AreNamedBy (ip ∷ ips) seen true s (ground (arith, e, bad))
    | inr (net, good) ↦ elim (Bool-cases (peer_ip_allowed_on_interface p net pools)) [
      | inr out ↦
          one_more ip ips s
            (scan_ips-AreNamedBy pools email ips seen s (ground (arith, e, good, out)))
      | inl inside ↦
          let text = p.net_string net in
          elim (Result-cases (scan_ips p pools email ips (insert text email seen))) [
            | inr (x, f) ↦
                absurd (ground (arith, e, good, inside, f, Option-cases (lookup text seen)))
            | inl (rest, f) ↦
                let result : record rest { nets = net ∷ rest.nets } ≡ s =
                  ground (arith, e, good, inside, f, Option-cases (lookup text seen)) in
                let later = scan_ips-AreNamedBy pools email ips (insert text email seen) rest f in
                subst (AreNamedBy (ip ∷ ips)) result (λ n i. elim i [
                  | inl same ↦ (ip, inl refl, good ∙ ap some (sym same))
                  | inr j ↦ let (t, l, g) = later n j in (t, inr l, g)
                ])
          ]
    ]
  ]

  module _ (name : String) (pools : List Net) (all : List User) where
    abbrev AllGiven : List User → Dict (DesiredPeer Key Net) → Type 0
    AllGiven rest desired =
        ((v : User) → In v rest → In v all)
        × ((k : String) (d : DesiredPeer Key Net)
            → lookup k desired ≡ some d
            → IsGiven name all k d)

    peer_of-IsGiven :
        (u : User) (key : Key) (nets : List Net)
        → In u all
        → contains u.inbounds name ≡ true
        → nets ≢ []
        → ((net : Net)
            → In net nets
            → (ip : String) × In ip (peer_ips_of u) × (p.parse_cidr ip ≡ some net))
        → IsGiven name all (public_key_of u) (peer_of u key nets)
    peer_of-IsGiven u key nets i may some_net named = elim (List-cases nets) [
      | inl e ↦ absurd (some_net e)
      | inr (net, more, e) ↦
          let (ip, j, parsed) = named net (subst (In net) (sym e) (inl refl)) in
          elim (Option-cases u.proxies) [
            | inl f ↦
                let none_left : peer_ips_of u ≡ [] = ground (arith, f) in
                elim (subst (In ip) none_left j)
                  as (λ _. IsGiven name all (public_key_of u) (peer_of u key nets)) [ ]
            | inr (proxies, f) ↦ elim (Option-cases proxies.wireguard) [
              | inl g ↦
                  let none_left : peer_ips_of u ≡ [] = ground (arith, f, g) in
                  elim (subst (In ip) none_left j)
                    as (λ _. IsGiven name all (public_key_of u) (peer_of u key nets)) [ ]
              | inr (w, g) ↦
                  let ips : peer_ips_of u ≡ w.peer_ips = ground (arith, f, g) in
                  record {
                    user = u;
                    listed = i;
                    may_use = may;
                    email = refl;
                    proxies = proxies;
                    has_proxies = f;
                    wireguard = w;
                    has_wireguard = g;
                    key = ground (arith, f, g);
                    named = λ n l. let (t, m, h) = named n l in (t, subst (In t) ips m, h);
                  }
            ]
          ]
    ]

    AllGiven-settle :
        (u : User) (us : List User) (key : Key) (s : Scan Net)
        (desired result : Dict (DesiredPeer Key Net))
        → contains u.inbounds name ≡ true
        → AreNamedBy (peer_ips_of u) s
        → settle p u key s desired ≡ ok result
        → AllGiven (u ∷ us) desired
        → AllGiven us result
    AllGiven-settle u us key s desired result may named e h =
        elim (settle-cases p u key s desired result e) [
          | inl same ↦ (
            λ v i. h.0 v (inr i),
            subst
                (λ m.
                  (k : String) (d : DesiredPeer Key Net)
                  → lookup k m ≡ some d
                  → IsGiven name all k d)
                same h.1,
          )
          | inr (some_net, added) ↦
              let own = public_key_of u in
              let peer = peer_of u key s.nets in
              let mine = peer_of-IsGiven u key s.nets (h.0 u (inl refl)) may some_net named in
              (
                λ v i. h.0 v (inr i),
                λ k d f.
                    let g : lookup k (insert own peer desired) ≡ some d = rw added f in
                    elim (Bool-cases (own == k)) [
                      | inl y ↦
                          let same : peer ≡ d =
                            ground (arith, g, y, lookup-insert own k peer desired) in
                          subst (IsGiven name all k) same
                            (subst (λ j. IsGiven name all j peer) ((eq_iff own k).0 y) mine)
                      | inr n ↦ h.1 k d (ground (arith, g, n, lookup-insert own k peer desired))
                    ],
              )
        ]

  -- Every peer that collectDesiredPeers returns is that of a user given who may use the interface: it
  -- stands under the key of the user's message, which was parsed, with the user's email. It has a
  -- network; each of them is named by one of the user's addresses, and lies in a network of the
  -- interface, if it has some, of the same length and no longer a prefix. And no network stands, by
  -- its text, in the peers of two users.
  pub collect_desired_peers-IsGiven :
      (name : String) (pools : List Net) (us : List User) (desired : Dict (DesiredPeer Key Net))
      → collect_desired_peers p name pools us ≡ ok desired
      → ((k : String) (d : DesiredPeer Key Net)
          → lookup k desired ≡ some d
          → IsGiven name us k d
            × (p.parse_key k ≡ some d.parsed_key)
            × (d.allowed_ip_nets ≢ [])
            × ((net : Net) → In net d.allowed_ip_nets → IsInside pools net))
        × ((k k' : String) (d d' : DesiredPeer Key Net) (net net' : Net)
            → lookup k desired ≡ some d
            → lookup k' desired ≡ some d'
            → In net d.allowed_ip_nets
            → In net' d'.allowed_ip_nets
            → p.net_string net ≡ p.net_string net'
            → d.email ≡ d'.email)
  unfolding lookup
  collect_desired_peers-IsGiven name pools us desired e =
      let (checked, apart) = collect_desired_peers-IsChecked p pools name us desired e in
      let start : AllGiven name pools us us [] = (λ v i. i, λ k d f. absurd (ground (arith, f))) in
      let (seen, given) =
        collect_loop_inv p name pools (λ rest seen found. AllGiven name pools us rest found)
          (λ u rest seen found h. (λ v i. h.0 v (inr i), h.1))
          (λ u rest key seen s found found' may parsed f g h.
            AllGiven-settle name pools us u rest key s found found' may
              (scan_ips-AreNamedBy pools u.email (peer_ips_of u) seen s f) g h)
          us [] [] desired e start in
      (
        λ k d f.
            let c = checked k d f in
            (
              given.1 k d f,
              c.parsed,
              c.has_net,
              λ net i. peer_ip_allowed-IsInside net pools (c.allowed net i),
            ),
        apart,
      )
