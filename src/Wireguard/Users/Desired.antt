-- ===== src/Wireguard/Users/Desired.antt =====
-- What collectDesiredPeers has checked of the peers that it returns.
use node_agent.Prelude.{
  String, ◌≡◌, ◌≢◌, ◌⊎◌, inl, inr, refl, sym, ap, ◌∙◌, subst, Bool, true, false, none, some, List,
  [], ◌∷◌, arith, ◌==◌, eq_iff, eq_refl, Option-cases, Bool-cases, Result-cases, ok, In,
}
use node_agent.Prelude.Dict.{Dict, lookup, insert, lookup-insert}
use node_agent.Common.{User}
use node_agent.Wireguard.{Platform}
use node_agent.Wireguard.Users.Loop.{peer_of, settle-cases, collect_loop_inv}
use node_agent.Wireguard.Users.{
  DesiredPeer, public_key_of, peer_ips_of, peer_ip_allowed_on_interface, Scan, scan_ips, settle,
  collect_desired_peers,
}

module _ {Key Net : Type 0} (p : Platform Key Net) (pools : List Net) where
  -- What a desired peer has been checked for.
  pub record IsChecked (k : String) (d : DesiredPeer Key Net) : Type 0 where
    pub parsed : p.parse_key k ≡ some d.parsed_key
    pub named : d.public_key ≡ k
    pub allowed :
        (net : Net) → In net d.allowed_ip_nets → peer_ip_allowed_on_interface p net pools ≡ true
    pub has_net : d.allowed_ip_nets ≢ []

  -- The addresses seen are those of the peers found, under the emails of these.
  record Claims (seen : Dict String) (desired : Dict (DesiredPeer Key Net)) : Type 0 where
    checked : (k : String) (d : DesiredPeer Key Net) → lookup k desired ≡ some d → IsChecked k d
    claimed :
        (k : String) (d : DesiredPeer Key Net) (net : Net)
        → lookup k desired ≡ some d
        → In net d.allowed_ip_nets
        → lookup (p.net_string net) seen ≡ some d.email

  -- A scan keeps what was seen, and what it returns is seen and allowed.
  record Scanned (email : String) (seen : Dict String) (s : Scan Net) : Type 0 where
    kept :
        (text other : String) → lookup text seen ≡ some other → lookup text s.seen_ips ≡ some other
    mine : (net : Net) → In net s.nets → lookup (p.net_string net) s.seen_ips ≡ some email
    allowed : (net : Net) → In net s.nets → peer_ip_allowed_on_interface p net pools ≡ true

  -- The scan goes on after an address that is the user's own or nobody's.
  scan-take :
      (email : String) (net : Net) (seen : Dict String) (s : Scan Net)
      → (lookup (p.net_string net) seen ≡ none) ⊎ (lookup (p.net_string net) seen ≡ some email)
      → peer_ip_allowed_on_interface p net pools ≡ true
      → Scanned email (insert (p.net_string net) email seen) s
      → Scanned email seen (record s { nets = net ∷ s.nets })
  scan-take email net seen s own ok_net h =
      let text = p.net_string net in
      record {
        kept = λ t other e.
            h.kept t other (ground (arith, own, e, lookup-insert text t email seen, eq_iff text t));
        mine = λ n i. elim i [
          | inl e ↦
              ap (λ (x : Net). lookup (p.net_string x) s.seen_ips) e
              ∙ h.kept text email (ground (arith, lookup-insert text text email seen, eq_refl text))
          | inr j ↦ h.mine n j
        ];
        allowed = λ n i. elim i [
          | inl e ↦ subst (λ x. peer_ip_allowed_on_interface p x pools ≡ true) (sym e) ok_net
          | inr j ↦ h.allowed n j
        ];
      }

  ended-Scanned :
      (email : String) (seen : Dict String) (broken : Bool) (s : Scan Net)
      → record { seen_ips = seen; nets = []; invalid = broken } ≡ s
      → Scanned email seen s
  ended-Scanned email seen broken s e =
      subst (Scanned email seen) e
        (record { kept = λ t o h. h; mine = λ n i. elim i [ ]; allowed = λ n i. elim i [ ] })

  scan_ips-Scanned :
      (email : String) (ips : List String) (seen : Dict String) (s : Scan Net)
      → scan_ips p pools email ips seen ≡ ok s
      → Scanned email seen s
  unfolding scan_ips
  scan_ips-Scanned email [] seen s e = ended-Scanned email seen false s (cc)
  scan_ips-Scanned email (ip ∷ ips) seen s e = elim (Option-cases (p.parse_cidr ip)) [
    | inl bad ↦ ended-Scanned email seen true s (ground (arith, e, bad))
    | inr (net, good) ↦ elim (Bool-cases (peer_ip_allowed_on_interface p net pools)) [
      | inr out ↦ scan_ips-Scanned email ips seen s (ground (arith, e, good, out))
      | inl inside ↦
          let text = p.net_string net in
          elim (Result-cases (scan_ips p pools email ips (insert text email seen))) [
            | inr (x, f) ↦
                absurd (ground (arith, e, good, inside, f, Option-cases (lookup text seen)))
            | inl (rest, f) ↦
                let own : (lookup text seen ≡ none) ⊎ (lookup text seen ≡ some email) =
                  elim (Option-cases (lookup text seen)) [
                    | inl new ↦ inl new
                    | inr (other, old) ↦
                        inr (ground (arith, e, good, inside, f, old, eq_iff other email))
                  ] in
                let result : record rest { nets = net ∷ rest.nets } ≡ s =
                  ground (arith, e, good, inside, f, own, eq_refl email) in
                subst (Scanned email seen) result (
                  scan-take email net seen rest own inside
                    (scan_ips-Scanned email ips (insert text email seen) rest f))
          ]
    ]
  ]

  Claims-grow :
      (email : String) (seen : Dict String) (s : Scan Net) (desired : Dict (DesiredPeer Key Net))
      → Scanned email seen s
      → Claims seen desired
      → Claims s.seen_ips desired
  Claims-grow email seen s desired h c = record {
    checked = c.checked;
    claimed = λ k d net e i. h.kept (p.net_string net) d.email (c.claimed k d net e i);
  }

  -- Adding the peer of a user whose addresses were scanned.
  Claims-insert :
      (u : User) (key : Key) (seen : Dict String) (s : Scan Net)
      (desired : Dict (DesiredPeer Key Net))
      → p.parse_key (public_key_of u) ≡ some key
      → s.nets ≢ []
      → Scanned u.email seen s
      → Claims seen desired
      → Claims s.seen_ips (insert (public_key_of u) (peer_of u key s.nets) desired)
  Claims-insert u key seen s desired parsed some_net h c =
      let own = public_key_of u in
      let peer = peer_of u key s.nets in
      let grown = Claims-grow u.email seen s desired h c in
      let mine : IsChecked own peer = record {
        parsed = parsed;
        named = refl;
        allowed = h.allowed;
        has_net = some_net;
      } in
      record {
        checked = λ k d e. elim (Bool-cases (own == k)) [
          | inl y ↦
              let same : peer ≡ d = ground (arith, e, y, lookup-insert own k peer desired) in
              subst (λ x. IsChecked k x) same
                (subst (λ x. IsChecked x peer) ((eq_iff own k).0 y) mine)
          | inr n ↦ c.checked k d (ground (arith, e, n, lookup-insert own k peer desired))
        ];
        claimed = λ k d net e i. elim (Bool-cases (own == k)) [
          | inl y ↦
              let same : peer ≡ d = ground (arith, e, y, lookup-insert own k peer desired) in
              let j : In net s.nets =
                subst (λ (x : DesiredPeer Key Net). In net x.allowed_ip_nets) (sym same) i in
              h.mine net j ∙ ap (λ (x : DesiredPeer Key Net). some x.email) same
          | inr n ↦ grown.claimed k d net (ground (arith, e, n, lookup-insert own k peer desired)) i
        ];
      }

  settle-Claims :
      (u : User) (key : Key) (seen : Dict String) (s : Scan Net)
      (desired result : Dict (DesiredPeer Key Net))
      → p.parse_key (public_key_of u) ≡ some key
      → settle p u key s desired ≡ ok result
      → Scanned u.email seen s
      → Claims seen desired
      → Claims s.seen_ips result
  settle-Claims u key seen s desired result parsed e h c =
      elim (settle-cases p u key s desired result e) [
        | inl same ↦ subst (Claims s.seen_ips) same (Claims-grow u.email seen s desired h c)
        | inr (some_net, added) ↦
            subst (Claims s.seen_ips) added (Claims-insert u key seen s desired parsed some_net h c)
      ]

  -- Every peer that collectDesiredPeers returns stands under the user's own key, which was parsed, and
  -- has an address, each of them allowed on the interface; and no address stands in the peers of two
  -- users.
  pub collect_desired_peers-IsChecked :
      (name : String) (us : List User) (desired : Dict (DesiredPeer Key Net))
      → collect_desired_peers p name pools us ≡ ok desired
      → ((k : String) (d : DesiredPeer Key Net) → lookup k desired ≡ some d → IsChecked k d)
        × ((k k' : String) (d d' : DesiredPeer Key Net) (net net' : Net)
            → lookup k desired ≡ some d
            → lookup k' desired ≡ some d'
            → In net d.allowed_ip_nets
            → In net' d'.allowed_ip_nets
            → p.net_string net ≡ p.net_string net'
            → d.email ≡ d'.email)
  unfolding lookup
  collect_desired_peers-IsChecked name us desired e =
      let start : Claims [] [] = record {
        checked = λ k d f. absurd (ground (arith, f));
        claimed = λ k d net f i. absurd (ground (arith, f));
      } in
      let (seen, c) =
        collect_loop_inv p name pools (λ us' seen found. Claims seen found)
          (λ u us' seen found h. h)
          (λ u us' key seen s found found' may parsed f g h.
            settle-Claims u key seen s found found' parsed g
              (scan_ips-Scanned u.email (peer_ips_of u) seen s f) h)
          us [] [] desired e start in
      (
        c.checked,
        λ k k' d d' net net' f f' i i' same.
            cc (c.claimed k d net f i, c.claimed k' d' net' f' i', same),
      )
