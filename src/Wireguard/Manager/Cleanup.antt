-- ===== src/Wireguard/Manager/Cleanup.antt =====
-- What is left of an interface that could not be set up, or is closed.
use node_agent.Prelude.{
  String, ◌≡◌, ◌⊎◌, inl, inr, refl, ◌∙◌, false, List, [], ◌∷◌, In, if◌then◌else◌, arith, Bool-cases,
  Result-cases, ok, err,
}
use node_agent.Prelude.Int.{ℤ}
use node_agent.Wireguard.{PeerConfig}
use node_agent.Wireguard.Manager.{
  DeviceConfig, link_not_found, lookup_failed, Kernel, Manager, Step, no_client,
  build_initial_config, cleanup_existing_interface, parse_addrs, set_up, create_link,
  initialize_with_peers, apply_config, apply_peers_replace_all, close,
}

module _ {Key Net Addr Link H : Type 0} where
  -- A deletion that succeeds leaves no link of the name, and a refused addition changes none.
  pub record IsKernel (k : Kernel Key Net Addr Link H) : Type 0 where
    pub deletes :
        (name : String) (h : H) (link : Link)
        → k.link_by_name name h ≡ ok link
        → (k.link_del link h).0 ≡ ok tt
        → k.link_by_name name (k.link_del link h).1 ≡ err link_not_found
    pub refuses :
        (name : String) (h : H) (text : String)
        → (k.link_add name h).0 ≡ err text
        → k.link_by_name name (k.link_add name h).1 ≡ k.link_by_name name h

  module _ (k : Kernel Key Net Addr Link H) where
    -- No link of the name is left, or it could not be looked up, or its deletion has just failed.
    abbrev pub IsCleared : String → H → Type 0
    IsCleared name h =
        (k.link_by_name name h ≡ err link_not_found)
        ⊎ ((text : String) × (k.link_by_name name h ≡ err (lookup_failed text)))
        ⊎ ((before : H) × (link : Link) × (text : String) × (k.link_by_name name before ≡ ok link)
            × ((k.link_del link before).0 ≡ err text)
            × ((k.link_del link before).1 ≡ h))

    -- Why InitializeWithPeers does not begin.
    abbrev pub CannotBegin : List String → Manager H → Type 0
    CannotBegin ips m =
        (m.client ≡ false)
        ⊎ ((ip : String) × (text : String) × In ip ips × (k.parse_addr ip ≡ err text))

    parse_addrs-refused :
        (ips : List String) {text : String}
        → parse_addrs k ips ≡ err text
        → (ip : String) × (why : String) × In ip ips × (k.parse_addr ip ≡ err why)
    unfolding parse_addrs
    parse_addrs-refused [] e = absurd (ground (arith, e))
    parse_addrs-refused (ip ∷ ips) e = elim (Result-cases (k.parse_addr ip)) [
      | inr (why, f) ↦ (ip, why, inl refl, f)
      | inl (addr, f) ↦ elim (Result-cases (parse_addrs k ips)) [
        | inl (addrs, g) ↦ absurd (ground (arith, e, f, g))
        | inr (why, g) ↦
            let (other, why', i, h) = parse_addrs-refused ips g in (other, why', inr i, h)
      ]
    ]

    module _ (law : IsKernel k) where
      cleanup_existing_interface_lem :
          (name : String) (h : H)
          → IsCleared name (cleanup_existing_interface k name h).1
            × ((cleanup_existing_interface k name h).0 ≡ ok tt
                → k.link_by_name name (cleanup_existing_interface k name h).1 ≡ err link_not_found)
      unfolding cleanup_existing_interface
      cleanup_existing_interface_lem name h = elim (Result-cases (k.link_by_name name h)) [
        | inl (link, e) ↦ elim (Result-cases (k.link_del link h).0) [
          | inl (u, f) ↦
              let gone = law.deletes name h link e f in
              rw (e, cleanup_existing_interface) (inl gone, λ _. gone)
          | inr (text, f) ↦
              rw (e, cleanup_existing_interface)
                (inr (inr (h, link, text, e, f, refl)), λ d. absurd (ground (arith, d, f)))
        ]
        | inr (link_not_found, e) ↦ rw (e, cleanup_existing_interface) (inl e, λ _. e)
        | inr (lookup_failed text, e) ↦
            rw (e, cleanup_existing_interface)
              (inr (inl (text, e)), λ d. absurd (ground (arith, d)))
      ]

      create_link-failed :
          (name : String) (config : DeviceConfig Key Net) (addrs : List Addr) (h : H) (e : Step)
          → (create_link k name config addrs h).0 ≡ err e
          → IsCleared name (create_link k name config addrs h).1
      unfolding create_link
      create_link-failed name config addrs h e f =
          let cleaned = cleanup_existing_interface k name h in
          let (cleared, missing) = cleanup_existing_interface_lem name h in
          let added = k.link_add name cleaned.1 in
          elim (Result-cases cleaned.0) [
            | inr (x, c) ↦ rw (c, create_link) cleared
            | inl (u, c) ↦ elim (Result-cases added.0) [
              | inr (x, g) ↦
                  rw (c, g, create_link) (inl (law.refuses name cleaned.1 x g ∙ missing c))
              | inl (v, g) ↦ elim (Result-cases (set_up k name config addrs added.1).0) [
                | inl (w, i) ↦ absurd (ground (arith, f, c, g, i))
                | inr (x, i) ↦
                    rw (c, g, i, create_link)
                      (cleanup_existing_interface_lem name (set_up k name config addrs added.1).1).0
              ]
            ]
          ]

      -- InitializeWithPeers that fails either has not touched the host, for want of a client or for
      -- an address that cannot be parsed, or leaves no interface of the name, unless the kernel fails
      -- to look it up or has just failed to delete it. After Close there is none, with the same
      -- exception; none at all if Close reports no error; and a further InitializeWithPeers or
      -- ApplyPeersReplaceAll fails. Conditions: a deletion that succeeds leaves no interface of the
      -- name, and a refused addition changes none.
      pub initialize_with_peers-close :
          (key : Key) (port : ℤ) (ips : List String) (peers : List (PeerConfig Key Net))
          (m : Manager H)
          → let (reply, m') = initialize_with_peers k key port ips peers m in
            let (errors, closed) = close k m in
            ((reply ≡ ok tt) ⊎ ((m' ≡ m) × CannotBegin ips m) ⊎ IsCleared m.iface_name m'.host)
            × IsCleared m.iface_name closed.host
            × (errors ≡ [] → k.link_by_name m.iface_name closed.host ≡ err link_not_found)
            × ((initialize_with_peers k key port ips peers closed).0 ≡ err no_client)
            × ((text : String) × ((apply_peers_replace_all k peers closed).0 ≡ err text))
      unfolding initialize_with_peers close apply_peers_replace_all apply_config
      initialize_with_peers-close key port ips peers m =
          let config = build_initial_config key port peers in
          let (closed, h1) = if m.client then k.close_client m.host else (ok tt, m.host) in
          let (cleared, missing) = cleanup_existing_interface_lem m.iface_name h1 in
          let cleaned = Result-cases (cleanup_existing_interface k m.iface_name h1).0 in
          (
            elim (Bool-cases m.client) [
              | inr n ↦ inr (inl (rw (n, initialize_with_peers) refl, inl n))
              | inl y ↦ elim (Result-cases (parse_addrs k ips)) [
                | inr (x, e) ↦ inr (inl (ground (arith, y, e), inr (parse_addrs-refused ips e)))
                | inl (addrs, e) ↦
                    elim (Result-cases (create_link k m.iface_name config addrs m.host).0) [
                      | inl (u, f) ↦ inl (ground (arith, y, e, f))
                      | inr (x, f) ↦ inr (
                          inr (
                            rw (y, e, initialize_with_peers)
                              (create_link-failed m.iface_name config addrs m.host x f)))
                    ]
              ]
            ],
            cleared,
            λ no_errors. missing (ground (arith, no_errors, cleaned, Result-cases closed)),
            refl,
            ("wgctrl client is not initialized", refl),
          )
