-- ===== src/Wireguard/Manager.antt =====
-- backend/wireguard/manager.go: the interface in the kernel. netlink and wgctrl are the parameter
-- `Kernel`, over the host's state; a lookup of a link reads it. Left out: the words that an error
-- gets, and the counters of the interface.
pub mod Cleanup
use node_agent.Prelude.{
  String, Bool, true, false, Option, none, some, List, [], ◌∷◌, Result, ok, err, if◌then◌else◌,
}
use node_agent.Prelude.Int.{ℤ}
use node_agent.Wireguard.{PeerConfig}
use node_agent.Wireguard.Sync.{Device}

-- wgtypes.Config.
pub record DeviceConfig (Key Net : Type 0) : Type 0 where
  pub private_key : Option Key
  pub listen_port : Option ℤ
  pub peers : List (PeerConfig Key Net)
  pub replace_peers : Bool

pub data LookupError : Type 0 where
  link_not_found : LookupError
  lookup_failed : String → LookupError

abbrev pub Done : Type 0
Done = Result String (Unit {0})

pub record Kernel (Key Net Addr Link H : Type 0) : Type 0 where
  pub parse_addr : String → Result String Addr
  pub link_add : String → H → Done × H
  pub link_by_name : String → H → Result LookupError Link
  pub addr_add : Link → Addr → H → Done × H
  pub link_set_up : Link → H → Done × H
  pub link_del : Link → H → Done × H
  pub configure_device : String → DeviceConfig Key Net → H → Done × H
  pub close_client : H → Done × H

-- `client` is whether the wgctrl client is open.
pub record Manager (H : Type 0) : Type 0 where
  pub client : Bool
  pub iface_name : String
  pub host : H

-- The step at which a call failed.
pub data Step : Type 0 where
  no_client addresses cleanup adding configuring looking_up assigning bringing_up : Step

abbrev pub Reply : Type 0
Reply = Result Step (Unit {0})

module _ {Key Net : Type 0} where
  unfoldable pub build_initial_config : Key → ℤ → List (PeerConfig Key Net) → DeviceConfig Key Net
  build_initial_config key port peers = record {
    private_key = some key;
    listen_port = some port;
    peers = peers;
    replace_peers = elim peers [ [] ↦ false | peer ∷ more ↦ true ];
  }

  abbrev pub peers_config : Bool → List (PeerConfig Key Net) → DeviceConfig Key Net
  peers_config replace peers = record {
    private_key = none;
    listen_port = none;
    peers = peers;
    replace_peers = replace;
  }

module _ {Key Net Addr Link H : Type 0} (k : Kernel Key Net Addr Link H) where
  unfoldable pub cleanup_existing_interface : String → H → Done × H
  cleanup_existing_interface name h = elim (k.link_by_name name h) [
    | ok link ↦ k.link_del link h
    | err e ↦ elim e [ link_not_found ↦ (ok tt, h) | lookup_failed text ↦ (err text, h) ]
  ]

  unfoldable pub parse_addrs : List String → Result String (List Addr)
  parse_addrs [] = ok []
  parse_addrs (text ∷ texts) = elim (k.parse_addr text) [
    | err e ↦ err e
    | ok addr ↦ elim (parse_addrs texts) [ err e ↦ err e | ok addrs ↦ ok (addr ∷ addrs) ]
  ]

  unfoldable pub add_addrs : Link → List Addr → H → Done × H
  add_addrs link [] h = (ok tt, h)
  add_addrs link (addr ∷ addrs) h =
      let (reply, h') = k.addr_add link addr h in
      elim reply [ err e ↦ (err e, h') | ok _ ↦ add_addrs link addrs h' ]

  -- What InitializeWithPeers does with the link that it has added.
  unfoldable pub set_up : String → DeviceConfig Key Net → List Addr → H → Reply × H
  unfolding add_addrs
  set_up name config addrs h =
      let (configured, h1) = k.configure_device name config h in
      elim configured [
        | err e ↦ (err configuring, h1)
        | ok _ ↦ elim (k.link_by_name name h1) [
          | err e ↦ (err looking_up, h1)
          | ok link ↦
              let (assigned, h2) = add_addrs link addrs h1 in
              elim assigned [
                | err e ↦ (err assigning, h2)
                | ok _ ↦
                    let (up, h3) = k.link_set_up link h2 in
                    (elim up [ err e ↦ err bringing_up | ok _ ↦ ok tt ], h3)
              ]
        ]
      ]

  -- From the cleanup on; after an error the link that was added goes again, whatever that replies.
  unfoldable pub create_link : String → DeviceConfig Key Net → List Addr → H → Reply × H
  unfolding set_up cleanup_existing_interface
  create_link name config addrs h =
      let (cleaned, h1) = cleanup_existing_interface name h in
      elim cleaned [
        | err e ↦ (err cleanup, h1)
        | ok _ ↦
            let (added, h2) = k.link_add name h1 in
            elim added [
              | err e ↦ (err adding, h2)
              | ok _ ↦
                  let (reply, h3) = set_up name config addrs h2 in
                  elim reply [
                    | err e ↦ (err e, (cleanup_existing_interface name h3).1)
                    | ok _ ↦ (ok tt, h3)
                  ]
            ]
      ]

  unfoldable pub initialize_with_peers :
      Key → ℤ → List String → List (PeerConfig Key Net) → Manager H → Reply × Manager H
  unfolding create_link parse_addrs build_initial_config
  initialize_with_peers key port server_ips peers m =
      let parsed : Reply × Manager H = elim (parse_addrs server_ips) [
        | err e ↦ (err addresses, m)
        | ok addrs ↦
            let (reply, h) =
              create_link m.iface_name (build_initial_config key port peers) addrs m.host in
            (reply, record m { host = h })
      ] in
      if m.client then parsed else (err no_client, m)

  -- ApplyConfig, and the call that ApplyPeers and ApplyPeersReplaceAll make.
  unfoldable pub apply_config : DeviceConfig Key Net → Manager H → Done × Manager H
  apply_config config m =
      let (reply, h) = k.configure_device m.iface_name config m.host in
      if m.client
      then (reply, record m { host = h })
      else (err "wgctrl client is not initialized", m)

  unfoldable pub apply_peers : List (PeerConfig Key Net) → Manager H → Done × Manager H
  unfolding apply_config
  apply_peers [] m = (ok tt, m)
  apply_peers (peer ∷ peers) m = apply_config (peers_config false (peer ∷ peers)) m

  unfoldable pub apply_peers_replace_all : List (PeerConfig Key Net) → Manager H → Done × Manager H
  unfolding apply_config
  apply_peers_replace_all peers m = apply_config (peers_config true peers) m

  -- The manager as the device of a synchronisation.
  abbrev pub device : Device Key Net (Manager H)
  device = record { apply_peers = apply_peers; apply_peers_replace_all = apply_peers_replace_all }

  -- Both errors are kept.
  unfoldable pub close : Manager H → List String × Manager H
  unfolding cleanup_existing_interface
  close m =
      let (closed, h1) = if m.client then k.close_client m.host else (ok tt, m.host) in
      let (cleaned, h2) = cleanup_existing_interface m.iface_name h1 in
      let errors : List String = elim cleaned [ err e ↦ e ∷ [] | ok _ ↦ [] ] in
      (elim closed [ err e ↦ e ∷ errors | ok _ ↦ errors ], record m { client = false; host = h2 })
