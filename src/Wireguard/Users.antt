-- ===== src/Wireguard/Users.antt =====
-- backend/wireguard/user_common.go, lines 190 to 280 and 305 to 331: from the users of a panel to the
-- peers that the interface should have.
pub mod Loop
pub mod Desired
pub mod Once
pub mod Collected
pub mod Given
use node_agent.Prelude.{
  ℕ, String, Bool, true, false, Option, none, some, List, [], ◌∷◌, ◌++◌, ◌==◌, ◌&&◌, ◌||◌, not, leb,
  eqb, if◌then◌else◌, contains, Result, ok, err,
}
use node_agent.Prelude.Dict.{Dict, lookup, insert}
use node_agent.Common.{User, Wireguard}
use node_agent.Wireguard.{Platform, SyncError, duplicate_address, duplicate_key}

pub record DesiredPeer (Key Net : Type 0) : Type 0 where
  pub email : String
  pub public_key : String
  pub parsed_key : Key
  pub allowed_ip_nets : List Net

-- user.GetProxies().GetWireguard(), and its getters on a nil message.
abbrev pub wireguard_of : User → Option Wireguard
wireguard_of u = elim u.proxies [ none ↦ none | some p ↦ p.wireguard ]

abbrev pub public_key_of : User → String
public_key_of u = elim (wireguard_of u) [ none ↦ "" | some w ↦ w.public_key ]

abbrev pub peer_ips_of : User → List String
peer_ips_of u = elim (wireguard_of u) [ none ↦ [] | some w ↦ w.peer_ips ]

-- The cases in which normalizeUsers skips a user that is there.
unfoldable pub is_incomplete : User → Bool
is_incomplete u = u.email == "" || elim (wireguard_of u) [
  | none ↦ true
  | some w ↦ w.public_key == "" || elim w.peer_ips [ [] ↦ true | ip ∷ ips ↦ false ]
]

unfoldable pub last_by_email : List (Option User) → Dict User → Dict User
unfolding is_incomplete
last_by_email [] found = found
last_by_email (none ∷ us) found = last_by_email us found
last_by_email (some u ∷ us) found =
    last_by_email us (if is_incomplete u then found else insert u.email u found)

unfoldable pub map_entries : Dict User → List User
map_entries [] = []
map_entries ((email, u) ∷ found) = u ∷ map_entries found

unfoldable pub normalize_users : List (Option User) → List User
unfolding last_by_email map_entries
normalize_users us = map_entries (last_by_email us [])

abbrev pub should_include : String → User → Bool
should_include interface_name u = contains u.inbounds interface_name

-- What the loop over the addresses of a user leaves; `invalid` where it broke off.
pub record Scan (Net : Type 0) : Type 0 where
  pub seen_ips : Dict String
  pub nets : List Net
  pub invalid : Bool

module _ {Key Net : Type 0} (p : Platform Key Net) where
  -- The loop of peerIPAllowedOnInterface.
  unfoldable pub in_some_pool : Net → List Net → Bool
  in_some_pool net [] = false
  in_some_pool net (pool ∷ pools) =
      let later = in_some_pool net pools in
      (eqb (p.ip_length net) (p.ip_length pool)
        && p.covers pool net
        && leb (p.prefix_length pool) (p.prefix_length net))
      || later

  unfoldable pub peer_ip_allowed_on_interface : Net → List Net → Bool
  unfolding in_some_pool
  peer_ip_allowed_on_interface net [] = true
  peer_ip_allowed_on_interface net (pool ∷ pools) = in_some_pool net (pool ∷ pools)

  unfoldable pub scan_ips :
      List Net → String → List String → Dict String → Result SyncError (Scan Net)
  unfolding peer_ip_allowed_on_interface
  scan_ips pools email [] seen = ok (record { seen_ips = seen; nets = []; invalid = false })
  scan_ips pools email (ip ∷ ips) seen = elim (p.parse_cidr ip) [
    | none ↦ ok (record { seen_ips = seen; nets = []; invalid = true })
    | some net ↦
        let text = p.net_string net in
        let skipped = scan_ips pools email ips seen in
        let more = scan_ips pools email ips (insert text email seen) in
        let taken : Result SyncError (Scan Net) = elim more [
          | err e ↦ err e
          | ok s ↦ ok (record s { nets = net ∷ s.nets })
        ] in
        let claimed : Result SyncError (Scan Net) = elim (lookup text seen) [
          | none ↦ taken
          | some other ↦
              if not (other == email) then err (duplicate_address text other email) else taken
        ] in
        if peer_ip_allowed_on_interface net pools then claimed else skipped
  ]

  -- The end of the loop's body: the user's peer is added to those found so far.
  unfoldable pub add_desired :
      User
      → Key
      → List Net
      → Dict (DesiredPeer Key Net)
      → Result SyncError (Dict (DesiredPeer Key Net))
  add_desired u key nets desired =
      let peer : DesiredPeer Key Net = record {
        email = u.email;
        public_key = public_key_of u;
        parsed_key = key;
        allowed_ip_nets = nets;
      } in
      let added = insert (public_key_of u) peer desired in
      elim (lookup (public_key_of u) desired) [
        | none ↦ ok added
        | some existing ↦
            if not (existing.email == u.email)
            then err (duplicate_key (public_key_of u) existing.email u.email)
            else ok added
      ]

  -- What a scan of a user's addresses comes to: no valid address leaves the user out.
  unfoldable pub settle :
      User
      → Key
      → Scan Net
      → Dict (DesiredPeer Key Net)
      → Result SyncError (Dict (DesiredPeer Key Net))
  unfolding add_desired
  settle u key s desired = elim s.nets [
    | [] ↦ ok desired
    | net ∷ nets ↦ if s.invalid then ok desired else add_desired u key (net ∷ nets) desired
  ]

  unfoldable pub collect_loop :
      String
      → List Net
      → List User
      → Dict String
      → Dict (DesiredPeer Key Net)
      → Result SyncError (Dict (DesiredPeer Key Net))
  unfolding scan_ips settle
  collect_loop name pools [] seen desired = ok desired
  collect_loop name pools (u ∷ us) seen desired =
      let skipped = collect_loop name pools us seen desired in
      let parsed : Result SyncError (Dict (DesiredPeer Key Net)) =
        elim (p.parse_key (public_key_of u)) [
          | none ↦ skipped
          | some key ↦ elim (scan_ips pools u.email (peer_ips_of u) seen) [
            | err e ↦ err e
            | ok s ↦ elim (settle u key s desired) [
              | err e ↦ err e
              | ok desired' ↦ collect_loop name pools us s.seen_ips desired'
            ]
          ]
        ] in
      if should_include name u then parsed else skipped

  abbrev pub collect_desired_peers :
      String → List Net → List User → Result SyncError (Dict (DesiredPeer Key Net))
  collect_desired_peers name pools us = collect_loop name pools us [] []
