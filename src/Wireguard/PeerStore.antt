-- ===== src/Wireguard/PeerStore.antt =====
-- backend/wireguard/peer_store.go: the peers that the interface has, by key and by email. Every
-- method holds the lock, so it is one step. A nil peer in an argument is `none`; a copied peer is
-- the peer, since the model has no sharing.
pub mod OneToOne
pub mod Contents
pub mod Origins
use node_agent.Prelude.{
  String, Bool, Option, none, some, List, [], ◌∷◌, ◌&&◌, not, ◌==◌, if◌then◌else◌,
}
use node_agent.Prelude.Dict.{Dict, lookup, insert, delete, has_key, map_values}
use node_agent.Wireguard.{PeerInfo}

pub record PeerStore (Key Net : Type 0) : Type 0 where
  pub peers : Dict (PeerInfo Key Net)
  pub email_to_key : Dict String

module _ {Key Net : Type 0} where
  abbrev pub new_peer_store : PeerStore Key Net
  new_peer_store = record { peers = []; email_to_key = [] }

  unfoldable pub get_by_key : String → PeerStore Key Net → Option (PeerInfo Key Net)
  get_by_key key ps = lookup key ps.peers

  unfoldable pub get_by_email : String → PeerStore Key Net → Option (PeerInfo Key Net)
  get_by_email email ps = elim (lookup email ps.email_to_key) [
    | none ↦ none
    | some key ↦ lookup key ps.peers
  ]

  abbrev pub peer_values : Dict (PeerInfo Key Net) → List (PeerInfo Key Net)
  peer_values [] = []
  peer_values ((key, peer) ∷ m) = peer ∷ peer_values m

  abbrev pub get_all : PeerStore Key Net → List (PeerInfo Key Net)
  get_all ps = peer_values ps.peers

  unfoldable pub get_email_map : PeerStore Key Net → Dict String
  get_email_map ps = map_values (λ peer. peer.email) ps.peers

  -- One key of the first loop of ApplyChanges.
  unfoldable pub remove_key : String → PeerInfo Key Net → PeerStore Key Net → PeerStore Key Net
  remove_key key peer ps = record {
    peers = delete key ps.peers;
    email_to_key = delete peer.email ps.email_to_key;
  }

  -- The first loop: the keys that were found, and the store.
  unfoldable pub remove_loop : List String → PeerStore Key Net → List String × PeerStore Key Net
  remove_loop [] ps = ([], ps)
  remove_loop (key ∷ keys) ps = elim (lookup key ps.peers) [
    | none ↦ remove_loop keys ps
    | some peer ↦
        let (removed, ps') = remove_loop keys (remove_key key peer ps) in (key ∷ removed, ps')
  ]

  -- The keys of the old map that the new one does not have.
  unfoldable pub gone_keys : Dict (PeerInfo Key Net) → Dict (PeerInfo Key Net) → List String
  gone_keys [] new_peers = []
  gone_keys ((old_key, peer) ∷ old) new_peers =
      let rest = gone_keys old new_peers in
      if has_key old_key new_peers then rest else old_key ∷ rest

  module _ (key_string : Key → String) where
    -- The peer that had the email under another key goes.
    unfoldable pub drop_old_key : PeerInfo Key Net → PeerStore Key Net → PeerStore Key Net
    drop_old_key peer ps = elim (lookup peer.email ps.email_to_key) [
      | none ↦ ps
      | some old_key ↦
          if not (old_key == key_string peer.public_key)
          then record ps { peers = delete old_key ps.peers }
          else ps
    ]

    -- The email that had the key goes.
    unfoldable pub drop_old_email : PeerInfo Key Net → PeerStore Key Net → PeerStore Key Net
    drop_old_email peer ps = elim (lookup (key_string peer.public_key) ps.peers) [
      | none ↦ ps
      | some existing ↦
          if not (existing.email == peer.email)
          then record ps { email_to_key = delete existing.email ps.email_to_key }
          else ps
    ]

    unfoldable pub put : PeerInfo Key Net → PeerStore Key Net → PeerStore Key Net
    put peer ps = record {
      peers = insert (key_string peer.public_key) peer ps.peers;
      email_to_key = insert peer.email (key_string peer.public_key) ps.email_to_key;
    }

    -- One peer of the second loop of ApplyChanges.
    unfoldable pub upsert : PeerInfo Key Net → PeerStore Key Net → PeerStore Key Net
    unfolding put drop_old_key drop_old_email
    upsert peer ps = put peer (drop_old_email peer (drop_old_key peer ps))

    unfoldable pub upsert_loop :
        List (Option (PeerInfo Key Net)) → PeerStore Key Net → PeerStore Key Net
    upsert_loop [] ps = ps
    upsert_loop (none ∷ peers) ps = upsert_loop peers ps
    upsert_loop (some peer ∷ peers) ps = upsert_loop peers (upsert peer ps)

    unfoldable pub apply_changes :
        List String
        → List (Option (PeerInfo Key Net))
        → PeerStore Key Net
        → List String × PeerStore Key Net
    apply_changes remove_keys upsert_peers ps =
        let (removed, ps') = remove_loop remove_keys ps in (removed, upsert_loop upsert_peers ps')

    unfoldable pub init : List (Option (PeerInfo Key Net)) → PeerStore Key Net → PeerStore Key Net
    init [] ps = ps
    init (none ∷ peers) ps = init peers ps
    init (some peer ∷ peers) ps = init peers (put peer ps)

    -- The loop that fills the new maps is the one of Init, on empty maps.
    unfoldable pub replace_all :
        List (Option (PeerInfo Key Net)) → PeerStore Key Net → List String × PeerStore Key Net
    replace_all peers ps =
        let new = init peers new_peer_store in (gone_keys ps.peers new.peers, new)
