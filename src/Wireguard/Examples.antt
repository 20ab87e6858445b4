-- ===== src/Wireguard/Examples.antt =====
-- The theorems of the peer store at concrete stores. A key stands for its own text.
use node_agent.Prelude.{
  String, ◌≡◌, refl, some, none, List, [], ◌∷◌, Option, texts_differ, contains, ◌&&◌, In,
}
use node_agent.Prelude.Dict.{lookup, insert, delete, has_key}
use node_agent.Wireguard.{PeerInfo}
use node_agent.Wireguard.PeerStore.{
  PeerStore, new_peer_store, upsert_loop, remove_loop, get_by_key, upsert, apply_changes,
  get_by_email,
}
use node_agent.Wireguard.PeerStore.OneToOne.{
  IsOneToOne, new_peer_store-IsOneToOne, upsert-IsOneToOne, apply_changes-IsOneToOne,
}
use node_agent.Wireguard.PeerStore.Contents.{AreDistinct, apply_changes-contents}

abbrev own_text : String → String
own_text k = k

abbrev peer : String → String → PeerInfo String String
peer email key = record { email = email; public_key = key; allowed_ips = "10.0.0.2/32" ∷ [] }

abbrev one_peer : PeerStore String String
one_peer = upsert own_text (peer "ann" "k1") new_peer_store

one_peer-IsOneToOne : IsOneToOne own_text one_peer
one_peer-IsOneToOne =
    upsert-IsOneToOne own_text (peer "ann" "k1") new_peer_store (new_peer_store-IsOneToOne own_text)

-- Ann gets the key k2 and Bob takes over k1; a nil peer is skipped.
abbrev new_peers : List (Option (PeerInfo String String))
new_peers = some (peer "ann" "k2") ∷ none ∷ some (peer "bob" "k1") ∷ []

new_peers-AreDistinct : AreDistinct own_text new_peers
new_peers-AreDistinct =
    (((texts_differ "k1" "k2" refl, texts_differ "bob" "ann" refl), tt), (tt, tt))

moved : get_by_email "bob" (apply_changes own_text [] new_peers one_peer).1 ≡ some (peer "bob" "k1")
unfolding apply_changes get_by_email lookup upsert_loop upsert insert remove_loop delete
moved = refl

apply_changes-IsOneToOne_example :
    IsOneToOne own_text (apply_changes own_text ("k1" ∷ "k9" ∷ []) new_peers one_peer).1
apply_changes-IsOneToOne_example =
    apply_changes-IsOneToOne own_text ("k1" ∷ "k9" ∷ []) new_peers one_peer one_peer-IsOneToOne

apply_changes-contents_example :
    let (removed, ps) = apply_changes own_text ("k1" ∷ "k9" ∷ []) new_peers one_peer in
    ((k : String) → contains removed k ≡ contains ("k1" ∷ "k9" ∷ []) k && has_key k one_peer.peers)
    × ((p : PeerInfo String String)
        → In (some p) new_peers
        → (get_by_key p.public_key ps ≡ some p) × (get_by_email p.email ps ≡ some p))
apply_changes-contents_example =
    apply_changes-contents own_text ("k1" ∷ "k9" ∷ []) new_peers one_peer one_peer-IsOneToOne
      new_peers-AreDistinct
