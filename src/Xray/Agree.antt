-- ===== src/Xray/Agree.antt =====
-- backend/xray: the ways to change an inbound's clients, user by user (SyncUser), in a batch
-- (UpdateUsers) and as a whole (SyncUsers), compared.
pub mod Active
pub mod Batch
use node_agent.Prelude.{
  String, ◌≡◌, refl, ◌∙◌, sym, true, false, some, List, [], ◌∷◌, arith, ◌==◌, Result,
}
use node_agent.Prelude.Dict.{lookup}
use node_agent.Common.{User, AreOnce}
use node_agent.Xray.{Codec, Inbound, DecodesHashes, NamesCipher}
use node_agent.Xray.Inbounds.{with_clients, sync_users, inbound_update, update_users}
use node_agent.Xray.Agree.Batch.{
  sync_each, batch, sync_each-expected, sync_accounts-expected, batch-expected,
}

module _ {Uuid : Type 0} (x : Codec Uuid) (i : Inbound Uuid) (us : List User) (once : AreOnce us)
    (decodes : DecodesHashes x) (named : NamesCipher x i) where
  -- An update of an inbound by a batch leaves under each email the client that the users leave
  -- when they are synchronised one after another; and without clients before, both leave what the
  -- synchronisation of these users as a whole does. Conditions: no email comes twice among the
  -- users, the text made of a hash decodes to as many bytes as were taken, and a Shadowsocks 2022
  -- inbound's method names a cipher.
  pub update_users-sync_users :
      (email : String)
      → let (accounts, removes) = inbound_update x i us in
        (lookup email (update_users x accounts removes i).clients
          ≡ lookup email (sync_each x us i).clients)
        × (lookup email (sync_users x i us).clients
            ≡ lookup email (sync_each x us (with_clients i [])).clients)
  unfolding update_users sync_users batch lookup
  update_users-sync_users email = (
    batch-expected x i decodes named us once email i.clients
        ∙ sym (sync_each-expected x i decodes named us once email i.clients),
    sync_accounts-expected x i us once [] (λ k h. refl) email
        ∙ sym (sync_each-expected x i decodes named us once email []),
  )
