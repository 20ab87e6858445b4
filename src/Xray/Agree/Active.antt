-- ===== src/Xray/Agree/Active.antt =====
-- What the account of a user on an inbound is: that of a synchronisation as a whole, under the
-- user's email, of the inbound's kind, and stored as it is.
use node_agent.Prelude.{String, ◌≡◌, true, Option, some, arith}
use node_agent.Common.{User}
use node_agent.Xray.{
  Codec, Account, get_email, Inbound, method_2022, ensure_base64_password, DecodesHashes,
  NamesCipher, names_cipher,
}
use node_agent.Xray.Accounts.{setup_user_account, is_active_inbound, synced_account}
use node_agent.Xray.Inbounds.{stored_account, accepted}

module _ {Uuid : Type 0} (x : Codec Uuid) where
  ensure-ensure :
      (password method : String)
      → DecodesHashes x
      → names_cipher x method ≡ true
      → ensure_base64_password x (ensure_base64_password x password method) method
        ≡ ensure_base64_password x password method
  unfolding ensure_base64_password
  ensure-ensure password method d h = ground (arith, d.sixteen password, d.thirty_two password)

  -- The account of a user on an inbound, if there is one.
  abbrev pub account_of : Inbound Uuid → User → Option (Account Uuid)
  account_of i u = is_active_inbound x i u.inbounds (setup_user_account x u)

  pub synced_account-account_of :
      (i : Inbound Uuid) (u : User) → synced_account x i u ≡ account_of i u
  unfolding synced_account is_active_inbound setup_user_account
  synced_account-account_of i u = ground arith

  pub record IsOwn (i : Inbound Uuid) (u : User) (a : Account Uuid) : Type 0 where
    pub email : get_email a ≡ u.email
    pub kept : stored_account x i.method a ≡ a
    pub fits : accepted x i.protocol (method_2022 i.method) a ≡ some a

  pub account_of-IsOwn :
      (i : Inbound Uuid) (u : User) {a : Account Uuid}
      → DecodesHashes x
      → NamesCipher x i
      → account_of i u ≡ some a
      → IsOwn i u a
  unfolding is_active_inbound setup_user_account accepted
  account_of-IsOwn i u d n h =
      let again : (password method : String)
          → method_2022 i.method ≡ some method
          → ensure_base64_password x (ensure_base64_password x password method) method
            ≡ ensure_base64_password x password method =
        λ password method e. ensure-ensure password method d (n method e) in
      grind (arith, again, method_2022)
