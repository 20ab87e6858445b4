-- ===== src/Xray/Inbounds.antt =====
-- backend/xray/config.go, lines 46 to 308, and backend/xray/user.go, lines 120 to 201: the clients of
-- the inbounds, synchronised as a whole, one by one, and in batches. Locks make each call one step.
use node_agent.Prelude.{
  String, Option, none, some, List, [], ◌∷◌, ◌||◌, ◌++◌, if◌then◌else◌, contains, Result, ok, err,
}
use node_agent.Prelude.Dict.{Dict, insert, delete}
use node_agent.Common.{User}
use node_agent.Xray.{
  Codec, Account, vmess_account, vless_account, trojan_account, shadowsocks_account,
  shadowsocks_tcp_account, hysteria_account, get_email, Protocol, vmess, vless, trojan, shadowsocks,
  hysteria, Inbound, method_2022,
}
use node_agent.Xray.Accounts.{
  setup_user_account, check_shadowsocks_2022, is_active_inbound, synced_account, account_for_api,
}

-- What the process does for its inbounds.
pub record Handler (Uuid H : Type 0) : Type 0 where
  pub add_inbound_user : String → Account Uuid → H → Result String (Unit {0}) × H
  pub remove_inbound_user : String → String → H → H

module _ {Uuid : Type 0} where
  abbrev pub with_clients : Inbound Uuid → Dict (Account Uuid) → Inbound Uuid
  with_clients i clients = record i { clients = clients }

  unfoldable pub remove_user : String → Inbound Uuid → Inbound Uuid
  remove_user email i = with_clients i (delete email i.clients)

  abbrev pub delete_all : List String → Dict (Account Uuid) → Dict (Account Uuid)
  delete_all [] m = m
  delete_all (email ∷ emails) m = delete_all emails (delete email m)

  module _ (x : Codec Uuid) where
    unfoldable pub sync_accounts :
        Inbound Uuid → List User → Dict (Account Uuid) → Dict (Account Uuid)
    unfolding synced_account
    sync_accounts i [] m = m
    sync_accounts i (u ∷ us) m =
        sync_accounts i us
          (elim (synced_account x i u) [ none ↦ m | some account ↦ insert u.email account m ])

    unfoldable pub sync_users : Inbound Uuid → List User → Inbound Uuid
    unfolding sync_accounts
    sync_users i us = with_clients i (sync_accounts i us [])

    -- The account that updateUser stores: any method, not only one of 2022, is applied.
    abbrev pub stored_account : Option String → Account Uuid → Account Uuid
    stored_account (some method) (shadowsocks_account email password) =
        check_shadowsocks_2022 x method (email, password)
    stored_account none (shadowsocks_account email password) = shadowsocks_account email password
    stored_account method (vmess_account email id) = vmess_account email id
    stored_account method (vless_account email id flow) = vless_account email id flow
    stored_account method (trojan_account email password) = trojan_account email password
    stored_account method (shadowsocks_tcp_account email password m) =
        shadowsocks_tcp_account email password m
    stored_account method (hysteria_account email auth) = hysteria_account email auth

    unfoldable pub update_user : Account Uuid → Inbound Uuid → Inbound Uuid
    update_user account i =
        with_clients i (insert (get_email account) (stored_account i.method account) i.clients)

    -- The accounts of the inbound's own kind.
    unfoldable pub accepted : Protocol → Option String → Account Uuid → Option (Account Uuid)
    accepted vmess method (vmess_account email id) = some (vmess_account email id)
    accepted vless method (vless_account email id flow) = some (vless_account email id flow)
    accepted trojan method (trojan_account email password) = some (trojan_account email password)
    accepted shadowsocks (some method) (shadowsocks_account email password) =
        some (check_shadowsocks_2022 x method (email, password))
    accepted shadowsocks none (shadowsocks_tcp_account email password method) =
        some (shadowsocks_tcp_account email password method)
    accepted hysteria method (hysteria_account email auth) = some (hysteria_account email auth)
    accepted protocol method account = none

    unfoldable pub accept_all :
        Inbound Uuid → List (Account Uuid) → Dict (Account Uuid) → Dict (Account Uuid)
    unfolding accepted method_2022
    accept_all i [] m = m
    accept_all i (account ∷ accounts) m =
        accept_all i accounts (elim (accepted i.protocol (method_2022 i.method) account) [
          | none ↦ m
          | some a ↦ insert (get_email account) a m
        ])

    unfoldable pub update_users : List (Account Uuid) → List String → Inbound Uuid → Inbound Uuid
    unfolding accept_all
    update_users accounts removes i =
        with_clients i (delete_all removes (accept_all i accounts i.clients))

    -- The update of one inbound that buildInboundUpdates collects; the emails are a set.
    unfoldable pub inbound_update : Inbound Uuid → List User → List (Account Uuid) × List String
    unfolding is_active_inbound setup_user_account
    inbound_update i [] = ([], [])
    inbound_update i (u ∷ us) =
        let (accounts, removes) = inbound_update i us in
        elim (is_active_inbound x i u.inbounds (setup_user_account x u)) [
          | none ↦ (accounts, if contains removes u.email then removes else u.email ∷ removes)
          | some account ↦ (account ∷ accounts, removes)
        ]

    -- One user on one inbound, as the loop of SyncUser changes the configuration.
    unfoldable pub sync_one : User → Inbound Uuid → Inbound Uuid
    unfolding is_active_inbound setup_user_account update_user remove_user
    sync_one u i = elim (is_active_inbound x i u.inbounds (setup_user_account x u)) [
      | none ↦ remove_user u.email i
      | some account ↦ update_user account i
    ]

    unfoldable pub sync_all_inbounds : List (Inbound Uuid) → List User → List (Inbound Uuid)
    unfolding sync_users
    sync_all_inbounds [] us = []
    sync_all_inbounds (i ∷ rest) us =
        (if i.exclude then i else sync_users i us) ∷ sync_all_inbounds rest us

    -- The tags in inboundByTag: of two inbounds with one tag, the later one is updated.
    abbrev pub tags_of : List (Inbound Uuid) → List String
    tags_of [] = []
    tags_of (i ∷ rest) = if i.exclude then tags_of rest else i.tag ∷ tags_of rest

    -- Config.updateUsers.
    unfoldable pub update_all_inbounds : List (Inbound Uuid) → List User → List (Inbound Uuid)
    unfolding update_users inbound_update
    update_all_inbounds [] us = []
    update_all_inbounds (i ∷ rest) us =
        let (accounts, removes) = inbound_update i us in
        (if i.exclude || contains (tags_of rest) i.tag then i else update_users accounts removes i)
        ∷ update_all_inbounds rest us

    module _ {H : Type 0} (api : Handler Uuid H) where
      -- The call on the process, and the error that SyncUser collects.
      unfoldable pub sync_process : User → Inbound Uuid → H → List String × H
      unfolding account_for_api is_active_inbound setup_user_account
      sync_process u i h =
          let h1 = api.remove_inbound_user i.tag u.email h in
          elim (is_active_inbound x i u.inbounds (setup_user_account x u)) [
            | none ↦ ([], h1)
            | some account ↦
                let (reply, h2) = api.add_inbound_user i.tag (account_for_api i account) h1 in
                (elim reply [ err e ↦ e ∷ [] | ok _ ↦ [] ], h2)
          ]

      -- Xray.SyncUser: the errors, the configuration and the process.
      unfoldable pub sync_user :
          User → List (Inbound Uuid) → H → List String × List (Inbound Uuid) × H
      unfolding sync_process sync_one
      sync_user u [] h = ([], [], h)
      sync_user u (i ∷ rest) h =
          let (errors, h') = sync_process u i h in
          let (more, rest', h'') = sync_user u rest h' in
          let (skipped, kept, left) = sync_user u rest h in
          if i.exclude
          then (skipped, i ∷ kept, left)
          else (errors ++ more, sync_one u i ∷ rest', h'')

      abbrev remove_from_process : String → List String → H → H
      remove_from_process tag [] h = h
      remove_from_process tag (email ∷ emails) h =
          remove_from_process tag emails (api.remove_inbound_user tag email h)

      unfoldable pub add_to_process : Inbound Uuid → List (Account Uuid) → H → List String × H
      unfolding account_for_api
      add_to_process i [] h = ([], h)
      add_to_process i (account ∷ accounts) h =
          let (reply, h1) =
            api.add_inbound_user i.tag (account_for_api i account)
              (api.remove_inbound_user i.tag (get_email account) h) in
          let (errors, h2) = add_to_process i accounts h1 in
          (elim reply [ err e ↦ e ∷ errors | ok _ ↦ errors ], h2)

      -- Xray.UpdateUsers: the errors, the configuration and the process.
      unfoldable pub update_users_live :
          List User → List (Inbound Uuid) → H → List String × List (Inbound Uuid) × H
      unfolding inbound_update update_users add_to_process
      update_users_live us [] h = ([], [], h)
      update_users_live us (i ∷ rest) h =
          let (accounts, removes) = inbound_update i us in
          let (errors, h') = add_to_process i accounts (remove_from_process i.tag removes h) in
          let (more, rest', h'') = update_users_live us rest h' in
          let (skipped, kept, left) = update_users_live us rest h in
          if i.exclude || contains (tags_of rest) i.tag
          then (skipped, i ∷ kept, left)
          else (errors ++ more, update_users accounts removes i ∷ rest', h'')
