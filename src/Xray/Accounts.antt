-- ===== src/Xray/Accounts.antt =====
-- backend/xray/api/account.go, and backend/xray/user.go, lines 14 to 118: the account of a user on an
-- inbound.
use node_agent.Prelude.{String, Bool, Option, none, some, List, ◌==◌, ◌||◌, if◌then◌else◌, contains}
use node_agent.Common.{User, Proxy, Vmess, Vless, Trojan, Shadowsocks, Hysteria}
use node_agent.Xray.{
  Codec, Account, vmess_account, vless_account, trojan_account, shadowsocks_account,
  shadowsocks_tcp_account, hysteria_account, vmess, vless, trojan, shadowsocks, hysteria, other,
  Inbound, method_2022, ensure_base64_password,
}

-- The names in CipherType_value.
abbrev is_cipher : String → Bool
is_cipher method =
    method == "aes-128-gcm"
    || method == "aes-256-gcm"
    || method == "chacha20-poly1305"
    || method == "chacha20-ietf-poly1305"
    || method == "xchacha20-poly1305"
    || method == "xchacha20-ietf-poly1305"
    || method == "none"

pub record ProxySettings (Uuid : Type 0) : Type 0 where
  pub vmess_settings : Option (Account Uuid)
  pub vless_settings : Option (Account Uuid)
  pub trojan_settings : Option (Account Uuid)
  pub shadowsocks_settings : Option (Account Uuid)
  pub shadowsocks_2022_settings : Option (String × String)
  pub hysteria_settings : Option (Account Uuid)

module _ {Uuid : Type 0} where
  abbrev pub new_trojan_account : String → Trojan → Account Uuid
  new_trojan_account email t = trojan_account email t.password

  unfoldable pub new_shadowsocks_tcp_account : String → Shadowsocks → Account Uuid
  new_shadowsocks_tcp_account email s =
      shadowsocks_tcp_account email s.password (if is_cipher s.method then s.method else "none")

  abbrev pub new_hysteria_account : String → Hysteria → Account Uuid
  new_hysteria_account email h = hysteria_account email h.auth

  module _ (x : Codec Uuid) where
    -- `none` is an id that is no UUID.
    abbrev pub new_vmess_account : String → Vmess → Option (Account Uuid)
    new_vmess_account email v = elim (x.parse_uuid v.id) [
      | none ↦ none
      | some id ↦ some (vmess_account email id)
    ]

    abbrev pub new_vless_account : String → Vless → Option (Account Uuid)
    new_vless_account email v = elim (x.parse_uuid v.id) [
      | none ↦ none
      | some id ↦ some (vless_account email id v.flow)
    ]

    -- Of a Shadowsocks 2022 account, the email and the password.
    unfoldable pub settings_of : String → Proxy → ProxySettings Uuid
    unfolding new_shadowsocks_tcp_account
    settings_of email p = record {
      vmess_settings = elim p.vmess [ none ↦ none | some v ↦ new_vmess_account email v ];
      vless_settings = elim p.vless [ none ↦ none | some v ↦ new_vless_account email v ];
      trojan_settings = elim p.trojan [ none ↦ none | some t ↦ some (new_trojan_account email t) ];
      shadowsocks_settings = elim p.shadowsocks [
        | none ↦ none
        | some s ↦ some (new_shadowsocks_tcp_account email s)
      ];
      shadowsocks_2022_settings = elim p.shadowsocks [
        | none ↦ none
        | some s ↦ some (email, s.password)
      ];
      hysteria_settings = elim p.hysteria [
        | none ↦ none
        | some h ↦ some (new_hysteria_account email h)
      ];
    }

    -- A user without proxies has no account.
    unfoldable pub setup_user_account : User → ProxySettings Uuid
    unfolding settings_of
    setup_user_account u = elim u.proxies [
      | none ↦ record {
        vmess_settings = none;
        vless_settings = none;
        trojan_settings = none;
        shadowsocks_settings = none;
        shadowsocks_2022_settings = none;
        hysteria_settings = none;
      }
      | some p ↦ settings_of u.email p
    ]

    abbrev pub check_shadowsocks_2022 : String → String × String → Account Uuid
    check_shadowsocks_2022 method (email, password) =
        shadowsocks_account email (ensure_base64_password x password method)

    unfoldable pub is_active_inbound :
        Inbound Uuid → List String → ProxySettings Uuid → Option (Account Uuid)
    unfolding method_2022
    is_active_inbound i tags s =
        let account : Option (Account Uuid) = elim i.protocol [
          | vless ↦ s.vless_settings
          | vmess ↦ s.vmess_settings
          | trojan ↦ s.trojan_settings
          | shadowsocks ↦ elim (method_2022 i.method) [
            | none ↦ s.shadowsocks_settings
            | some method ↦ elim s.shadowsocks_2022_settings [
              | none ↦ none
              | some a ↦ some (check_shadowsocks_2022 method a)
            ]
          ]
          | hysteria ↦ s.hysteria_settings
          | other ↦ none
        ] in
        if contains tags i.tag then account else none

    -- The account that a loop of Inbound.syncUsers makes for a user.
    unfoldable pub synced_account : Inbound Uuid → User → Option (Account Uuid)
    unfolding method_2022 new_shadowsocks_tcp_account
    synced_account i u =
        let with_proxy : Option (Account Uuid) = elim u.proxies [
          | none ↦ none
          | some p ↦ elim i.protocol [
            | vmess ↦ elim p.vmess [ none ↦ none | some v ↦ new_vmess_account u.email v ]
            | vless ↦ elim p.vless [ none ↦ none | some v ↦ new_vless_account u.email v ]
            | trojan ↦ elim p.trojan [ none ↦ none | some t ↦ some (new_trojan_account u.email t) ]
            | shadowsocks ↦ elim p.shadowsocks [
              | none ↦ none
              | some s ↦ some (elim (method_2022 i.method) [
                | none ↦ new_shadowsocks_tcp_account u.email s
                | some method ↦ check_shadowsocks_2022 method (u.email, s.password)
              ])
            ]
            | hysteria ↦ elim p.hysteria [
              | none ↦ none
              | some h ↦ some (new_hysteria_account u.email h)
            ]
            | other ↦ none
          ]
        ] in
        if contains u.inbounds i.tag then with_proxy else none

-- accountForAPI: the inbound's flow, if it has one, replaces that of a VLESS account.
unfoldable pub account_for_api : {Uuid : Type 0} → Inbound Uuid → Account Uuid → Account Uuid
account_for_api i (vless_account email id flow) =
    if i.flow == "" then vless_account email id flow else vless_account email id i.flow
account_for_api i (vmess_account email id) = vmess_account email id
account_for_api i (trojan_account email password) = trojan_account email password
account_for_api i (shadowsocks_account email password) = shadowsocks_account email password
account_for_api i (shadowsocks_tcp_account email password method) =
    shadowsocks_tcp_account email password method
account_for_api i (hysteria_account email auth) = hysteria_account email auth
