-- ===== src/Common.antt =====
-- common/service.proto: the users that a panel sends. A message field that may be absent is an
-- Option; a getter of an absent message gives the empty text.
use node_agent.Prelude.{String, ◌≡◌, false, Option, List, [], ◌∷◌, contains, map}

pub record Vmess : Type 0 where
  pub id : String

pub record Vless : Type 0 where
  pub id : String
  pub flow : String

pub record Trojan : Type 0 where
  pub password : String

pub record Shadowsocks : Type 0 where
  pub password : String
  pub method : String

pub record Wireguard : Type 0 where
  pub public_key : String
  pub peer_ips : List String

pub record Hysteria : Type 0 where
  pub auth : String

pub record Proxy : Type 0 where
  pub vmess : Option Vmess
  pub vless : Option Vless
  pub trojan : Option Trojan
  pub shadowsocks : Option Shadowsocks
  pub wireguard : Option Wireguard
  pub hysteria : Option Hysteria

pub record User : Type 0 where
  pub email : String
  pub proxies : Option Proxy
  pub inbounds : List String

abbrev pub emails : List User → List String
emails us = map (λ (u : User). u.email) us

-- No email comes twice.
abbrev pub AreOnce : List User → Type 0
AreOnce [] = Unit
AreOnce (u ∷ us) = (contains (emails us) u.email ≡ false) × AreOnce us
