-- ===== src/Xray.antt =====
-- backend/xray: the users of the core's inbounds, in its configuration and in the running process.
-- uuid.Parse, base64 and SHA-256 are parameters; the gRPC API of the process is a `Handler`.
pub mod Accounts
pub mod Inbounds
pub mod Agree
pub mod Removal
pub mod Examples
use text.Mathlib.Text.{starts_with}
use node_agent.Prelude.{
  ℕ, String, ◌≡◌, Bool, true, false, Option, none, some, List, ◌==◌, ◌&&◌, ◌||◌, eqb, if◌then◌else◌,
}
use node_agent.Prelude.Dict.{Dict}

-- uuid.Parse; the number of bytes that a base64 text stands for; strings.Contains; and the base64
-- text of the first bytes of a text's SHA-256.
pub record Codec (Uuid : Type 0) : Type 0 where
  pub parse_uuid : String → Option Uuid
  pub decoded_length : String → Option ℕ
  pub mentions : String → String → Bool
  pub hash_prefix : ℕ → String → String

-- The accounts of the API, at level 0.
pub data Account (Uuid : Type 0) : Type 0 where
  vmess_account : String → Uuid → Account Uuid
  vless_account : String → Uuid → String → Account Uuid
  trojan_account : String → String → Account Uuid
  shadowsocks_account : String → String → Account Uuid
  shadowsocks_tcp_account : String → String → String → Account Uuid
  hysteria_account : String → String → Account Uuid

abbrev pub get_email : {Uuid : Type 0} → Account Uuid → String
get_email (vmess_account email id) = email
get_email (vless_account email id flow) = email
get_email (trojan_account email password) = email
get_email (shadowsocks_account email password) = email
get_email (shadowsocks_tcp_account email password method) = email
get_email (hysteria_account email auth) = email

pub data Protocol : Type 0 where
  vmess vless trojan shadowsocks hysteria other : Protocol

-- `method` and `flow` are the settings of these names, where they are texts; clients that are not
-- there are none.
pub record Inbound (Uuid : Type 0) : Type 0 where
  pub tag : String
  pub protocol : Protocol
  pub method : Option String
  pub flow : String
  pub exclude : Bool
  pub clients : Dict (Account Uuid)

-- The method of a Shadowsocks 2022 inbound.
unfoldable pub method_2022 : Option String → Option String
method_2022 none = none
method_2022 (some m) = if starts_with m "2022-blake3" then some m else none

-- common/helper.go: a base64 text of the length that the method wants, or one made of the hash.
unfoldable pub ensure_base64_password : {Uuid : Type 0} → Codec Uuid → String → String → String
ensure_base64_password x password method =
    let short = x.mentions method "aes-128-gcm" in
    let long = x.mentions method "aes-256-gcm" || x.mentions method "chacha20-poly1305" in
    let hashed = x.hash_prefix (if short then 16 else 32) password in
    elim (x.decoded_length password) [
      | none ↦ hashed
      | some n ↦ if (short && eqb n 16) || (long && eqb n 32) then password else hashed
    ]

-- Base64: the text made of a hash decodes to as many bytes as were taken.
pub record DecodesHashes {Uuid : Type 0} (x : Codec Uuid) : Type 0 where
  pub sixteen : (password : String) → x.decoded_length (x.hash_prefix 16 password) ≡ some 16
  pub thirty_two : (password : String) → x.decoded_length (x.hash_prefix 32 password) ≡ some 32

abbrev pub names_cipher : {Uuid : Type 0} → Codec Uuid → String → Bool
names_cipher x method =
    x.mentions method "aes-128-gcm"
    || (x.mentions method "aes-256-gcm" || x.mentions method "chacha20-poly1305")

abbrev pub NamesCipher : {Uuid : Type 0} → Codec Uuid → Inbound Uuid → Type 0
NamesCipher x i = (m : String) → method_2022 i.method ≡ some m → names_cipher x m ≡ true
