-- ===== src/Xray/Examples.antt =====
-- The clients of inbounds at concrete users. An id is the text that was parsed.
use node_agent.Tenant.Registry.{update_tenant}
use node_agent.Prelude.{
  String, ◌≡◌, ◌≢◌, In, ok, err, refl, subst, true, false, Option, none, some, List, [], ◌∷◌, ◌==◌,
  ◌&&◌, eqb, if◌then◌else◌,
}
use node_agent.Prelude.Int.{pos}
use node_agent.Prelude.Dict.{Dict, insert, delete, lookup}
use node_agent.Common.{User, AreOnce}
use node_agent.Xray.{
  ensure_base64_password, Codec, Inbound, shadowsocks, shadowsocks_account, DecodesHashes,
  NamesCipher, method_2022, names_cipher,
}
use node_agent.Tenant.{Tenant, Status, Reason}
use node_agent.Tenant.MemStore
use node_agent.Shared.{Manager, users_of}
use node_agent.Shared.Lifecycle.{suspend_tenant}
use node_agent.Xray.Removal.{xray_core, has_client, suspend_tenant-Unserved}
use node_agent.Xray.Inbounds.{Handler, with_clients, sync_users, inbound_update, update_users}
use node_agent.Xray.Agree.Batch.{sync_each}
use node_agent.Xray.Agree.{update_users-sync_users}

-- Texts of 16 and 32 bytes are those made of a hash.
abbrev codec : Codec String
codec = record {
  parse_uuid = λ s. if s == "" then none else some s;
  decoded_length = λ s. if s == "hash16" then some 16 else if s == "hash32" then some 32 else none;
  mentions = λ method cipher. cipher == "aes-128-gcm" && method == "2022-blake3-aes-128-gcm";
  hash_prefix = λ n s. if eqb n 16 then "hash16" else "hash32";
}

abbrev ss_user : String → List String → User
ss_user email tags = record {
  email = email;
  proxies = some (record {
    vmess = none;
    vless = none;
    trojan = none;
    shadowsocks = some (record { password = "secret"; method = "none" });
    wireguard = none;
    hysteria = none;
  });
  inbounds = tags;
}

-- Ann may use the inbound, Bob may not any more.
abbrev users : List User
users = ss_user "ann" ("ss" ∷ []) ∷ ss_user "bob" [] ∷ []

abbrev inbound : Inbound String
inbound = record {
  tag = "ss";
  protocol = shadowsocks;
  method = some "2022-blake3-aes-128-gcm";
  flow = "";
  exclude = false;
  clients = ("bob", shadowsocks_account "bob" "hash16") ∷ [];
}

codec-DecodesHashes : DecodesHashes codec
codec-DecodesHashes = record { sixteen = λ p. refl; thirty_two = λ p. refl }

inbound-NamesCipher : NamesCipher codec inbound
unfolding method_2022
inbound-NamesCipher m e =
    let Named : Option String → Type 0 =
      λ o. elim o [ none ↦ Unit | some k ↦ names_cipher codec k ≡ true ] in
    subst Named e refl

users-AreOnce : AreOnce users
users-AreOnce = (refl, (refl, tt))

ann_joins :
    let (accounts, removes) = inbound_update codec inbound users in
    (update_users codec accounts removes inbound).clients
    ≡ ("ann", shadowsocks_account "ann" "hash16") ∷ []
unfolding update_users inbound_update delete insert ensure_base64_password
ann_joins = refl

update_users-sync_users_example :
    let (accounts, removes) = inbound_update codec inbound users in
    (lookup "bob" (update_users codec accounts removes inbound).clients
      ≡ lookup "bob" (sync_each codec users inbound).clients)
    × (lookup "bob" (sync_users codec inbound users).clients
        ≡ lookup "bob" (sync_each codec users (with_clients inbound [])).clients)
update_users-sync_users_example =
    update_users-sync_users codec inbound users users-AreOnce codec-DecodesHashes
      inbound-NamesCipher "bob"

abbrev api : Handler String (List String)
api = record {
  add_inbound_user = λ tag a h. (ok tt, h);
  remove_inbound_user = λ tag email h. email ∷ h;
}

abbrev acme : Tenant
acme = record {
  id = "acme";
  api_key_hash = "k1";
  status = Status.active;
  reason = Reason.none;
  period_id = 1;
  quota_bytes = pos 0;
  used_bytes = pos 0;
  credit_limit_bytes = pos 0;
  expire_at = pos 0;
}

-- Bob is a user of the tenant, and a client of the inbound.
abbrev manager : Manager (Dict Tenant) (List (Inbound String) × List String)
manager = record {
  reg = record { by_id = ("acme", acme) ∷ []; by_key = ("k1", "acme") ∷ []; store = [] };
  core = some (inbound ∷ [], []);
  users = ("acme", ("bob", ss_user "bob" ("ss" ∷ [])) ∷ []) ∷ [];
  email_to = ("bob", "acme") ∷ [];
  creds = [];
  force_inbounds = [];
  last_seen = [];
  config = "";
}

suspend_tenant-Unserved_example :
    let c = xray_core codec api (λ config. err "") (λ k. (none, k)) in
    let m = (suspend_tenant c MemStore.store "acme" Reason.manual manager).1 in
    (k : List (Inbound String) × List String) × (m.core ≡ some k)
    × ((email : String) (u : User)
        → In (email, u) (users_of "acme" manager)
        → has_client codec api k.0 u.email ≡ false)
    × ((asked : String)
        → ((email : String) (u : User) → In (email, u) (users_of "acme" manager) → u.email ≢ asked)
        → has_client codec api k.0 asked ≡ has_client codec api (inbound ∷ []) asked)
    × (m.users ≡ manager.users)
    × (m.email_to ≡ manager.email_to)
    × (m.creds ≡ manager.creds)
    × (m.last_seen ≡ manager.last_seen)
unfolding suspend_tenant update_tenant lookup MemStore.save_tenant
suspend_tenant-Unserved_example =
    suspend_tenant-Unserved codec api (λ config. err "") (λ k. (none, k)) MemStore.store "acme"
      Reason.manual manager (inbound ∷ [], []) refl refl
