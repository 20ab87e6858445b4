-- ===== src/Shared.antt =====
-- shared/manager.go, lines 31 to 108 and 161 to 183 and 547 to 587: the state of the Manager, the names and the
-- credentials of users, and the interface of the core. The core is backend/xray: of it the manager
-- sees the replies alone, so it is a parameter, `Core`, whose state is `K`. A mutex makes each
-- method one step.
pub mod Names
pub mod Users
pub mod Lifecycle
pub mod Traffic
pub mod Examples
use Prim.Native.String.{◌++◌ as ◌^◌}
use node_agent.Prelude.{
  String, Bool, true, false, Option, none, some, List, [], ◌∷◌, ◌++◌, ◌==◌, if◌then◌else◌, Result,
  ok, err,
}
use node_agent.Prelude.Int.{ℤ}
use node_agent.Prelude.Dict.{Dict, lookup}
use node_agent.Common.{Proxy, User}
use node_agent.Stats.{Stat}
use node_agent.Tenant.{Error}
use node_agent.Tenant.Registry.{Registry}

-- What a core does for the manager; a failure is an error's text. `start` is xray.NewConfig and
-- xray.New. `get_stats` reads every user's counters without a reset; `none` is an error or a nil
-- response.
pub record Core (K : Type 0) : Type 0 where
  pub start : String → Result String K
  pub sync_user : User → K → Result String (Unit {0}) × K
  pub update_users : List User → K → Result String (Unit {0}) × K
  pub get_stats : K → Option (List Stat) × K

-- What a core says of itself.
pub record About (K : Type 0) : Type 0 where
  pub started : K → Bool
  pub version : K → String

pub record Manager (S K : Type 0) : Type 0 where
  pub reg : Registry S
  pub core : Option K
  pub users : Dict (Dict User)
  pub email_to : Dict String
  pub creds : Dict String
  pub force_inbounds : List String
  pub last_seen : Dict ℤ
  pub config : String

-- The errors that the methods return.
pub data Failure : Type 0 where
  registry : Error → Failure
  duplicate_credential : String → String → Failure
  credential_in_use core_already_started no_config : Failure
  sync_failed : String → String → Failure
  core_failed : String → Failure
  usage_failed : String → Error → Failure

abbrev pub Answer : Type 0
Answer = Result Failure (Unit {0})

abbrev pub prefix : String → String
prefix tenant_id = ("t" ^ tenant_id) ^ "."

abbrev pub namespaced_email : String → String → String
namespaced_email tenant_id email = prefix tenant_id ^ email

abbrev pub with_inbounds : User → List String → User
with_inbounds u inbounds = record u { inbounds = inbounds }

-- One credential, if the text is not empty.
abbrev pub credential : String → String → List String
credential protocol secret = if secret == "" then [] else (protocol ^ secret) ∷ []

unfoldable pub proxy_credentials : Proxy → List String
proxy_credentials p =
    elim p.vless [ none ↦ [] | some v ↦ credential "vless:" v.id ]
    ++ elim p.vmess [ none ↦ [] | some v ↦ credential "vmess:" v.id ]
    ++ elim p.trojan [ none ↦ [] | some t ↦ credential "trojan:" t.password ]
    ++ elim p.shadowsocks [ none ↦ [] | some s ↦ credential "ss:" s.password ]
    ++ elim p.hysteria [ none ↦ [] | some h ↦ credential "hy:" h.auth ]

unfoldable pub user_credentials : User → List String
user_credentials u = elim u.proxies [ none ↦ [] | some p ↦ proxy_credentials p ]

module _ {S K : Type 0} where
  abbrev pub new_manager : Registry S → Manager S K
  new_manager reg = record {
    reg = reg;
    core = none;
    users = [];
    email_to = [];
    creds = [];
    force_inbounds = [];
    last_seen = [];
    config = "";
  }

  abbrev pub set_force_inbounds : List String → Manager S K → Manager S K
  set_force_inbounds tags m = record m { force_inbounds = tags }

  -- m.users[tenantID], where a missing entry is the nil map.
  abbrev pub users_of : String → Manager S K → Dict User
  users_of tenant_id m = elim (lookup tenant_id m.users) [ none ↦ [] | some us ↦ us ]

  unfoldable pub build_user : String → User → Manager S K → User
  build_user tenant_id u m = record {
    email = namespaced_email tenant_id u.email;
    proxies = u.proxies;
    inbounds = elim m.force_inbounds [ [] ↦ u.inbounds | tag ∷ tags ↦ tag ∷ tags ];
  }

  module _ (about : About K) where
    abbrev pub started : Manager S K → Bool
    started m = elim m.core [ none ↦ false | some k ↦ about.started k ]

    abbrev pub version : Manager S K → String
    version m = elim m.core [ none ↦ "" | some k ↦ about.version k ]

  module _ (c : Core K) where
    -- A call on the core, where there is one.
    unfoldable pub sync_to_core : User → Manager S K → Result String (Unit {0}) × Manager S K
    sync_to_core u m = elim m.core [
      | none ↦ (ok tt, m)
      | some k ↦ let (reply, k') = c.sync_user u k in (reply, record m { core = some k' })
    ]

    -- The reply of the core is ignored.
    unfoldable pub remove_from_core : User → Manager S K → Manager S K
    remove_from_core u m = elim m.core [
      | none ↦ m
      | some k ↦ record m { core = some ((c.update_users (with_inbounds u [] ∷ []) k).1) }
    ]
