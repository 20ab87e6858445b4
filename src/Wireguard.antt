-- ===== src/Wireguard.antt =====
-- backend/wireguard: the WireGuard backend. A public key is wgtypes.Key and a network net.IPNet,
-- third-party and library types, which are parameters with the calls on them that the backend makes.
pub mod PeerStore
pub mod Config
pub mod Users
pub mod Plan
pub mod Sync
pub mod Manager
pub mod Backend
pub mod Examples
use node_agent.Prelude.{ℕ, String, List, Option, none, some, Bool}

pub record PeerInfo (Key Net : Type 0) : Type 0 where
  pub email : String
  pub public_key : Key
  pub allowed_ips : List Net

-- Key.String, wgtypes.ParseKey, the network of net.ParseCIDR, IPNet.String, len(IPNet.IP),
-- `pool.Contains(net.IP)` as `covers pool net`, and the ones of IPNet.Mask.Size.
pub record Platform (Key Net : Type 0) : Type 0 where
  pub key_string : Key → String
  pub parse_key : String → Option Key
  pub parse_cidr : String → Option Net
  pub net_string : Net → String
  pub ip_length : Net → ℕ
  pub covers : Net → Net → Bool
  pub prefix_length : Net → ℕ

-- wgtypes.PeerConfig.
pub record PeerConfig (Key Net : Type 0) : Type 0 where
  pub public_key : Key
  pub remove : Bool
  pub preshared_key : Option Key
  pub keepalive : Option ℕ
  pub replace_allowed_ips : Bool
  pub allowed_ips : List Net

pub data SyncError : Type 0 where
  duplicate_address duplicate_key : String → String → String → SyncError
  key_taken : String → String → SyncError
  not_started no_manager nil_user : SyncError
  apply_failed : String → SyncError
