-- ===== src/Controller/Node.antt =====
-- controller/controller.go: the session of a node with its panel. A backend is a handle, `B`; what
-- is behind the handles, and the ports of the host, are the world, `W`. A time is in nanoseconds.
-- Requests and ticks are taken one after another, each to its end: the source releases the lock of
-- the controller within Disconnect and between the calls of a Start, and what requests do that
-- overlap there is not modelled. So a Connect comes after the end of the former session, and there
-- is one keepAliveTracker at most. Left out: the values of statistics, and the first ports.
pub mod Rest
pub mod Rpc
pub mod Settled
pub mod Guarded
pub mod Examples
use node_agent.Prelude.{
  ℕ, zero, suc, ◌*◌, String, Bool, true, false, Option, none, some, List, if◌then◌else◌, Result, ok,
  err,
}
use node_agent.Prelude.Int.{ℤ, ◌-ℤ◌, pos, leb_ℤ, wrap64}
use node_agent.Common.{User}

pub data BackendType : Type 0 where
  xray wireguard unknown : BackendType

-- common.Backend.
pub record Setup : Type 0 where
  pub type : BackendType
  pub config : String
  pub users : List User
  pub keep_alive : ℕ
  pub exclude_inbounds : List String

-- The reads of statistics, and an error's code, by status.FromError, with its text.
pub data Query : Type 0 where
  stats user_online_stats user_online_ip_list_stats backend_stats outbounds_latency : Query

pub record Failure : Type 0 where
  pub code : ℕ
  pub text : String

-- backend.Backend, NewConfig and New of the two backends, and netutil.FindFreePort.
pub record Backends (B W : Type 0) : Type 0 where
  pub new_xray : Setup → ℕ → ℕ → W → Result String B × W
  pub new_wireguard : Setup → W → Result String B × W
  pub started : B → W → Bool
  pub version : B → W → String
  pub shutdown : B → W → W
  pub sync_user : User → B → W → Result String (Unit {0}) × W
  pub sync_users : List User → B → W → Result String (Unit {0}) × W
  pub update_users : List User → B → W → Result String (Unit {0}) × W
  pub update_users_and_restart : List User → B → W → Result String (Unit {0}) × W
  pub query : Query → B → W → Result Failure (Unit {0}) × W
  pub read_logs : B → W → W
  pub find_free_port : W → ℕ × W

-- `keep_alive` is that of the tracker that runs, if one does.
pub record Controller (B : Type 0) : Type 0 where
  pub backend : Option B
  pub api_port : ℕ
  pub metric_port : ℕ
  pub client_ip : String
  pub last_request : ℤ
  pub keep_alive : Option ℕ

pub record BaseInfo : Type 0 where
  pub started : Bool
  pub core_version : String
  pub node_version : String

abbrev pub positive : ℕ → Option ℕ
positive zero = none
positive (suc n) = some (suc n)

module _ {B : Type 0} where
  abbrev pub connect : ℤ → String → ℕ → Controller B → Controller B
  connect now ip keep_alive c = record c {
    client_ip = ip;
    last_request = now;
    keep_alive = positive keep_alive;
  }

  abbrev pub new_request : ℤ → Controller B → Controller B
  new_request now c = record c { last_request = now }

  module _ {W : Type 0} (x : Backends B W) where
    -- Between the two locked parts of Disconnect: the backend that was read is shut down.
    abbrev shutdown_backend : Option B → W → W
    shutdown_backend none w = w
    shutdown_backend (some b) w = x.shutdown b w

    -- The second locked part: the fields of the session and new ports.
    abbrev clear_session : Controller B → W → Controller B × W
    clear_session c w =
        let (api, w1) = x.find_free_port w in
        let (metric, w2) = x.find_free_port w1 in
        (record c { backend = none; api_port = api; metric_port = metric; client_ip = "" }, w2)

    -- The cancel, the backend read under the lock, its shutdown, and the end of the session.
    unfoldable pub disconnect : Controller B → W → Controller B × W
    disconnect c w =
        let cancelled : Controller B = record c { keep_alive = none } in
        clear_session cancelled (shutdown_backend cancelled.backend w)

    abbrev new_backend : Setup → Controller B → W → Result String B × W
    new_backend s c w = elim s.type [
      | xray ↦ x.new_xray s c.api_port c.metric_port w
      | wireguard ↦ x.new_wireguard s w
      | unknown ↦ (err "invalid backend type", w)
    ]

    unfoldable pub start_backend :
        Setup → Controller B → W → Result String (Unit {0}) × Controller B × W
    start_backend s c w =
        let (reply, w') = new_backend s c w in
        elim reply [ err e ↦ (err e, c, w') | ok b ↦ (ok tt, record c { backend = some b }, w') ]

    unfoldable pub base_info : Controller B → W → BaseInfo
    base_info c w = elim c.backend [
      | none ↦ record { started = false; core_version = ""; node_version = "0.5.2" }
      | some b ↦ record {
        started = x.started b w;
        core_version = x.version b w;
        node_version = "0.5.2";
      }
    ]

    -- SystemStats asks the backend for its uptime, and answers without it after an error.
    abbrev pub system_stats : Controller B → W → W
    system_stats c w = elim c.backend [ none ↦ w | some b ↦ (x.query backend_stats b w).1 ]

    abbrev pub outbounds_latency_of : Controller B → W → Result Failure (Unit {0}) × W
    outbounds_latency_of c w = elim c.backend [
      | none ↦ (ok tt, w)
      | some b ↦ x.query outbounds_latency b w
    ]

    -- One tick of keepAliveTracker, which multiplies the seconds in an int64.
    unfoldable pub keep_alive_tick : ℤ → Controller B → W → Controller B × W
    unfolding disconnect
    keep_alive_tick now c w =
        let ended = disconnect c w in
        elim c.keep_alive [
          | none ↦ (c, w)
          | some k ↦
              if leb_ℤ (wrap64 (pos (k * 1000000000))) (now -ℤ c.last_request)
              then ended
              else (c, w)
        ]

    abbrev pub taken_over : Controller B → W → Controller B × W
    taken_over c w = elim c.backend [ none ↦ (c, w) | some _ ↦ disconnect c w ]

    -- What both servers do to start: Backend, Disconnect, StartBackend and Connect, each under its
    -- own lock.
    unfoldable pub start_session :
        ℤ → String → Setup → Controller B → W → Result String (Unit {0}) × Controller B × W
    unfolding disconnect start_backend
    start_session now ip s c w =
        let (c1, w1) = taken_over c w in
        let (reply, c2, w2) = start_backend s c1 w1 in
        elim reply [ err e ↦ (err e, c2, w2) | ok _ ↦ (ok tt, connect now ip s.keep_alive c2, w2) ]
