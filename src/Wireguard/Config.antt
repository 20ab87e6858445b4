-- ===== src/Wireguard/Config.antt =====
-- backend/wireguard/config.go: the settings, their defaults, and the values parsed from them. The
-- caches of the parsed keys are left out: they hold what parsing gives.
use node_agent.Prelude.{String, Option, none, some, List, [], ◌∷◌, ◌==◌, if◌then◌else◌, trim_space}
use node_agent.Prelude.Int.{ℤ, pos, leb_ℤ}
use node_agent.Wireguard.{Platform}

pub record LatencyConfig : Type 0 where
  pub test_url : String
  pub timeout_seconds : ℤ

pub record Settings : Type 0 where
  pub interface_name : String
  pub private_key : String
  pub pre_shared_key : String
  pub listen_port : ℤ
  pub address : List String
  pub latency : Option LatencyConfig

abbrev default_latency : LatencyConfig → LatencyConfig
default_latency l = record {
  test_url =
      if trim_space l.test_url == "" then "https://www.gstatic.com/generate_204" else l.test_url;
  timeout_seconds = if leb_ℤ l.timeout_seconds (pos 0) then pos 5 else l.timeout_seconds;
}

-- NewConfig on the decoded document; `none` is one that cannot be decoded.
unfoldable pub new_config : Option Settings → Option Settings
new_config none = none
new_config (some c) = some (record c {
  interface_name = if c.interface_name == "" then "wg0" else c.interface_name;
  listen_port = if leb_ℤ c.listen_port (pos 0) then pos 51820 else c.listen_port;
  latency = some (
      default_latency
        (elim c.latency [ none ↦ record { test_url = ""; timeout_seconds = pos 0 } | some l ↦ l ]));
})

module _ {Key Net : Type 0} (p : Platform Key Net) where
  -- `none` is the error of an empty key, or of one that cannot be parsed.
  unfoldable pub get_private_key : Settings → Option Key
  get_private_key c = if c.private_key == "" then none else p.parse_key c.private_key

  unfoldable pub get_pre_shared_key : Settings → Option Key
  get_pre_shared_key c = if c.pre_shared_key == "" then none else p.parse_key c.pre_shared_key

  unfoldable pub networks : List String → List Net
  networks [] = []
  networks (address ∷ more) =
      let rest = networks more in
      let trimmed = trim_space address in
      if trimmed == ""
      then rest
      else elim (p.parse_cidr trimmed) [ none ↦ rest | some net ↦ net ∷ rest ]

  abbrev pub interface_networks : Settings → List Net
  interface_networks c = networks c.address
