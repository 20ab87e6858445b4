-- ===== src/Stats.antt =====
-- pkg/stats: what a traffic report is made of. The children model the tracker of per-peer counters
-- and the tracker of the interface's counters.
pub mod Tracker
pub mod InterfaceCounters
pub mod Examples
use node_agent.Prelude.{String, List, [], ◌∷◌, ◌++◌, ◌&&◌, if◌then◌else◌}
use node_agent.Prelude.Int.{ℤ, pos, eqb_ℤ, ltb_ℤ}

-- `common.Stat`.
pub record Stat : Type 0 where
  pub name : String
  pub type : String
  pub link : String
  pub value : ℤ

-- One row for each direction with traffic; none if both are zero.
unfoldable pub build_delta_stats : String → String → ℤ → ℤ → List Stat
build_delta_stats name link rx tx =
    if eqb_ℤ rx (pos 0) && eqb_ℤ tx (pos 0)
    then []
    else (if ltb_ℤ (pos 0) tx
        then record { name = name; type = "uplink"; link = link; value = tx } ∷ []
        else [])
      ++ (if ltb_ℤ (pos 0) rx
          then record { name = name; type = "downlink"; link = link; value = rx } ∷ []
          else [])
