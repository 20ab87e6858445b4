-- ===== src/Stats/InterfaceCounters.antt =====
-- pkg/stats/interface_counters.go: the traffic of the interface since the last reset.
pub mod Deltas
use node_agent.Prelude.{Bool, true, false, ◌||◌, if◌then◌else◌}
use node_agent.Prelude.Int.{ℤ, pos, sub64, ltb_ℤ}

pub record InterfaceCountersTracker : Type 0 where
  pub base_rx : ℤ
  pub base_tx : ℤ
  pub base_set : Bool

abbrev pub new_interface_counters_tracker : InterfaceCountersTracker
new_interface_counters_tracker = record { base_rx = pos 0; base_tx = pos 0; base_set = false }

-- The baseline that a call works with: the counters themselves on the first call and after they
-- went back.
unfoldable pub rebased : ℤ → ℤ → InterfaceCountersTracker → InterfaceCountersTracker
rebased current_rx current_tx t =
    let here : InterfaceCountersTracker = record {
      base_rx = current_rx;
      base_tx = current_tx;
      base_set = true;
    } in
    let first = if t.base_set then t else here in
    if ltb_ℤ current_rx first.base_rx || ltb_ℤ current_tx first.base_tx
    then record first { base_rx = current_rx; base_tx = current_tx }
    else first

unfoldable pub delta : ℤ → ℤ → Bool → InterfaceCountersTracker → (ℤ × ℤ) × InterfaceCountersTracker
unfolding rebased
delta current_rx current_tx reset t =
    let base = rebased current_rx current_tx t in
    (
      (sub64 current_rx base.base_rx, sub64 current_tx base.base_tx),
      if reset then record base { base_rx = current_rx; base_tx = current_tx } else base,
    )
