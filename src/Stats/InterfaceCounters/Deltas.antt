-- ===== src/Stats/InterfaceCounters/Deltas.antt =====
-- The deltas over a sequence of calls.
use node_agent.Prelude.{ℕ, ◌-◌, ◌<◌, ◌^◌, ◌≡◌, Bool, true, arith, ltb, not, if◌then◌else◌, ◌||◌}
use node_agent.Prelude.Int.{pos, sub64-le}
use node_agent.Stats.InterfaceCounters.{InterfaceCountersTracker, delta}

-- A call reports the growth of both counters since the baseline, or zero on the first call and
-- after a counter went back, when the counters become the baseline; a reset moves the baseline to
-- the counters. Condition: the counters fit in 63 bits.
pub delta_lem :
    (rx tx : ℕ) (reset : Bool) (t : InterfaceCountersTracker) (b c : ℕ)
    → rx < 2 ^ 63
    → tx < 2 ^ 63
    → t.base_rx ≡ pos b
    → t.base_tx ≡ pos c
    → let fresh = not t.base_set || (ltb rx b || ltb tx c) in
      let from_rx = if fresh then rx else b in
      let from_tx = if fresh then tx else c in
      let result = delta (pos rx) (pos tx) reset t in
      (result.0 ≡ (pos (rx - from_rx), pos (tx - from_tx)))
      × (result.1.base_rx ≡ pos (if reset then rx else from_rx))
      × (result.1.base_tx ≡ pos (if reset then tx else from_tx))
      × (result.1.base_set ≡ true)
unfolding delta
delta_lem rx tx reset t b c hr ht eb ec =
    ground (arith, sub64-le rx b, sub64-le tx c, sub64-le rx rx, sub64-le tx tx)
