-- ===== src/Stats/Examples.antt =====
-- The theorems on traffic reports at concrete trackers.
use node_agent.Prelude.{ℕ, ◌+◌, ◌-◌, ◌≡◌, refl, inl, true, some, List, [], ◌∷◌, arith}
use node_agent.Prelude.Int.{pos, ◌-ℤ◌}
use node_agent.Prelude.Dict.{lookup}
use node_agent.Stats.Tracker.{Entry, Sample, Tracker, new_entry, was_removed, apply_to_entry}
use node_agent.Stats.Tracker.Samples.{IsSound, after_sample, apply_to_entry-IsSound}
use node_agent.Stats.Tracker.Accounting.{Event, sampled, collected, account, IsLive, account-total}
use node_agent.Stats.InterfaceCounters.{InterfaceCountersTracker, delta}
use node_agent.Stats.InterfaceCounters.Deltas.{delta_lem}

-- 100 and 50 bytes counted, of which 40 and 50 wait to be reported.
abbrev peer : Entry
peer = record (new_entry "ann") { current_rx = pos 100; current_tx = pos 50; base_rx = pos 60 }

abbrev peers : Tracker
peers = ("key", peer) ∷ []

abbrev sample : Sample
sample = record { public_key = "key"; email = "ann"; rx = pos 130; tx = pos 70; endpoint_ip = "" }

peer-IsSound : IsSound peer 100 50 40 50
unfolding ◌-ℤ◌
peer-IsSound = record {
  at_rx = refl;
  at_tx = refl;
  from_rx = refl;
  from_tx = refl;
  kept = inl (refl, refl);
}

peer-IsLive : IsLive peer 100 50 40 50
peer-IsLive = record {
  sound = peer-IsSound;
  no_rx = refl;
  no_tx = refl;
  not_deleted = refl;
  pending_rx_le = omega arith;
  pending_tx_le = omega arith;
  rx_fits = omega arith;
  tx_fits = omega arith;
}

apply_to_entry-IsSound_example :
    IsSound
      (apply_to_entry sample 9 peer)
      130
      70
      (after_sample (was_removed peer) 100 50 130 70 (130 - 100) 40)
      (after_sample (was_removed peer) 100 50 130 70 (70 - 50) 50)
apply_to_entry-IsSound_example =
    apply_to_entry-IsSound sample 9 peer 100 50 40 50 130 70 peer-IsSound refl refl (omega arith)
      (omega arith) (omega arith) (omega arith)

abbrev events : List Event
events = sampled sample 9 ∷ collected ∷ collected ∷ []

account-total_example :
    (e' : Entry) × (p' : ℕ) × (q' : ℕ) × (lookup "key" (account "key" events peers).1 ≡ some e')
    × IsLive e' 130 70 p' q'
    × ((account "key" events peers).0 + p' + q' + 100 + 50 ≡ 40 + 50 + 130 + 70)
unfolding lookup
account-total_example =
    account-total "key" events peers peer 100 50 40 50 refl peer-IsLive
      (refl, refl, omega arith, omega arith, omega arith, omega arith, tt)

abbrev counters : InterfaceCountersTracker
counters = record { base_rx = pos 5; base_tx = pos 6; base_set = true }

delta_lem_example :
    let result = delta (pos 9) (pos 8) true counters in
    (result.0 ≡ (pos (9 - 5), pos (8 - 6)))
    × (result.1.base_rx ≡ pos 9)
    × (result.1.base_tx ≡ pos 8)
    × (result.1.base_set ≡ true)
delta_lem_example = delta_lem 9 8 true counters 5 6 (omega arith) (omega arith) refl refl
