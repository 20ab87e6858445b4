-- ===== src/Stats/Tracker/Samples.antt =====
-- What a sample of the kernel's counters does to the traffic that waits to be reported.
use node_agent.Prelude.{ℕ, ◌+◌, ◌-◌, ◌<◌, ◌^◌, ◌≡◌, ◌⊎◌, inr, Bool, arith, ◌||◌, ltb, if◌then◌else◌}
use node_agent.Prelude.Int.{pos, ◌-ℤ◌, sub64-pos, sub64-back, -ℤ-grow}
use node_agent.Stats.Tracker.{
  Entry, Sample, was_removed, apply_to_entry, pending_rx, pending_tx, mark_deleted,
}

-- An entry at the counters `c` and `d` with `p` and `q` bytes to report; the deltas that a removal
-- leaves are those.
pub record IsSound (e : Entry) (c d p q : ℕ) : Type 0 where
  pub at_rx : e.current_rx ≡ pos c
  pub at_tx : e.current_tx ≡ pos d
  pub from_rx : e.base_rx ≡ pos c -ℤ pos p
  pub from_tx : e.base_tx ≡ pos d -ℤ pos q
  pub kept :
      ((e.last_delta_rx ≡ pos 0) × (e.last_delta_tx ≡ pos 0))
      ⊎ ((e.last_delta_rx ≡ pos p) × (e.last_delta_tx ≡ pos q))

-- Bytes to report after a sample at `r` and `t`: all that was pending, and the growth, unless the
-- peer was removed with traffic pending or a counter went back.
abbrev pub after_sample : Bool → ℕ → ℕ → ℕ → ℕ → ℕ → ℕ → ℕ
after_sample removed c d r t here p = if removed || (ltb r c || ltb t d) then p else p + here

pub IsSound-pending :
    {e : Entry} {c d p q : ℕ}
    → IsSound e c d p q
    → p < 2 ^ 63
    → q < 2 ^ 63
    → (pending_rx e ≡ pos p) × (pending_tx e ≡ pos q)
IsSound-pending {e} {c} {d} {p} {q} h hp hq =
    (rw (h.at_rx, h.from_rx) (sub64-back c p hp), rw (h.at_tx, h.from_tx) (sub64-back d q hq))

-- Removal keeps what is pending.
pub mark_deleted-IsSound :
    {e : Entry} {c d p q : ℕ}
    → IsSound e c d p q
    → p < 2 ^ 63
    → q < 2 ^ 63
    → IsSound (mark_deleted e) c d p q
mark_deleted-IsSound h hp hq = record {
  at_rx = h.at_rx;
  at_tx = h.at_tx;
  from_rx = h.from_rx;
  from_tx = h.from_tx;
  kept = inr (IsSound-pending h hp hq);
}

-- A sample loses no pending byte: it sets the counters, keeps what was pending before a removal or
-- before a counter went back, and otherwise adds the growth, in both directions alike. Conditions:
-- the entry's deltas are zero or those of its removal, and the counts fit in 63 bits.
pub apply_to_entry-IsSound :
    (s : Sample) (now : ℕ) (e : Entry) (c d p q r t : ℕ)
    → IsSound e c d p q
    → s.rx ≡ pos r
    → s.tx ≡ pos t
    → p < 2 ^ 63
    → q < 2 ^ 63
    → r < 2 ^ 63
    → t < 2 ^ 63
    → IsSound
        (apply_to_entry s now e)
        r
        t
        (after_sample (was_removed e) c d r t (r - c) p)
        (after_sample (was_removed e) c d r t (t - d) q)
unfolding apply_to_entry
apply_to_entry-IsSound s now e c d p q r t h hr ht pp qq rr tt' =
    let pend = IsSound-pending h pp qq in
    record {
      at_rx = ground arith;
      at_tx = ground arith;
      from_rx = ground (arith, pend, sub64-pos r p, -ℤ-grow c r p);
      from_tx = ground (arith, pend, sub64-pos t q, -ℤ-grow d t q);
      kept = ground arith;
    }
