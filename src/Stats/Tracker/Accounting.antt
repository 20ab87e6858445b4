-- ===== src/Stats/Tracker/Accounting.antt =====
-- Every byte that the kernel counts for a peer is reported once.
use mathlib.Core.List.{append-nil}
use node_agent.Prelude.{
  ℕ, ◌+◌, ◌-◌, ◌<◌, ◌≤◌, ◌^◌, String, ◌≡◌, refl, sym, ◌∙◌, inl, true, false, some, List, [], ◌∷◌,
  ◌++◌, arith, eq_refl,
}
use node_agent.Prelude.Int.{pos, pos_part, -ℤ-zero}
use node_agent.Prelude.Dict.{lookup, lookup-insert}
use node_agent.Stats.{Stat}
use node_agent.Stats.Tracker.{
  Entry, Sample, Tracker, was_removed, apply_to_entry, apply_sample, entry_stats, get_stats,
  reported,
}
use node_agent.Stats.Tracker.Samples.{
  IsSound, IsSound-pending, apply_to_entry-IsSound, after_sample,
}

-- The entry of a peer that is not removed.
pub record IsLive (e : Entry) (c d p q : ℕ) : Type 0 where
  pub sound : IsSound e c d p q
  pub no_rx : e.last_delta_rx ≡ pos 0
  pub no_tx : e.last_delta_tx ≡ pos 0
  pub not_deleted : e.is_deleted ≡ false
  pub pending_rx_le : p ≤ c
  pub pending_tx_le : q ≤ d
  pub rx_fits : c < 2 ^ 63
  pub tx_fits : d < 2 ^ 63

abbrev pub total : List Stat → ℕ
total [] = 0
total (s ∷ ss) = pos_part s.value + total ss

total-append : (xs ys : List Stat) → total (xs ++ ys) ≡ total xs + total ys
total-append [] ys = omega arith
total-append (x ∷ xs) ys = omega (arith, total-append xs ys)

total-entry_stats :
    (key : String) (e : Entry) (c d p q : ℕ) → IsLive e c d p q → total (entry_stats key e) ≡ p + q
unfolding entry_stats
total-entry_stats key e c d p q h =
    let pend =
      IsSound-pending h.sound (omega (arith, h.pending_rx_le, h.rx_fits))
        (omega (arith, h.pending_tx_le, h.tx_fits)) in
    rw (pend.0, pend.1) (ground arith)

sample-IsLive :
    (s : Sample) (now : ℕ) (e : Entry) (c d p q r t : ℕ)
    → IsLive e c d p q
    → s.rx ≡ pos r
    → s.tx ≡ pos t
    → c ≤ r
    → d ≤ t
    → r < 2 ^ 63
    → t < 2 ^ 63
    → IsLive (apply_to_entry s now e) r t (p + (r - c)) (q + (t - d))
unfolding was_removed
sample-IsLive s now e c d p q r t h hr ht cr dt rr tt' = record {
  sound = grown;
  no_rx = unfold apply_to_entry in ground arith;
  no_tx = unfold apply_to_entry in ground arith;
  not_deleted = unfold apply_to_entry in ground arith;
  pending_rx_le = omega (arith, h.pending_rx_le);
  pending_tx_le = omega (arith, h.pending_tx_le);
  rx_fits = rr;
  tx_fits = tt';
}
  where
    same_rx : after_sample (was_removed e) c d r t (r - c) p ≡ p + (r - c)
    same_rx = ground arith

    same_tx : after_sample (was_removed e) c d r t (t - d) q ≡ q + (t - d)
    same_tx = ground arith

    grown : IsSound (apply_to_entry s now e) r t (p + (r - c)) (q + (t - d))
    grown =
        rw (← same_rx, ← same_tx)
          (apply_to_entry-IsSound s now e c d p q r t h.sound hr ht
            (omega (arith, h.pending_rx_le, h.rx_fits)) (omega (arith, h.pending_tx_le, h.tx_fits))
            rr tt')

reported-IsLive : (e : Entry) (c d p q : ℕ) → IsLive e c d p q → IsLive (reported e) c d 0 0
reported-IsLive e c d p q h = record {
  sound = record {
    at_rx = h.sound.at_rx;
    at_tx = h.sound.at_tx;
    from_rx = h.sound.at_rx ∙ sym (-ℤ-zero (pos c));
    from_tx = h.sound.at_tx ∙ sym (-ℤ-zero (pos d));
    kept = inl (h.no_rx, h.no_tx);
  };
  no_rx = h.no_rx;
  no_tx = h.no_tx;
  not_deleted = h.not_deleted;
  pending_rx_le = omega arith;
  pending_tx_le = omega arith;
  rx_fits = h.rx_fits;
  tx_fits = h.tx_fits;
}

-- What happens to one peer: the kernel is read, or the panel collects with a reset.
pub data Event : Type 0 where
  sampled : Sample → ℕ → Event
  collected : Event

module _ (key : String) where
  -- The bytes reported along the way, and the tracker that is left.
  unfoldable pub account : List Event → Tracker → ℕ × Tracker
  account [] t = (0, t)
  account (sampled s now ∷ es) t = account es (apply_sample (record s { public_key = key }) now t)
  account (collected ∷ es) t =
      let (rows, t') = get_stats (key ∷ []) true t in
      let (n, t'') = account es t' in (total rows + n, t'')

-- The counters after the events, from `c` and `d`.
abbrev pub last_rx : List Event → ℕ → ℕ
last_rx [] c = c
last_rx (sampled s now ∷ es) c = last_rx es (pos_part s.rx)
last_rx (collected ∷ es) c = last_rx es c

abbrev pub last_tx : List Event → ℕ → ℕ
last_tx [] d = d
last_tx (sampled s now ∷ es) d = last_tx es (pos_part s.tx)
last_tx (collected ∷ es) d = last_tx es d

-- The kernel's counters do not go back, and fit in 63 bits.
abbrev pub Grows : List Event → ℕ → ℕ → Type 0
Grows [] c d = Unit
Grows (collected ∷ es) c d = Grows es c d
Grows (sampled s now ∷ es) c d =
    (s.rx ≡ pos (pos_part s.rx))
    × (s.tx ≡ pos (pos_part s.tx))
    × (c ≤ pos_part s.rx)
    × (d ≤ pos_part s.tx)
    × (pos_part s.rx < 2 ^ 63)
    × (pos_part s.tx < 2 ^ 63)
    × Grows es (pos_part s.rx) (pos_part s.tx)

apply_sample_found :
    (s : Sample) (now : ℕ) (t : Tracker) (e : Entry)
    → lookup s.public_key t ≡ some e
    → lookup s.public_key (apply_sample s now t) ≡ some (apply_to_entry s now e)
unfolding apply_sample
apply_sample_found s now t e found = rw (found, lookup-insert, eq_refl) refl

collect_found :
    (key : String) (t : Tracker) (e : Entry) (c d p q : ℕ)
    → lookup key t ≡ some e
    → IsLive e c d p q
    → (total (get_stats (key ∷ []) true t).0 ≡ p + q)
      × (lookup key (get_stats (key ∷ []) true t).1 ≡ some (reported e))
unfolding get_stats
collect_found key t e c d p q found h =
    let rows = total-entry_stats key e c d p q h in
    (
      rw (found, append-nil) rows,
      ground (arith, found, h.not_deleted, lookup-insert key key (reported e) t, eq_refl key),
    )

-- For a peer that is not removed and whose counters do not go back, over any samples and
-- collections, the bytes reported and those still pending at the end are those pending at the
-- start and the growth of the kernel's counters.
pub account-total :
    (key : String) (es : List Event) (t : Tracker) (e : Entry) (c d p q : ℕ)
    → lookup key t ≡ some e
    → IsLive e c d p q
    → Grows es c d
    → (e' : Entry) × (p' : ℕ) × (q' : ℕ) × (lookup key (account key es t).1 ≡ some e')
      × IsLive e' (last_rx es c) (last_tx es d) p' q'
      × ((account key es t).0 + p' + q' + c + d ≡ p + q + last_rx es c + last_tx es d)
unfolding account
account-total key [] t e c d p q found h g = (e, p, q, found, h, omega arith)
account-total key (sampled s now ∷ es) t e c d p q found h (er, et, cr, dt, rr, tt', g) =
    let s' = record s { public_key = key } in
    let (e', p', q', f, l, n) =
      account-total key es (apply_sample s' now t) (apply_to_entry s' now e) (pos_part s.rx)
        (pos_part s.tx) (p + (pos_part s.rx - c)) (q + (pos_part s.tx - d))
        (apply_sample_found s' now t e found)
        (sample-IsLive s' now e c d p q (pos_part s.rx) (pos_part s.tx) h er et cr dt rr tt') g in
    (e', p', q', f, l, omega arith)
account-total key (collected ∷ es) t e c d p q found h g =
    let (rows, kept) = collect_found key t e c d p q found h in
    let (e', p', q', f, l, n) =
      account-total key es (get_stats (key ∷ []) true t).1 (reported e) c d 0 0 kept
        (reported-IsLive e c d p q h) g in
    (e', p', q', f, l, omega arith)
