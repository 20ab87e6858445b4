-- ===== src/Stats/Tracker/Reports.antt =====
-- What removal, collection and cleanup do to the reports.
use node_agent.Prelude.{
  ℕ, String, ◌≡◌, ◌⊎◌, refl, true, false, Option, none, some, In, if◌then◌else◌, List, [], ◌∷◌,
  arith, eq_iff, eq_refl, Option-cases, inl, inr,
}
use node_agent.Prelude.Int.{ℤ, pos, ltb_ℤ, sub64, wrap64, ◌-ℤ◌}
use node_agent.Prelude.Dict.{lookup, insert, lookup-insert}
use node_agent.Stats.{Stat}
use node_agent.Stats.Tracker.{
  Entry, Tracker, entry_stats, get_users_stats, remove_stats, mark_deleted, cleanup_deleted_entries,
  any_active_since,
}

sub64_self : (z : ℤ) → sub64 z z ≡ pos 0
unfolding sub64 ◌-ℤ◌ wrap64
sub64_self z = ground arith

nothing_pending :
    (key : String) (e : Entry)
    → e.current_rx ≡ e.base_rx
    → e.current_tx ≡ e.base_tx
    → entry_stats key e ≡ []
unfolding entry_stats
nothing_pending key e x y = rw (x, y, sub64_self, sub64_self) refl

abbrev pub rows : Tracker → List Stat
rows t = (get_users_stats false t).0

rows-insert :
    (key : String) (e e' : Entry) (t : Tracker)
    → lookup key t ≡ some e
    → entry_stats key e' ≡ entry_stats key e
    → rows (insert key e' t) ≡ rows t
unfolding lookup insert get_users_stats
rows-insert key e e' [] found same = cc
rows-insert key e e' ((first, old) ∷ t) found same =
    ground (arith, eq_iff first key, rows-insert key e e' t)

entry_stats-mark_deleted :
    (key : String) (e : Entry) → entry_stats key (mark_deleted e) ≡ entry_stats key e
unfolding entry_stats
entry_stats-mark_deleted key e = refl

-- Removing a peer changes no report, and takes the peer off the active ones at once.
rows-remove_stats :
    (key : String) (t : Tracker) (cutoff : ℕ)
    → (rows (remove_stats key t) ≡ rows t)
      × (any_active_since (key ∷ []) cutoff (remove_stats key t) ≡ false)
unfolding remove_stats any_active_since
rows-remove_stats key t cutoff = elim (Option-cases (lookup key t)) [
  | inl e ↦ rw (e, remove_stats, any_active_since) (refl, rw e refl)
  | inr (e, found) ↦
      rw (found, remove_stats)
        (
          rows-insert key e (mark_deleted e) t found (entry_stats-mark_deleted key e),
          ground (arith, lookup-insert key key (mark_deleted e) t, eq_refl key),
        )
]

-- Cleaning up drops no traffic: every report is what it was.
rows-cleanup_deleted_entries : (t : Tracker) → rows (cleanup_deleted_entries t) ≡ rows t
unfolding get_users_stats cleanup_deleted_entries
rows-cleanup_deleted_entries [] = refl
rows-cleanup_deleted_entries ((key, e) ∷ t) =
    ground (arith, rows-cleanup_deleted_entries t, nothing_pending key e)

-- A row of a peer for one direction with traffic: what was counted since the last report.
abbrev IsRow : String → Entry → Stat → Type 0
IsRow key e row =
    (row.name ≡ e.email)
    × (row.link ≡ key)
    × (ltb_ℤ (pos 0) row.value ≡ true)
    × (((row.type ≡ "uplink") × (row.value ≡ sub64 e.current_tx e.base_tx))
        ⊎ ((row.type ≡ "downlink") × (row.value ≡ sub64 e.current_rx e.base_rx)))

module _ (n l : String) (rx tx : ℤ) (row : Stat) where
  abbrev IsDelta : Type 0
  IsDelta =
      (row.name ≡ n)
      × (row.link ≡ l)
      × (ltb_ℤ (pos 0) row.value ≡ true)
      × (((row.type ≡ "uplink") × (row.value ≡ tx)) ⊎ ((row.type ≡ "downlink") × (row.value ≡ rx)))

  abbrev uplink : Stat
  uplink = record { name = n; type = "uplink"; link = l; value = tx }

  abbrev downlink : Stat
  downlink = record { name = n; type = "downlink"; link = l; value = rx }

abbrev pub IsReported : Tracker → Stat → Type 0
IsReported t row = (key : String) × (e : Entry) × In (key, e) t × IsRow key e row

-- What a collection with a reset leaves of an entry.
abbrev pub kept_entry : Option Entry → Option Entry
kept_entry none = none
kept_entry (some e) =
    if e.is_deleted
    then none
    else some (record e { base_rx = e.current_rx; base_tx = e.current_tx })
