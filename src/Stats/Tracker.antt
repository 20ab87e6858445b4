-- ===== src/Stats/Tracker.antt =====
-- pkg/stats/tracker.go: the traffic of WireGuard peers by public key. Every method holds the lock,
-- so it is one step. A time is its distance in nanoseconds from Go's zero time.
pub mod Samples
pub mod Reports
pub mod Accounting
use node_agent.Prelude.{
  ℕ, ◌/◌, ◌^◌, String, Bool, true, false, Option, none, some, List, [], ◌∷◌, ◌++◌, ◌&&◌, ◌||◌, not,
  ◌==◌, ltb, eqb, if◌then◌else◌,
}
use node_agent.Prelude.Int.{ℤ, pos, sub64, ◌-ℤ◌, eqb_ℤ, ltb_ℤ}
use node_agent.Prelude.Dict.{Dict, lookup, insert, delete}
use node_agent.Stats.{Stat, build_delta_stats}

pub record Entry : Type 0 where
  pub email : String
  pub current_rx : ℤ
  pub current_tx : ℤ
  pub base_rx : ℤ
  pub base_tx : ℤ
  pub last_delta_rx : ℤ
  pub last_delta_tx : ℤ
  pub last_active_time : ℕ
  pub endpoint_ip : String
  pub is_deleted : Bool

pub record Sample : Type 0 where
  pub public_key : String
  pub email : String
  pub rx : ℤ
  pub tx : ℤ
  pub endpoint_ip : String

-- The map of a Tracker.
abbrev pub Tracker : Type 0
Tracker = Dict Entry

abbrev pub new_entry : String → Entry
new_entry email = record {
  email = email;
  current_rx = pos 0;
  current_tx = pos 0;
  base_rx = pos 0;
  base_tx = pos 0;
  last_delta_rx = pos 0;
  last_delta_tx = pos 0;
  last_active_time = 0;
  endpoint_ip = "";
  is_deleted = false;
}

abbrev pub pending_rx : Entry → ℤ
pending_rx e = sub64 e.current_rx e.base_rx

abbrev pub pending_tx : Entry → ℤ
pending_tx e = sub64 e.current_tx e.base_tx

-- A deleted entry with traffic to report is being added again.
unfoldable pub was_removed : Entry → Bool
was_removed e = not (eqb_ℤ e.last_delta_rx (pos 0)) || not (eqb_ℤ e.last_delta_tx (pos 0))

-- Its baseline goes that far below the new counters.
unfoldable pub readd : Sample → Entry → Entry
readd s e = record e {
  base_rx = sub64 s.rx e.last_delta_rx;
  base_tx = sub64 s.tx e.last_delta_tx;
  last_delta_rx = pos 0;
  last_delta_tx = pos 0;
}

abbrev at_least_zero : ℤ → ℤ
at_least_zero z = if ltb_ℤ z (pos 0) then pos 0 else z

unfoldable pub rolled_back : Sample → Entry → Bool
rolled_back s e = ltb_ℤ s.rx e.current_rx || ltb_ℤ s.tx e.current_tx

-- The kernel's counters went back: what is pending stays pending.
unfoldable pub rebase : Sample → Entry → Entry
rebase s e = record e {
  base_rx = sub64 s.rx (at_least_zero (pending_rx e));
  base_tx = sub64 s.tx (at_least_zero (pending_tx e));
}

-- The new counters; growth of either is activity.
unfoldable pub advance : Sample → ℕ → Entry → Entry
advance s active_at e = record e {
  current_rx = s.rx;
  current_tx = s.tx;
  last_active_time =
      if ltb_ℤ e.current_rx s.rx || ltb_ℤ e.current_tx s.tx then active_at else e.last_active_time;
  endpoint_ip = s.endpoint_ip;
}

-- applySampleLocked after the entry was found or made.
unfoldable pub apply_to_entry : Sample → ℕ → Entry → Entry
unfolding was_removed readd rolled_back rebase advance
apply_to_entry s active_at e =
    let touched = record e { email = s.email; is_deleted = false } in
    let readded = was_removed touched in
    let based = if readded then readd s touched else touched in
    if eqb_ℤ based.current_rx s.rx && eqb_ℤ based.current_tx s.tx
    then record based { endpoint_ip = s.endpoint_ip }
    else advance s active_at (if not readded && rolled_back s based then rebase s based else based)

unfoldable pub apply_sample : Sample → ℕ → Tracker → Tracker
apply_sample s active_at t =
    insert s.public_key
      (apply_to_entry s active_at
        (elim (lookup s.public_key t) [ none ↦ new_entry s.email | some e ↦ e ]))
      t

unfoldable pub update_stats_batch : List Sample → ℕ → Tracker → Tracker
unfolding apply_sample
update_stats_batch [] now t = t
update_stats_batch (s ∷ ss) now t = update_stats_batch ss now (apply_sample s now t)

-- The rows of one entry.
unfoldable pub entry_stats : String → Entry → List Stat
unfolding build_delta_stats
entry_stats key e = build_delta_stats e.email key (pending_rx e) (pending_tx e)

abbrev pub reported : Entry → Entry
reported e = record e { base_rx = e.current_rx; base_tx = e.current_tx }

-- A reset moves the baseline up, and drops the entry if its peer is deleted.
unfoldable pub reset_entry : String → Entry → Tracker → Tracker
reset_entry key e t = if e.is_deleted then delete key t else insert key (reported e) t

unfoldable pub get_stats : List String → Bool → Tracker → List Stat × Tracker
unfolding entry_stats reset_entry
get_stats [] reset t = ([], t)
get_stats (key ∷ keys) reset t =
    let found = lookup key t in
    let rows : List Stat = elim found [ none ↦ [] | some e ↦ entry_stats key e ] in
    let t' : Tracker = elim found [
      | none ↦ t
      | some e ↦ if reset then reset_entry key e t else t
    ] in
    let (more, t'') = get_stats keys reset t' in (rows ++ more, t'')

-- The loop over the whole map.
unfoldable pub get_users_stats : Bool → Tracker → List Stat × Tracker
unfolding entry_stats
get_users_stats reset [] = ([], [])
get_users_stats reset ((key, e) ∷ t) =
    let (more, t') = get_users_stats reset t in
    (
      entry_stats key e ++ more,
      if reset then if e.is_deleted then t' else (key, reported e) ∷ t' else (key, e) ∷ t',
    )

unfoldable pub get_stats_entries : List String → Tracker → Dict Entry → Dict Entry
get_stats_entries [] t result = result
get_stats_entries (key ∷ keys) t result =
    get_stats_entries keys t (elim (lookup key t) [ none ↦ result | some e ↦ insert key e result ])

unfoldable pub any_active_since : List String → ℕ → Tracker → Bool
any_active_since [] cutoff t = false
any_active_since (key ∷ keys) cutoff t =
    let later = any_active_since keys cutoff t in
    elim (lookup key t) [
      | none ↦ later
      | some e ↦ if ltb cutoff e.last_active_time then true else later
    ]

-- Seconds between Go's zero time and 1970.
abbrev unix_epoch : ℕ
unix_epoch = 62135596800

abbrev pub unix : ℕ → ℤ
unix time = pos (time / 10 ^ 9) -ℤ pos unix_epoch

-- The later of two sightings at one address is kept.
unfoldable pub note_endpoint : Entry → Dict ℤ → Dict ℤ
note_endpoint e result =
    let ts = unix e.last_active_time in
    if e.endpoint_ip == "" || eqb e.last_active_time 0
    then result
    else elim (lookup e.endpoint_ip result) [
      | none ↦ insert e.endpoint_ip ts result
      | some prev ↦ if ltb_ℤ prev ts then insert e.endpoint_ip ts result else result
    ]

unfoldable pub endpoint_activity : List String → Tracker → Dict ℤ → Dict ℤ
unfolding note_endpoint
endpoint_activity [] t result = result
endpoint_activity (key ∷ keys) t result =
    endpoint_activity keys t
      (elim (lookup key t) [ none ↦ result | some e ↦ note_endpoint e result ])

abbrev pub mark_deleted : Entry → Entry
mark_deleted e = record e {
  last_delta_rx = pending_rx e;
  last_delta_tx = pending_tx e;
  is_deleted = true;
  last_active_time = 0;
}

unfoldable pub remove_stats : String → Tracker → Tracker
remove_stats key t = elim (lookup key t) [ none ↦ t | some e ↦ insert key (mark_deleted e) t ]

abbrev pub clear_all_stats : Tracker → Tracker
clear_all_stats t = []

unfoldable pub cleanup_deleted_entries : Tracker → Tracker
cleanup_deleted_entries [] = []
cleanup_deleted_entries ((key, e) ∷ t) =
    let rest = cleanup_deleted_entries t in
    if e.is_deleted && (eqb_ℤ e.current_rx e.base_rx && eqb_ℤ e.current_tx e.base_tx)
    then rest
    else (key, e) ∷ rest
