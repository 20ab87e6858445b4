-- ===== src/Shared/Traffic.antt =====
-- shared/manager.go, lines 465 to 543: CollectAndEnforce and GetTenantUserStats.
pub mod Charges
use text.Mathlib.Text.{starts_with}
use Prim.Native.String.{slice, len}
use node_agent.Prelude.{
  String, Bool, true, false, Option, none, some, List, [], ◌∷◌, if◌then◌else◌, Result, ok, err,
}
use node_agent.Prelude.Int.{ℤ, pos, add64, sub64, ltb_ℤ}
use node_agent.Prelude.Dict.{Dict, lookup, insert}
use node_agent.Stats.{Stat}
use node_agent.Tenant.Store.{Store}
use node_agent.Tenant.Registry.{Change, add_usage, enforce}
use node_agent.Shared.{Core, Manager, usage_failed, Answer, prefix}
use node_agent.Shared.Lifecycle.{remove_tenant_from_core}

-- m[key], where a missing entry is 0.
abbrev pub amount : String → Dict ℤ → ℤ
amount key m = elim (lookup key m) [ none ↦ pos 0 | some z ↦ z ]

-- The sum of the rows of each user.
unfoldable pub current_totals : List Stat → Dict ℤ → Dict ℤ
current_totals [] current = current
current_totals (s ∷ ss) current =
    current_totals ss (insert s.name (add64 (amount s.name current) s.value) current)

-- A total below the last one is that of a core that was restarted.
abbrev pub delta_since : ℤ → ℤ → ℤ
delta_since last total = if ltb_ℤ total last then total else sub64 total last

-- deltas[tid] += delta, for a name with a tenant.
abbrev pub add_delta : Option String → ℤ → Dict ℤ → Dict ℤ
add_delta none delta deltas = deltas
add_delta (some tid) delta deltas = insert tid (add64 (amount tid deltas) delta) deltas

-- The loop over the totals: the last ones seen, and what each tenant has used.
unfoldable pub attribute : Dict String → Dict ℤ → Dict ℤ → Dict ℤ → Dict ℤ × Dict ℤ
attribute email_to [] last_seen deltas = (last_seen, deltas)
attribute email_to ((email, total) ∷ more) last_seen deltas =
    let delta = delta_since (amount email last_seen) total in
    attribute email_to more (insert email total last_seen)
      (add_delta (lookup email email_to) delta deltas)

unfoldable pub strip : String → List Stat → List Stat
strip p [] = []
strip p (s ∷ ss) =
    let rest = strip p ss in
    if starts_with s.name p
    then record s { name = slice s.name (len p) (len s.name) } ∷ rest
    else rest

module _ {S K : Type 0} (c : Core K) where
  unfoldable pub get_tenant_user_stats : String → Manager S K → List Stat × Manager S K
  unfolding strip
  get_tenant_user_stats tenant_id m = elim m.core [
    | none ↦ ([], m)
    | some k ↦
        let (resp, k') = c.get_stats k in
        (
          elim resp [ none ↦ [] | some ss ↦ strip (prefix tenant_id) ss ],
          record m { core = some k' },
        )
  ]

  unfoldable pub cut_off : List Change → Manager S K → Manager S K
  cut_off [] m = m
  cut_off (x ∷ xs) m = cut_off xs (remove_tenant_from_core c x.tenant.id m)

  module _ (st : Store S) where
    unfoldable pub charge : Dict ℤ → Manager S K → Answer × Manager S K
    charge [] m = (ok tt, m)
    charge ((tid, d) ∷ more) m =
        let (reply, reg) = add_usage st tid d m.reg in
        let m' : Manager S K = record m { reg = reg } in
        elim reply [ err e ↦ (err (usage_failed tid e), m') | ok _ ↦ charge more m' ]

    unfoldable pub account : List Stat → Manager S K → Answer × Manager S K
    unfolding current_totals attribute charge
    account ss m =
        let (last_seen, deltas) = attribute m.email_to (current_totals ss []) m.last_seen [] in
        charge deltas (record m { last_seen = last_seen })

    unfoldable pub enforce_all : ℤ → Manager S K → Manager S K
    unfolding cut_off
    enforce_all now m =
        let (changes, reg) = enforce st now m.reg in cut_off changes (record m { reg = reg })

    unfoldable pub collect_and_enforce : ℤ → Manager S K → Answer × Manager S K
    unfolding account enforce_all
    collect_and_enforce now m = elim m.core [
      | none ↦ (ok tt, m)
      | some k ↦
          let (resp, k') = c.get_stats k in
          let m1 : Manager S K = record m { core = some k' } in
          let counted : Answer × Manager S K = elim resp [
            | none ↦ (ok tt, m1)
            | some ss ↦ account ss m1
          ] in
          elim counted.0 [ err e ↦ (err e, counted.1) | ok _ ↦ (ok tt, enforce_all now counted.1) ]
    ]
