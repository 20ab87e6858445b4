-- ===== src/Shared/Traffic/Charges.antt =====
-- What a round of accounting charges to a tenant.
use node_agent.Prelude.{
  String, Bool, false, ◌||◌, Option, none, some, List, [], ◌∷◌, ◌==◌, if◌then◌else◌,
}
use node_agent.Prelude.Int.{ℤ, add64, sub64, leb_ℤ}
use node_agent.Prelude.Dict.{Dict, lookup}
use node_agent.Stats.{Stat}
use node_agent.Shared.Traffic.{amount}

-- The growth since the last round, for a name of the tenant.
abbrev charge_one : String → Option String → ℤ → ℤ → ℤ
charge_one tid none delta sum = sum
charge_one tid (some owner) delta sum = if owner == tid then add64 sum delta else sum

-- What came since a total was last seen; a total that went back starts from nothing.
unfoldable pub growth : ℤ → ℤ → ℤ
growth last total = if leb_ℤ last total then sub64 total last else total

-- The rows of a name, added up.
unfoldable pub total_of : String → List Stat → ℤ → ℤ
total_of email [] sum = sum
total_of email (s ∷ ss) sum = total_of email ss (if s.name == email then add64 sum s.value else sum)

abbrev pub has_row : String → List Stat → Bool
has_row email [] = false
has_row email (s ∷ ss) = (s.name == email) || has_row email ss

-- The growth of every total of the tenant's users since the last round, added up.
unfoldable pub charges : String → Dict String → Dict ℤ → Dict ℤ → ℤ → ℤ
charges tid email_to last_seen [] sum = sum
charges tid email_to last_seen ((email, total) ∷ more) sum =
    let delta = growth (amount email last_seen) total in
    charges tid email_to last_seen more (charge_one tid (lookup email email_to) delta sum)
