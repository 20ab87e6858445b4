-- ===== src/Prelude/Sorting.antt =====
-- sort.Strings, as insertion: the result has the same texts. The order is that of the bytes.
use Prim.Native.Nat.{Ordering}
use Prim.Native.String.{String, compare}
use mathlib.Core.Path.{◌≡◌, refl}
use mathlib.Core.Bool.{Bool, true, false, ◌||◌}
use mathlib.Core.List.{List, [], ◌∷◌}
use native.Mathlib.Omega.{arith}
use text.Mathlib.Text.{◌==◌}
use node_agent.Prelude.Tests.{if◌then◌else◌}
use node_agent.Prelude.Lists.{contains}

abbrev pub is_after : String → String → Bool
is_after s t = elim (compare s t) [ Ordering.gt ↦ true | _ ↦ false ]

module _ {ℓ} {A : Type ℓ} (key : A → String) where
  -- Values in the order of their keys, as sort.Slice puts them.
  unfoldable pub place : A → List A → List A
  place a [] = a ∷ []
  place a (b ∷ bs) =
      let later = b ∷ place a bs in if is_after (key a) (key b) then later else a ∷ b ∷ bs

  unfoldable pub sort_by : List A → List A
  unfolding place
  sort_by [] = []
  sort_by (a ∷ as') = place a (sort_by as')

abbrev pub sort_strings : List String → List String
sort_strings = sort_by (λ s. s)

contains-place :
    (s : String) (ts : List String) (asked : String)
    → contains (place (λ x. x) s ts) asked ≡ (s == asked) || contains ts asked
unfolding place
contains-place s [] asked = refl
contains-place s (t ∷ ts) asked = ground (arith, contains-place s ts asked)

pub contains-sort_strings :
    (ts : List String) (asked : String) → contains (sort_strings ts) asked ≡ contains ts asked
unfolding sort_by
contains-sort_strings [] asked = refl
contains-sort_strings (t ∷ ts) asked =
    ground (arith, contains-place t (sort_by (λ x. x) ts) asked, contains-sort_strings ts asked)
