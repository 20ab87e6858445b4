-- ===== src/Prelude/Dict.antt =====
-- A Go map with string keys, as an association list. `range` visits the entries in list order:
-- a statement over every list covers every order in which Go may visit them.
use Prim.Native.String.{String}
use mathlib.Core.Path.{◌≡◌, refl}
use mathlib.Core.Bool.{Bool, true, false}
use mathlib.Core.Option.{Option, none, some}
use mathlib.Core.Option
use mathlib.Core.List.{List, [], ◌∷◌}
use native.Mathlib.Omega.{arith}
use text.Mathlib.Text.{◌==◌}
use text.Mathlib.TextEquality.{eq_iff}
use node_agent.Prelude.Tests.{if◌then◌else◌}

abbrev pub Dict {ℓ} : Type ℓ → Type ℓ
Dict V = List (String × V)

module _ {ℓ} {V : Type ℓ} where
  -- v, ok := m[key]
  unfoldable pub lookup : String → Dict V → Option V
  lookup key [] = none
  lookup key ((first, value) ∷ rest) =
      let later = lookup key rest in if first == key then some value else later

  -- m[key] = value
  unfoldable pub insert : String → V → Dict V → Dict V
  insert key value [] = (key, value) ∷ []
  insert key value ((first, old) ∷ rest) =
      let kept = (first, old) ∷ insert key value rest in
      if first == key then (key, value) ∷ rest else kept

  -- delete(m, key)
  unfoldable pub delete : String → Dict V → Dict V
  delete key [] = []
  delete key ((first, value) ∷ rest) =
      let others = delete key rest in if first == key then others else (first, value) ∷ others

  unfoldable pub has_key : String → Dict V → Bool
  unfolding lookup
  has_key k m = elim (lookup k m) [ none ↦ false | some _ ↦ true ]

  pub lookup-insert :
      (key asked : String) (value : V) (m : Dict V)
      → lookup asked (insert key value m) ≡ (if key == asked then some value else lookup asked m)
  unfolding lookup insert
  lookup-insert key asked value [] = ground arith
  lookup-insert key asked value ((first, old) ∷ rest) =
      let later = lookup-insert key asked value rest in
      ground (arith, later, eq_iff first asked, eq_iff first key, eq_iff key asked)

  pub lookup-delete :
      (key asked : String) (m : Dict V)
      → lookup asked (delete key m) ≡ (if key == asked then none else lookup asked m)
  unfolding lookup delete
  lookup-delete key asked [] = ground arith
  lookup-delete key asked ((first, old) ∷ rest) =
      let later = lookup-delete key asked rest in
      ground (arith, later, eq_iff first asked, eq_iff first key, eq_iff key asked)

  -- No key stands twice, as in every Go map.
  abbrev pub IsMap : Dict V → Type ℓ
  IsMap [] = Unit
  IsMap ((k, v) ∷ m) = (lookup k m ≡ none) × IsMap m

  pub insert-IsMap : (k : String) (v : V) (m : Dict V) → IsMap m → IsMap (insert k v m)
  unfolding lookup insert
  insert-IsMap k v [] h = (refl, tt)
  insert-IsMap k v ((i, w) ∷ m) h =
      ground (arith, eq_iff i k, eq_iff k i, lookup-insert k i v m, insert-IsMap k v m h.1)

  pub delete-IsMap : (k : String) (m : Dict V) → IsMap m → IsMap (delete k m)
  unfolding lookup delete
  delete-IsMap k [] h = tt
  delete-IsMap k ((i, w) ∷ m) h =
      ground (arith, eq_iff i k, lookup-delete k i m, delete-IsMap k m h.1)

module _ {ℓ κ} {V : Type ℓ} {W : Type κ} where
  -- A new value for every key.
  unfoldable pub map_values : (V → W) → Dict V → Dict W
  map_values f [] = []
  map_values f ((k, v) ∷ m) = (k, f v) ∷ map_values f m

  pub lookup-map_values :
      (f : V → W) (k : String) (m : Dict V) → lookup k (map_values f m) ≡ Option.map f (lookup k m)
  unfolding lookup map_values
  lookup-map_values f k [] = refl
  lookup-map_values f k ((j, v) ∷ m) = ground (arith, lookup-map_values f k m)

  pub map_values-IsMap : (f : V → W) (m : Dict V) → IsMap m → IsMap (map_values f m)
  unfolding map_values
  map_values-IsMap f [] h = tt
  map_values-IsMap f ((k, v) ∷ m) h = (rw (lookup-map_values f k m, h.0), map_values-IsMap f m h.1)
