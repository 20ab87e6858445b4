-- ===== src/Prelude/KeyOrder.antt =====
-- A map whose entries are put in the order of their keys is the same map.
use Prim.Native.String.{String}
use mathlib.Core.Path.{◌≡◌, refl, ◌∙◌}
use mathlib.Core.Logic.{inl, inr}
use mathlib.Core.Option.{none, some}
use mathlib.Core.List.{[], ◌∷◌}
use native.Mathlib.Omega.{arith}
use text.Mathlib.Text.{◌==◌}
use text.Mathlib.TextEquality.{eq_iff}
use node_agent.Prelude.Tests.{if◌then◌else◌, Bool-cases}
use node_agent.Prelude.Sorting.{is_after, place, sort_by}
use node_agent.Prelude.Dict.{Dict, lookup, IsMap}

module _ {V : Type 0} where
  abbrev pub in_order : Dict V → Dict V
  in_order m = sort_by (λ (entry : String × V). entry.0) m

  abbrev put_entry : String × V → Dict V → Dict V
  put_entry entry m = place (λ (e : String × V). e.0) entry m

  lookup-put_entry :
      (k asked : String) (v : V) (m : Dict V)
      → lookup k m ≡ none
      → lookup asked (put_entry (k, v) m) ≡ (if k == asked then some v else lookup asked m)
  unfolding place lookup
  lookup-put_entry k asked v [] h = refl
  lookup-put_entry k asked v ((j, w) ∷ m) h = ground (
    arith,
    lookup-put_entry k asked v m,
    eq_iff j k,
    eq_iff j asked,
    eq_iff k asked,
    Bool-cases (is_after k j),
  )

  put_entry-IsMap :
      (k : String) (v : V) (m : Dict V) → lookup k m ≡ none → IsMap m → IsMap (put_entry (k, v) m)
  unfolding place lookup
  put_entry-IsMap k v [] h u = (refl, tt)
  put_entry-IsMap k v ((j, w) ∷ m) h u = elim (Bool-cases (is_after k j)) [
    | inr n ↦ rw (n, place) (h, u)
    | inl y ↦
        rw (y, place)
          (
            ground (arith, lookup-put_entry k j v m, h, u.0, eq_iff j k, eq_iff k j),
            put_entry-IsMap k v m (ground (arith, h)) u.1,
          )
  ]

  pub in_order_lem :
      (m : Dict V)
      → IsMap m
      → IsMap (in_order m) × ((k : String) → lookup k (in_order m) ≡ lookup k m)
  unfolding sort_by lookup
  in_order_lem [] u = (tt, λ k. refl)
  in_order_lem ((j, v) ∷ m) u =
      let (u', same) = in_order_lem m u.1 in
      let free : lookup j (in_order m) ≡ none = same j ∙ u.0 in
      (
        put_entry-IsMap j v (in_order m) free u',
        λ k. ground (arith, lookup-put_entry j k v (in_order m) free, same k),
      )
