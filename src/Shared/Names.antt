-- ===== src/Shared/Names.antt =====
-- The prefixes of tenants whose ids have no dot: no name is in two of them.
use Prim.Native.Char.{Char, code}
use native.Mathlib.Omega.{arith}
use mathlib.Core.Bool.{Bool, true, ◌&&◌, not}
use node_agent.Prelude.{eqb}
use Prim.Native.String.{String, [], ◌∷◌, ◌++◌}
use mathlib.Core.Path.{◌≡◌, refl, sym, ◌∙◌, ap, ap₂}
use mathlib.Core.Logic.{◌≢◌}
use text.Mathlib.Text.{starts_with}
use text.Mathlib.TextEquality.{starts_with_iff}
use text.Mathlib.TextLemmas.{
  nil-append, cons-append, append_assoc, append_cancel_left, head-eq_of_cons-eq, tail-eq_of_cons-eq,
}
use node_agent.Shared.{prefix}

abbrev dot : Char
dot = "."

abbrev pub HasNoDot : String → Type 0
HasNoDot [] = Unit
HasNoDot (c ∷ s) = (c ≢ dot) × HasNoDot s

-- The test of the same.
abbrev pub has_no_dot : String → Bool
has_no_dot [] = true
has_no_dot (c ∷ s) = not (eqb (code c) 46) && has_no_dot s

pub has_no_dot-HasNoDot : (s : String) → has_no_dot s ≡ true → HasNoDot s
has_no_dot-HasNoDot [] e = tt
has_no_dot-HasNoDot (c ∷ s) e = (
  λ same. let codes : code c ≡ 46 = ap code same in ground (arith, codes, e),
  has_no_dot-HasNoDot s (ground (arith, e)),
)

-- What stands before the first dot is determined.
before_dot : (a b x y : String) → HasNoDot a → HasNoDot b → a ++ (dot ∷ x) ≡ b ++ (dot ∷ y) → a ≡ b
before_dot [] [] x y h k e = refl
before_dot [] (d ∷ b) x y h k e =
    absurd
      (k.0 (sym (head-eq_of_cons-eq (sym (nil-append (dot ∷ x)) ∙ e ∙ cons-append d b (dot ∷ y)))))
before_dot (c ∷ a) [] x y h k e =
    absurd (h.0 (head-eq_of_cons-eq (sym (cons-append c a (dot ∷ x)) ∙ e ∙ nil-append (dot ∷ y))))
before_dot (c ∷ a) (d ∷ b) x y h k e =
    let e' = sym (cons-append c a (dot ∷ x)) ∙ e ∙ cons-append d b (dot ∷ y) in
    ap₂ (λ i s. i ∷ s) (head-eq_of_cons-eq e') (before_dot a b x y h.1 k.1 (tail-eq_of_cons-eq e'))

regroup : (a u : String) → prefix a ++ u ≡ "t" ++ (a ++ (dot ∷ u))
regroup a u =
    append_assoc ("t" ++ a) "." u
    ∙ append_assoc "t" a ("." ++ u)
    ∙ ap (λ v. "t" ++ (a ++ v)) (cons-append dot [] u ∙ ap (λ v. dot ∷ v) (nil-append u))

pub prefixes_apart :
    (a b s : String)
    → HasNoDot a
    → HasNoDot b
    → starts_with s (prefix a) ≡ true
    → starts_with s (prefix b) ≡ true
    → a ≡ b
prefixes_apart a b s h k f g =
    let (u, e) = (starts_with_iff s (prefix a)).0 f in
    let (v, e') = (starts_with_iff s (prefix b)).0 g in
    before_dot a b u v h k
      (append_cancel_left "t" _ _ (sym (regroup a u) ∙ e ∙ sym e' ∙ regroup b v))
