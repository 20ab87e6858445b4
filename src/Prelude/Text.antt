-- ===== src/Prelude/Text.antt =====
-- strings.TrimSpace: the white space of Unicode is taken off both ends.
use Prim.Native.Nat.{ℕ}
use Prim.Native.Char.{Char, code}
use Prim.Native.String.{String, [], ◌∷◌}
use mathlib.Core.Bool.{Bool, ◌&&◌, ◌||◌}
use text.Mathlib.Text.{◌==◌}
use node_agent.Prelude.Tests.{leb, eqb, if◌then◌else◌}

abbrev between : ℕ → ℕ → ℕ → Bool
between low high n = leb low n && leb n high

unfoldable pub is_space : Char → Bool
is_space c =
    let n = code c in
    between 9 13 n
    || eqb n 32
    || eqb n 0x85
    || eqb n 0xA0
    || eqb n 0x1680
    || between 0x2000 0x200A n
    || between 0x2028 0x2029 n
    || eqb n 0x202F
    || eqb n 0x205F
    || eqb n 0x3000

unfoldable pub trim_left : String → String
unfolding is_space
trim_left [] = []
trim_left (c ∷ s) = let rest = trim_left s in if is_space c then rest else c ∷ s

unfoldable pub trim_right : String → String
unfolding is_space
trim_right [] = []
trim_right (c ∷ s) = let rest = trim_right s in if is_space c && rest == [] then [] else c ∷ rest

unfoldable pub trim_space : String → String
unfolding trim_left trim_right
trim_space s = trim_right (trim_left s)
