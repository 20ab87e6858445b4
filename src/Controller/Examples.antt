-- ===== src/Controller/Examples.antt =====
-- The theorem on chunks at two parts, of which the second came first.
use node_agent.Prelude.{
  ℕ, ◌≡◌, refl, Option, none, some, List, [], ◌∷◌, eqb, if◌then◌else◌, true, ok,
}
use node_agent.Common.{User}
use node_agent.Controller.Chunks.{concat, build_users_from_chunks, build_users_from_chunks-concat}

abbrev ann : User
ann = record { email = "ann"; proxies = none; inbounds = [] }

abbrev bob : User
bob = record { email = "bob"; proxies = none; inbounds = [] }

abbrev chunks : ℕ → Option (List User)
chunks i = if eqb i 1 then some (bob ∷ []) else if eqb i 0 then some (ann ∷ []) else none

build_users_from_chunks-concat_example : build_users_from_chunks chunks 1 true ≡ ok (ann ∷ bob ∷ [])
unfolding concat
build_users_from_chunks-concat_example =
    build_users_from_chunks-concat (ann ∷ []) ((bob ∷ []) ∷ []) chunks ann (bob ∷ [])
      (refl, (refl, tt)) refl
