-- ===== src/Controller/Chunks.antt =====
-- controller/users_chunk.go: a list of users from its chunks. The map of the chunks is a function
-- from the index. The loop counts the indexes that are left, so an index near 2^64 does not wrap.
use node_agent.Prelude.{
  ℕ, zero, suc, ◌≡◌, refl, Bool, true, Option, none, some, List, [], ◌∷◌, ◌++◌, arith,
  if◌then◌else◌, Result, ok, err,
}
use node_agent.Common.{User}

pub data ChunkError : Type 0 where
  missing_final no_users : ChunkError
  missing_chunk : ℕ → ChunkError

-- The loop from index `i` over `n` indexes.
unfoldable pub collect_chunks : (ℕ → Option (List User)) → ℕ → ℕ → Result ChunkError (List User)
collect_chunks chunks i zero = ok []
collect_chunks chunks i (suc n) = elim (chunks i) [
  | none ↦ err (missing_chunk i)
  | some us ↦ elim (collect_chunks chunks (suc i) n) [ err e ↦ err e | ok more ↦ ok (us ++ more) ]
]

abbrev require_users : List User → Result ChunkError (List User)
require_users [] = err no_users
require_users (u ∷ us) = ok (u ∷ us)

unfoldable pub build_users_from_chunks :
    (ℕ → Option (List User)) → ℕ → Bool → Result ChunkError (List User)
unfolding collect_chunks
build_users_from_chunks chunks last_index saw_last =
    let collected : Result ChunkError (List User) =
      elim (collect_chunks chunks 0 (suc last_index)) [
        | err e ↦ err e
        | ok us ↦ require_users us
      ] in
    if saw_last then collected else err missing_final

unfoldable pub concat : List (List User) → List User
concat [] = []
concat (us ∷ parts) = us ++ concat parts

abbrev parts_after : List (List User) → ℕ
parts_after [] = 0
parts_after (us ∷ parts) = suc (parts_after parts)

-- The parts stand under the indexes from `i` on.
abbrev pub AreChunks : List (List User) → ℕ → (ℕ → Option (List User)) → Type 0
AreChunks [] i chunks = Unit
AreChunks (us ∷ parts) i chunks = (chunks i ≡ some us) × AreChunks parts (suc i) chunks

collect_chunks-concat :
    (parts : List (List User)) (i : ℕ) (chunks : ℕ → Option (List User))
    → AreChunks parts i chunks
    → collect_chunks chunks i (parts_after parts) ≡ ok (concat parts)
unfolding collect_chunks concat
collect_chunks-concat [] i chunks h = refl
collect_chunks-concat (us ∷ parts) i chunks h =
    ground (arith, h.0, collect_chunks-concat parts (suc i) chunks h.1)

-- Users that were sent in parts, each under its index, are put together in the order of the indexes,
-- once the final part was seen. Conditions: every part is there, and there is a user.
pub build_users_from_chunks-concat :
    (first : List User) (parts : List (List User)) (chunks : ℕ → Option (List User)) (u : User)
    (us : List User)
    → AreChunks (first ∷ parts) 0 chunks
    → concat (first ∷ parts) ≡ u ∷ us
    → build_users_from_chunks chunks (parts_after parts) true ≡ ok (u ∷ us)
unfolding build_users_from_chunks
build_users_from_chunks-concat first parts chunks u us h e =
    ground (arith, collect_chunks-concat (first ∷ parts) 0 chunks h, e)
