-- ===== src/Analysis/StackCache/Examples.antt =====
-- Stacks that collide under a constant hash, and the theorems at them.
use snail_server.Common.{ℕ, ◌≡◌, refl, [], ◌∷◌}
use snail_server.Text.Codes.{equal}
use snail_server.Common.AssocMap.{lookup, insert}
use snail_server.Analysis.StackCache.{
  StackCache, stack_hasher, find_saved, insert_stack, insert_all,
}
use snail_server.Analysis.StackCache.Laws.{stored_once}

abbrev constant_hash : ℕ → ℕ
constant_hash ip = 0

abbrev two_stacks : StackCache
two_stacks = record { stacks = (1 ∷ 2 ∷ []) ∷ (3 ∷ 4 ∷ []) ∷ []; stack_map = (2, 0 ∷ 1 ∷ []) ∷ [] }

finds_second : (insert_stack constant_hash two_stacks (3 ∷ 4 ∷ [])).1 ≡ 1
unfolding insert_stack find_saved equal stack_hasher lookup
finds_second = refl

stored_once_example : ◌≡◌ {A = ℕ} 1 1
unfolding insert_all insert_stack find_saved equal stack_hasher lookup insert
stored_once_example =
    stored_once constant_hash ((1 ∷ []) ∷ (2 ∷ []) ∷ (1 ∷ []) ∷ []) 1 1 (2 ∷ []) refl refl
