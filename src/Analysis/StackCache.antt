-- ===== src/Analysis/StackCache.antt =====
-- snail/analysis/detail/stack_cache.hpp: every stack is stored once and named by its index.
-- `std::hash` of an instruction pointer is a parameter.
pub mod Laws
pub mod Examples
use Prim.Native.Nat.{bit_xor}
use snail_server.Common.{
  ℕ, Bool, true, false, ◌&&◌, List, [], ◌∷◌, ◌++◌, Option, none, some, length, get_elem?, ◌==◌,
  if◌then◌else◌,
}
use snail_server.Text.Codes.{equal}
use snail_server.Common.AssocMap.{lookup, insert}

pub record StackCache : Type 0 where
  pub stacks : List (List ℕ)
  pub stack_map : List (ℕ × List ℕ)

abbrev pub empty_cache : StackCache
empty_cache = record { stacks = []; stack_map = [] }

hash_combine : ℕ → ℕ → ℕ
hash_combine lhs rhs = bit_xor lhs rhs

hash_from : (ℕ → ℕ) → ℕ → List ℕ → ℕ
unfolding hash_combine
hash_from ip_hash acc [] = acc
hash_from ip_hash acc (ip ∷ ips) = hash_from ip_hash (hash_combine acc (ip_hash ip)) ips

pub stack_hasher : (ℕ → ℕ) → List ℕ → ℕ
unfolding hash_from
stack_hasher ip_hash stack = hash_from ip_hash (length stack) stack

abbrev pub saved_indices : Option (List ℕ) → List ℕ
saved_indices none = []
saved_indices (some is) = is

abbrev pub same_stack : Option (List ℕ) → List ℕ → Bool
same_stack none stack = false
same_stack (some saved) stack = equal saved stack

-- The loop over the indices that share the hash.
pub find_saved : List (List ℕ) → List ℕ → List ℕ → Option ℕ
find_saved stacks stack [] = none
find_saved stacks stack (i ∷ is) =
    let later = find_saved stacks stack is in
    if same_stack (get_elem? stacks i) stack then some i else later

abbrev insert_found : StackCache → ℕ → List ℕ → List ℕ → Option ℕ → StackCache × ℕ
insert_found c hash indices stack (some i) =
    (record c { stack_map = insert hash indices c.stack_map }, i)
insert_found c hash indices stack none = (
  record {
    stacks = c.stacks ++ stack ∷ [];
    stack_map = insert hash (indices ++ length c.stacks ∷ []) c.stack_map;
  },
  length c.stacks,
)

pub insert_stack : (ℕ → ℕ) → StackCache → List ℕ → StackCache × ℕ
insert_stack ip_hash c stack =
    let hash = stack_hasher ip_hash stack in
    let indices = saved_indices (lookup hash c.stack_map) in
    insert_found c hash indices stack (find_saved c.stacks stack indices)

-- An index out of range is `none`.
abbrev pub get : StackCache → ℕ → Option (List ℕ)
get c i = get_elem? c.stacks i

-- A sequence of insertions.
pub insert_all : (ℕ → ℕ) → StackCache → List (List ℕ) → StackCache
insert_all ip_hash c [] = c
insert_all ip_hash c (s ∷ ss) = insert_all ip_hash (insert_stack ip_hash c s).0 ss
