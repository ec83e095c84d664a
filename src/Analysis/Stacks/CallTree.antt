-- ===== src/Analysis/Stacks/CallTree.antt =====
-- Hit counts and the call tree of snail/analysis/analysis.cpp.
use snail_server.Common.{
  ℕ, zero, suc, ◌+◌, Bool, false, List, [], ◌∷◌, ◌++◌, Option, none, some, ◌==◌, if◌then◌else◌,
  length, get_elem?,
}
use snail_server.Common.AssocMap.{lookup, insert}
use snail_server.Analysis.Stacks.{HitCounts, init_hits}

abbrev pub zero_hits : HitCounts
zero_hits = record { total = 0; self = 0 }

abbrev pub add_total : HitCounts → HitCounts
add_total h = record h { total = h.total + 1 }

abbrev pub add_self : HitCounts → HitCounts
add_self h = record h { self = h.self + 1 }

-- `hits.get(source)` for an increment: the vector grows up to the source.
unfoldable pub count_hit : (HitCounts → HitCounts) → ℕ → List HitCounts → List HitCounts
count_hit f zero [] = f zero_hits ∷ []
count_hit f zero (h ∷ hs) = f h ∷ hs
count_hit f (suc source) [] = zero_hits ∷ count_hit f source []
count_hit f (suc source) (h ∷ hs) = h ∷ count_hit f source hs

abbrev pub hits_or_none : Option (List HitCounts) → List HitCounts
hits_or_none none = []
hits_or_none (some hits) = hits

-- An increment under a key of a map; a missing key gets an empty vector first.
unfoldable pub count_hit_at :
    (HitCounts → HitCounts) → ℕ → ℕ → List (ℕ × List HitCounts) → List (ℕ × List HitCounts)
count_hit_at f key source counts =
    insert key (count_hit f source (hits_or_none (lookup key counts))) counts

unfoldable pub update_at {ℓ} : {A : Type ℓ} → (A → A) → ℕ → List A → List A
update_at f i [] = []
update_at f zero (x ∷ xs) = f x ∷ xs
update_at f (suc i) (x ∷ xs) = x ∷ update_at f i xs

pub record CallTreeNode : Type 0 where
  pub id : ℕ
  pub function_id : ℕ
  pub hits : List HitCounts
  pub children : List ℕ

-- The first child that calls the function. A child that does not exist would be undefined behaviour;
-- here it is passed over.
abbrev pub is_call_of : ℕ → Option CallTreeNode → Bool
is_call_of function_id none = false
is_call_of function_id (some node) = node.function_id == function_id

unfoldable pub find_child : List CallTreeNode → ℕ → List ℕ → Option ℕ
find_child nodes function_id [] = none
find_child nodes function_id (child ∷ children) =
    let later = find_child nodes function_id children in
    if is_call_of function_id (get_elem? nodes child) then some child else later

-- The root is kept beside the vector of the other nodes.
pub record CallTree : Type 0 where
  pub root : CallTreeNode
  pub nodes : List CallTreeNode

abbrev pub children_or_none : Option CallTreeNode → List ℕ
children_or_none none = []
children_or_none (some node) = node.children

abbrev pub children_of : Option ℕ → CallTree → List ℕ
children_of none t = t.root.children
children_of (some i) t = children_or_none (get_elem? t.nodes i)

abbrev pub update_node : (CallTreeNode → CallTreeNode) → Option ℕ → CallTree → CallTree
update_node f none t = record t { root = f t.root }
update_node f (some i) t = record t { nodes = update_at f i t.nodes }

abbrev pub append_child : ℕ → Option ℕ → ℕ → CallTree → Option ℕ → ℕ × CallTree
append_child max_source_id current function_id t (some child) = (child, t)
append_child max_source_id current function_id t none =
    let new_node_id = length t.nodes in
    let t' = update_node (λ n. record n { children = n.children ++ new_node_id ∷ [] }) current t in
    (
      new_node_id,
      record t' {
        nodes =
            t'.nodes
            ++ record {
              id = new_node_id;
              function_id = function_id;
              hits = init_hits max_source_id;
              children = [];
            }
              ∷ [];
      },
    )

unfoldable pub get_or_append_call_tree_child : ℕ → Option ℕ → ℕ → CallTree → ℕ × CallTree
get_or_append_call_tree_child max_source_id current function_id t =
    append_child max_source_id current function_id t
      (find_child t.nodes function_id (children_of current t))
