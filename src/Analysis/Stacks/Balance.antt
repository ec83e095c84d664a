-- ===== src/Analysis/Stacks/Balance.antt =====
-- The hits of a place in the call tree are its own and those of its children.
pub mod Sums
pub mod Results
pub mod Roots
use snail_server.Common.{
  ℕ, zero, suc, ◌+◌, ◌≤◌, ◌<◌, ◌≡◌, refl, sym, ap, ap₂, ◌∙◌, subst, Bool, true, false, ◌&&◌, List,
  [], ◌∷◌, ◌++◌, Option, none, some, ◌==◌, if◌then◌else◌, length, get_elem?, arith, Bool-cases,
  Option-cases, inl, inr,
}
use snail_server.Analysis.Stacks.{HitCounts, init_hits}
use snail_server.Analysis.Stacks.CallTree.{
  add_total, add_self, count_hit, CallTreeNode, CallTree, children_of, append_child, find_child,
  is_call_of, get_or_append_call_tree_child,
}
use snail_server.Analysis.Stacks.Hits.{
  total_of, self_of, one_if, total_of-no_hits, total_of-count_hit, self_of-count_hit,
  self_of-count_hit_total, total_of-count_hit_self, same_place, same_place_sound, same_place_refl,
  IsPlace, node_hits, hits_of, hit_place, hits_of-hit_place, children_of-hit_place,
  length-update_at,
}
use snail_server.Analysis.Stacks.Trees.{
  occurs, IsTree, appended, hits_of-appended, children_of-appended, length-appended,
  occurs-appended, appended-IsTree,
}

-- The total hits of children.
abbrev pub children_total : ℕ → CallTree → List ℕ → ℕ
children_total s t [] = 0
children_total s t (c ∷ cs) = total_of s (hits_of (some c) t) + children_total s t cs

-- For every place and source, the total hits are the self hits, those of the children, and what is `extra`.
abbrev pub IsBalanced : (Option ℕ → ℕ → ℕ) → CallTree → Type 0
IsBalanced extra t =
    (p : Option ℕ) (s : ℕ)
    → total_of s (hits_of p t)
      ≡ self_of s (hits_of p t) + children_total s t (children_of p t) + extra p s

abbrev pub nothing : Option ℕ → ℕ → ℕ
nothing p s = 0

-- One hit of the source, of the place where a stack has got to.
abbrev pub one_at : Option ℕ → ℕ → Option ℕ → ℕ → ℕ
one_at k source p s = if same_place k p then one_if (source == s) else 0

-- Appending a child.
module _ (max_source_id function_id : ℕ) (k : Option ℕ) (t : CallTree) (h : IsPlace k t) where
  abbrev t' : CallTree
  t' = appended max_source_id function_id k t

  total-appended : (p : Option ℕ) (s : ℕ) → total_of s (hits_of p t') ≡ total_of s (hits_of p t)
  total-appended p s =
      hits_of-appended max_source_id function_id k t (total_of s) p
        (total_of-no_hits s (max_source_id + 1)).0

  children_total-appended : (s : ℕ) (cs : List ℕ) → children_total s t' cs ≡ children_total s t cs
  children_total-appended s [] = refl
  children_total-appended s (c ∷ cs) =
      ap₂ ◌+◌ (total-appended (some c) s) (children_total-appended s cs)

  children_total-push :
      (s : ℕ) (cs : List ℕ) → children_total s t (cs ++ length t.nodes ∷ []) ≡ children_total s t cs
  children_total-push s [] = omega (arith, behind t.nodes)
    where
      behind :
          (nodes : List CallTreeNode) → total_of s (node_hits (get_elem? nodes (length nodes))) ≡ 0
      behind [] = refl
      behind (n ∷ nodes) = behind nodes
  children_total-push s (c ∷ cs) =
      ap (◌+◌ (total_of s (hits_of (some c) t))) (children_total-push s cs)

  appended-IsBalanced : (extra : Option ℕ → ℕ → ℕ) → IsBalanced extra t → IsBalanced extra t'
  appended-IsBalanced extra b p s =
      let selfs : self_of s (hits_of p t') ≡ self_of s (hits_of p t) =
        hits_of-appended max_source_id function_id k t (self_of s) p
          (total_of-no_hits s (max_source_id + 1)).1 in
      let children : children_total s t' (children_of p t') ≡ children_total s t (children_of p t) =
        children_total-appended s (children_of p t')
        ∙ ap (children_total s t) (children_of-appended max_source_id function_id k t p h)
        ∙ elim (Bool-cases (same_place k p)) [
          | inl e ↦ rw e (children_total-push s (children_of p t))
          | inr e ↦ rw e refl
        ] in
      omega (arith, total-appended p s, selfs, children, b p s)

-- A child of the place, found or new.
pub record IsChild (extra : Option ℕ → ℕ → ℕ) (k : Option ℕ) (c : ℕ) (t : CallTree) : Type 0 where
  pub tree : IsTree t
  pub balanced : IsBalanced extra t
  pub is_child : 0 < occurs c (children_of k t)

find_child-occurs :
    (nodes : List CallTreeNode) (function_id : ℕ) (cs : List ℕ) (c : ℕ)
    → find_child nodes function_id cs ≡ some c
    → 0 < occurs c cs
unfolding find_child
find_child-occurs nodes function_id [] c e = absurd (cc e)
find_child-occurs nodes function_id (d ∷ cs) c e =
    elim (Bool-cases (is_call_of function_id (get_elem? nodes d))) [
      | inl b ↦ let same : d ≡ c = ground (arith, b, e) in ground (arith, same)
      | inr b ↦ omega (arith, find_child-occurs nodes function_id cs c (ground (arith, b, e)))
    ]

pub get_or_append_call_tree_child-IsChild :
    (max_source_id function_id : ℕ) (k : Option ℕ) (extra : Option ℕ → ℕ → ℕ) (t : CallTree)
    → IsPlace k t
    → IsTree t
    → IsBalanced extra t
    → IsChild extra k
        (get_or_append_call_tree_child max_source_id k function_id t).0
        (get_or_append_call_tree_child max_source_id k function_id t).1
unfolding get_or_append_call_tree_child
get_or_append_call_tree_child-IsChild max_source_id function_id k extra t h x b =
    elim (Option-cases (find_child t.nodes function_id (children_of k t))) [
      | inl e ↦ rw e (record {
        tree = appended-IsTree max_source_id function_id k t h x;
        balanced = appended-IsBalanced max_source_id function_id k t h extra b;
        is_child = ground (
          arith,
          occurs-appended max_source_id function_id k t k (length t.nodes) h,
          same_place_refl k,
        );
      })
      | inr (c, e) ↦ rw e (record {
        tree = x;
        balanced = b;
        is_child = find_child-occurs t.nodes function_id (children_of k t) c e;
      })
    ]

-- A hit at a place.
module _ (source : ℕ) (k : Option ℕ) (t : CallTree) (h : IsPlace k t) where
  pub hit_place-IsTree : (f : HitCounts → HitCounts) → IsTree t → IsTree (hit_place f source k t)
  hit_place-IsTree f x =
      let same : (p : Option ℕ) (c : ℕ)
          → occurs c (children_of p (hit_place f source k t)) ≡ occurs c (children_of p t) =
        λ p c. ap (occurs c) (children_of-hit_place f source k p t) in
      record {
        bounded = λ p c o. length-hit_place c k (x.bounded p c (omega (arith, same p c)));
        once = λ p c. omega (arith, same p c, x.once p c);
        one_parent =
            λ p q c o u. x.one_parent p q c (omega (arith, same p c)) (omega (arith, same q c));
        later = λ i c o. x.later i c (omega (arith, same (some i) c));
        has_parent =
            λ c l. let (p, o) = x.has_parent c (old_length c k l) in (p, omega (arith, same p c));
      }
    where
      length-hit_place :
          (c : ℕ) (k : Option ℕ) → c < length t.nodes → c < length (hit_place f source k t).nodes
      length-hit_place c none l = l
      length-hit_place c (some i) l =
          omega
            (arith, length-update_at (λ n. record n { hits = count_hit f source n.hits }) i t.nodes)

      old_length :
          (c : ℕ) (k : Option ℕ) → c < length (hit_place f source k t).nodes → c < length t.nodes
      old_length c none l = l
      old_length c (some i) l =
          omega
            (arith, length-update_at (λ n. record n { hits = count_hit f source n.hits }) i t.nodes)
