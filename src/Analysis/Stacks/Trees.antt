-- ===== src/Analysis/Stacks/Trees.antt =====
-- The call tree is a tree: every child is a node, and the child of one place only.
use snail_server.Common.{
  ℕ, zero, suc, ◌+◌, ◌≤◌, ◌<◌, ◌≡◌, refl, sym, ap, ◌∙◌, subst, false, List, [], ◌∷◌, ◌++◌, Option,
  none, some, ◌==◌, if◌then◌else◌, length, get_elem?, count_if, count_if-append, length-append,
  arith, Bool-cases, inl, inr,
}
use snail_server.Analysis.Stacks.{HitCounts, init_hits}
use snail_server.Analysis.Stacks.CallTree.{
  update_at, CallTreeNode, CallTree, children_or_none, children_of, append_child,
}
use snail_server.Analysis.Stacks.Hits.{
  one_if, same_place, same_place_sound, same_place_refl, IsPlace, node_hits, hits_of,
  length-update_at,
}

abbrev pub occurs : ℕ → List ℕ → ℕ
occurs c = count_if (λ d. d == c)

pub record IsTree (t : CallTree) : Type 0 where
  pub bounded : (p : Option ℕ) (c : ℕ) → 0 < occurs c (children_of p t) → c < length t.nodes
  pub once : (p : Option ℕ) (c : ℕ) → occurs c (children_of p t) ≤ 1
  pub one_parent :
      (p q : Option ℕ) (c : ℕ)
      → 0 < occurs c (children_of p t)
      → 0 < occurs c (children_of q t)
      → p ≡ q
  pub later : (i c : ℕ) → 0 < occurs c (children_of (some i) t) → i < c
  pub has_parent : (c : ℕ) → c < length t.nodes → (p : Option ℕ) × (0 < occurs c (children_of p t))

-- A node that the root leads to.
pub data IsReached (t : CallTree) : ℕ → Type 0 where
  by_root : (c : ℕ) → 0 < occurs c (children_of none t) → IsReached t c
  by_node : (i c : ℕ) → IsReached t i → 0 < occurs c (children_of (some i) t) → IsReached t c

-- From child to parent the ids fall, so that a parent of every node leads to the root.
IsReached-parent :
    (t : CallTree) (c : ℕ) (p : Option ℕ)
    → IsTree t
    → ((i : ℕ) → i < c → IsReached t i)
    → 0 < occurs c (children_of p t)
    → IsReached t c
IsReached-parent t c none x before o = by_root c o
IsReached-parent t c (some i) x before o = by_node i c (before i (x.later i c o)) o

IsTree-IsReached_below :
    (t : CallTree) → IsTree t → (bound c : ℕ) → c < bound → c < length t.nodes → IsReached t c
IsTree-IsReached_below t x zero c h l = absurd (omega arith)
IsTree-IsReached_below t x (suc bound) c h l =
    let (p, o) = x.has_parent c l in
    IsReached-parent t c p x
      (λ i before. IsTree-IsReached_below t x bound i (omega arith) (omega arith)) o

pub IsTree-IsReached : (t : CallTree) → IsTree t → (c : ℕ) → c < length t.nodes → IsReached t c
IsTree-IsReached t x c l = IsTree-IsReached_below t x (suc c) c (omega arith) l

-- The new child at the end of the children, and the new node.
abbrev pub push : ℕ → CallTreeNode → CallTreeNode
push child n = record n { children = n.children ++ child ∷ [] }

node_hits-push :
    (c i j : ℕ) (nodes : List CallTreeNode)
    → node_hits (get_elem? (update_at (push c) i nodes) j) ≡ node_hits (get_elem? nodes j)
unfolding update_at
node_hits-push c i j [] = refl
node_hits-push c zero zero (n ∷ nodes) = refl
node_hits-push c zero (suc j) (n ∷ nodes) = refl
node_hits-push c (suc i) zero (n ∷ nodes) = refl
node_hits-push c (suc i) (suc j) (n ∷ nodes) = node_hits-push c i j nodes

children-push :
    (c i j : ℕ) (nodes : List CallTreeNode)
    → i < length nodes
    → children_or_none (get_elem? (update_at (push c) i nodes) j) ≡ (
        if i == j
        then children_or_none (get_elem? nodes j) ++ c ∷ []
        else children_or_none (get_elem? nodes j))
unfolding update_at
children-push c i j [] h = absurd (omega arith)
children-push c zero zero (n ∷ nodes) h = refl
children-push c zero (suc j) (n ∷ nodes) h =
    let e : (0 == suc j) ≡ false = ground arith in rw e refl
children-push c (suc i) zero (n ∷ nodes) h =
    let e : (suc i == 0) ≡ false = ground arith in rw e refl
children-push c (suc i) (suc j) (n ∷ nodes) h =
    let e : (suc i == suc j) ≡ (i == j) = ground arith in
    rw e (children-push c i j nodes (omega arith))

-- A function of the hits that is zero for a new node does not see the new node.
module _ (f : List HitCounts → ℕ) (new : CallTreeNode) (none_yet : f new.hits ≡ f [])
    (no_children : new.children ≡ []) where
  hits-append :
      (nodes : List CallTreeNode) (j : ℕ)
      → f (node_hits (get_elem? (nodes ++ new ∷ []) j)) ≡ f (node_hits (get_elem? nodes j))
  hits-append [] zero = none_yet
  hits-append [] (suc j) = refl
  hits-append (n ∷ nodes) zero = refl
  hits-append (n ∷ nodes) (suc j) = hits-append nodes j

  children-append :
      (nodes : List CallTreeNode) (j : ℕ)
      → children_or_none (get_elem? (nodes ++ new ∷ []) j) ≡ children_or_none (get_elem? nodes j)
  children-append [] zero = no_children
  children-append [] (suc j) = refl
  children-append (n ∷ nodes) zero = refl
  children-append (n ∷ nodes) (suc j) = children-append nodes j

module _ (max_source_id function_id : ℕ) (k : Option ℕ) (t : CallTree) where
  abbrev pub appended : CallTree
  appended = (append_child max_source_id k function_id t none).1

  abbrev new_node : CallTreeNode
  new_node = record {
    id = length t.nodes;
    function_id = function_id;
    hits = init_hits max_source_id;
    children = [];
  }

  pub hits_of-appended :
      (f : List HitCounts → ℕ) (p : Option ℕ)
      → f (init_hits max_source_id) ≡ f []
      → f (hits_of p appended) ≡ f (hits_of p t)
  hits_of-appended f p z = at k p
    where
      at :
          (k p : Option ℕ)
          → f (hits_of p (append_child max_source_id k function_id t none).1) ≡ f (hits_of p t)
      at none none = refl
      at (some i) none = refl
      at none (some j) = hits-append f new_node z refl t.nodes j
      at (some i) (some j) =
          hits-append f new_node z refl (update_at (push (length t.nodes)) i t.nodes) j
          ∙ ap f (node_hits-push (length t.nodes) i j t.nodes)

  pub children_of-appended :
      (p : Option ℕ)
      → IsPlace k t
      → children_of p appended
        ≡ (if same_place k p then children_of p t ++ length t.nodes ∷ [] else children_of p t)
  children_of-appended p h = at k p h
    where
      at :
          (k p : Option ℕ)
          → IsPlace k t
          → children_of p (append_child max_source_id k function_id t none).1
            ≡ (if same_place k p then children_of p t ++ length t.nodes ∷ [] else children_of p t)
      at none none h = refl
      at (some i) none h = refl
      at none (some j) h = children-append (λ hs. 0) new_node refl refl t.nodes j
      at (some i) (some j) h =
          children-append (λ hs. 0) new_node refl refl (update_at (push (length t.nodes)) i t.nodes)
            j
          ∙ children-push (length t.nodes) i j t.nodes h

  pub length-appended : length appended.nodes ≡ suc (length t.nodes)
  length-appended = at k
    where
      at :
          (k : Option ℕ)
          → length (append_child max_source_id k function_id t none).1.nodes ≡ suc (length t.nodes)
      at none = omega (arith, length-append t.nodes (new_node ∷ []))
      at (some i) = omega (
        arith,
        length-append (update_at (push (length t.nodes)) i t.nodes) (new_node ∷ []),
        length-update_at (push (length t.nodes)) i t.nodes,
      )

  -- How often a node is a child, after the new one was appended.
  pub occurs-appended :
      (p : Option ℕ) (c : ℕ)
      → IsPlace k t
      → occurs c (children_of p appended)
        ≡ occurs c (children_of p t) + (if same_place k p then one_if (length t.nodes == c) else 0)
  occurs-appended p c h =
      ap (occurs c) (children_of-appended p h) ∙ elim (Bool-cases (same_place k p)) [
        | inl b ↦
            rw b
              (count_if-append (λ d. d == c) (children_of p t) (length t.nodes ∷ []) ∙ omega arith)
        | inr b ↦ rw b (omega arith)
      ]

  pub appended-IsTree : IsPlace k t → IsTree t → IsTree appended
  appended-IsTree h x =
      let old : (p : Option ℕ) → occurs (length t.nodes) (children_of p t) ≡ 0 = λ p.
        elim (Bool-cases (occurs (length t.nodes) (children_of p t) == 0)) [
          | inl b ↦ ground arith
          | inr b ↦ absurd (omega (arith, x.bounded p (length t.nodes) (ground arith)))
        ] in
      record {
        bounded = λ p c o. elim (Bool-cases (length t.nodes == c)) [
          | inl b ↦ ground (arith, length-appended)
          | inr b ↦
              omega (arith, length-appended, x.bounded p c (ground (arith, occurs-appended p c h)))
        ];
        once = λ p c. elim (Bool-cases (length t.nodes == c)) [
          | inl b ↦
              let e : length t.nodes ≡ c = ground arith in
              subst (λ d. occurs d (children_of p appended) ≤ 1) e
                (ground (arith, occurs-appended p (length t.nodes) h, old p))
          | inr b ↦ ground (arith, occurs-appended p c h, x.once p c)
        ];
        one_parent = λ p q c o u. elim (Bool-cases (length t.nodes == c)) [
          | inl b ↦
              let e : c ≡ length t.nodes = ground arith in
              let at : (r : Option ℕ) → 0 < occurs c (children_of r appended) → k ≡ r = λ r w.
                same_place_sound k r (
                  ground (
                    arith,
                    occurs-appended r (length t.nodes) h,
                    old r,
                    subst (λ d. 0 < occurs d (children_of r appended)) e w,
                  )) in
              sym (at p o) ∙ at q u
          | inr b ↦
              x.one_parent p q c (ground (arith, occurs-appended p c h))
                (ground (arith, occurs-appended q c h))
        ];
        later = λ i c o. elim (Bool-cases (length t.nodes == c)) [
          | inl b ↦
              let e : c ≡ length t.nodes = ground arith in
              let at : k ≡ some i = same_place_sound k (some i) (
                ground (
                  arith,
                  occurs-appended (some i) (length t.nodes) h,
                  old (some i),
                  subst (λ d. 0 < occurs d (children_of (some i) appended)) e o,
                )) in
              let inside : i < length t.nodes = subst (λ q. IsPlace q t) at h in omega arith
          | inr b ↦ x.later i c (ground (arith, occurs-appended (some i) c h))
        ];
        has_parent = λ c l. elim (Bool-cases (length t.nodes == c)) [
          | inl b ↦ (k, ground (arith, occurs-appended k c h, same_place_refl k))
          | inr b ↦
              let (p, o) = x.has_parent c (ground (arith, length-appended)) in
              (p, omega (arith, occurs-appended p c h))
        ];
      }
