-- ===== src/Analysis/Stacks/Balance/Results.antt =====
-- The hits of the call tree add up after any samples.
use snail_server.Common.{
  ℕ, ◌+◌, ◌<◌, ◌≡◌, refl, sym, subst, List, [], ◌∷◌, Option, none, some, length, arith,
}
use snail_server.Analysis.Stacks.Runs.{kept_by_analysis}
use snail_server.Analysis.Stacks.{enter_frame}
use snail_server.Analysis.Stacks.Analyze.{
  StackFrame, Sample, with_stack, with_frame, with_neither, StacksAnalysis, Previous, node_before,
  add_stack_frame, add_stack, add_self_hits, add_sample, no_stacks, analyze_stacks, hit_function,
}
use snail_server.Analysis.Stacks.CallTree.{
  add_total, add_self, count_hit, CallTree, children_of, get_or_append_call_tree_child,
}
use snail_server.Analysis.Stacks.Hits.{total_of-no_hits, IsPlace, hit_place, length-update_at}
use snail_server.Analysis.Stacks.Trees.{IsTree, IsReached, IsTree-IsReached}
use snail_server.Analysis.Stacks.Balance.{
  IsBalanced, nothing, one_at, IsChild, get_or_append_call_tree_child-IsChild, hit_place-IsTree,
}
use snail_server.Analysis.Stacks.Balance.Sums.{
  hit_root-IsBalanced, hit_child-IsBalanced, hit_self-IsBalanced,
}

-- Between two stacks, and in a stack that has got to a place.
pub record IsSettled (t : CallTree) : Type 0 where
  pub tree : IsTree t
  pub balanced : IsBalanced nothing t

record IsAt (source : ℕ) (k : Option ℕ) (t : CallTree) : Type 0 where
  pub tree : IsTree t
  pub balanced : IsBalanced (one_at k source) t
  pub place : IsPlace k t

module _ (max_source_id source : ℕ) where
  -- What a frame does to the tree.
  abbrev step_tree : ℕ → Option ℕ → CallTree → ℕ × CallTree
  step_tree function_id k t =
      let (c, t') = get_or_append_call_tree_child max_source_id k function_id t in
      (c, hit_place add_total source (some c) t')

  step_tree-IsAt :
      (function_id : ℕ) (k : Option ℕ) (t : CallTree)
      → IsAt source k t
      → IsAt source (some (step_tree function_id k t).0) (step_tree function_id k t).1
  step_tree-IsAt function_id k t x =
      let (c, t') = get_or_append_call_tree_child max_source_id k function_id t in
      let y : IsChild (one_at k source) k c t' =
        get_or_append_call_tree_child-IsChild max_source_id function_id k (one_at k source) t
          x.place x.tree x.balanced in
      let inside : c < length t'.nodes = y.tree.bounded k c y.is_child in
      record {
        tree = hit_place-IsTree source (some c) t' inside add_total y.tree;
        balanced = hit_child-IsBalanced source c k t' y;
        place = omega (
          arith,
          inside,
          length-update_at (λ n. record n { hits = count_hit add_total source n.hits }) c t'.nodes,
        );
      }

  add_stack_frame-step_tree :
      (frame : StackFrame max_source_id) (previous : Option (Previous max_source_id))
      (a : StacksAnalysis max_source_id)
      → (let function_id = (enter_frame max_source_id frame.names a.tables).0.1 in
          let r = add_stack_frame max_source_id source frame previous a in
          (r.0.node_id, r.1.call_tree)
          ≡ step_tree function_id (node_before max_source_id previous) a.call_tree)
  unfolding add_stack_frame
  add_stack_frame-step_tree frame none a = refl
  add_stack_frame-step_tree frame (some previous) a = refl

  add_stack-IsAt :
      (frames : List (StackFrame max_source_id)) (previous : Option (Previous max_source_id))
      (a : StacksAnalysis max_source_id)
      → IsAt source (node_before max_source_id previous) a.call_tree
      → IsAt source
          (node_before max_source_id (add_stack max_source_id source frames previous a).0)
          (add_stack max_source_id source frames previous a).1.call_tree
  unfolding add_stack
  add_stack-IsAt [] previous a x = x
  add_stack-IsAt (frame ∷ frames) previous a x =
      let r = add_stack_frame max_source_id source frame previous a in
      let function_id = (enter_frame max_source_id frame.names a.tables).0.1 in
      add_stack-IsAt frames (some r.0) r.1 (
        subst (λ (y : ℕ × CallTree). IsAt source (some y.0) y.1)
          (sym (add_stack_frame-step_tree frame previous a))
          (step_tree-IsAt function_id (node_before max_source_id previous) a.call_tree x))

  add_self_hits-IsSettled :
      (last : Option (Previous max_source_id)) (a : StacksAnalysis max_source_id)
      → IsAt source (node_before max_source_id last) a.call_tree
      → IsSettled (add_self_hits max_source_id source last a).call_tree
  unfolding add_self_hits
  add_self_hits-IsSettled none a x = record {
    tree = hit_place-IsTree source none a.call_tree tt add_self x.tree;
    balanced = hit_self-IsBalanced source none a.call_tree tt x.balanced;
  }
  add_self_hits-IsSettled (some p) a x = record {
    tree = hit_place-IsTree source (some p.node_id) a.call_tree x.place add_self x.tree;
    balanced = hit_self-IsBalanced source (some p.node_id) a.call_tree x.place x.balanced;
  }

  add_sample-IsSettled :
      (sample : Sample max_source_id) (a : StacksAnalysis max_source_id)
      → IsSettled a.call_tree
      → IsSettled (add_sample max_source_id source sample a).call_tree
  unfolding add_sample
  add_sample-IsSettled (with_stack frames) a x =
      let counted = record a {
        function_root = hit_function max_source_id add_total source a.function_root;
        call_tree = hit_place add_total source none a.call_tree;
      } in
      let r = add_stack max_source_id source frames none counted in
      add_self_hits-IsSettled r.0 r.1 (
        add_stack-IsAt frames none counted (record {
          tree = hit_place-IsTree source none a.call_tree tt add_total x.tree;
          balanced = hit_root-IsBalanced source a.call_tree x.balanced;
          place = tt;
        }))
  add_sample-IsSettled (with_frame frame) a x = x
  add_sample-IsSettled with_neither a x = x

no_stacks-IsSettled : (max_source_id : ℕ) → IsSettled (no_stacks max_source_id).call_tree
no_stacks-IsSettled max_source_id =
    let t = (no_stacks max_source_id).call_tree in
    let empty : (p : Option ℕ) → children_of p t ≡ [] = no_children in
    record {
      tree = record {
        bounded = λ p c o. absurd (ground (arith, o, empty p));
        once = λ p c. ground (arith, empty p);
        one_parent = λ p q c o u. absurd (ground (arith, o, empty p));
        later = λ i c o. absurd (ground (arith, o, empty (some i)));
        has_parent = λ c l. absurd (omega arith);
      };
      balanced = zero_hits_there;
    }
  where
    no_children : (p : Option ℕ) → children_of p (no_stacks max_source_id).call_tree ≡ []
    no_children none = refl
    no_children (some i) = refl

    zero_hits_there : IsBalanced nothing (no_stacks max_source_id).call_tree
    zero_hits_there none s =
        let z = total_of-no_hits s (max_source_id + 1) in omega (arith, z.0, z.1)
    zero_hits_there (some i) s = omega arith

-- After the samples of any sources, also where the token is set on the way: the nodes form a tree, in which
-- every node has one parent, a child has a greater id than its parent, and the root leads to every node; and at
-- the root and every node, for every source, the total hits are the self hits and the total hits of the children.
pub analyze_stacks-IsSettled :
    (max_source_id : ℕ) (sources : List (ℕ × List (Sample max_source_id))) (token : Option ℕ)
    → (let t = (analyze_stacks max_source_id sources token).call_tree in
        IsSettled t × ((c : ℕ) → c < length t.nodes → IsReached t c))
analyze_stacks-IsSettled max_source_id sources token =
    let settled =
      kept_by_analysis max_source_id (λ a. IsSettled a.call_tree)
        (λ source sample a x. add_sample-IsSettled max_source_id source sample a x) sources token
        (no_stacks-IsSettled max_source_id) in
    (settled, IsTree-IsReached (analyze_stacks max_source_id sources token).call_tree settled.tree)
