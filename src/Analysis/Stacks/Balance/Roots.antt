-- ===== src/Analysis/Stacks/Balance/Roots.antt =====
-- The hits of the two roots: one for each stack.
use snail_server.Common.{
  ℕ, ◌+◌, ◌≡◌, refl, ap, ◌∙◌, List, [], ◌∷◌, Option, none, some, ◌==◌, if◌then◌else◌, arith,
  Bool-cases, Option-cases, inl, inr,
}
use snail_server.Analysis.Stacks.{enter_frame}
use snail_server.Analysis.Stacks.Analyze.{
  StackFrame, Sample, with_stack, with_frame, with_neither, StacksAnalysis, Previous,
  add_stack_frame, add_stack, add_self_hits, add_sample, analyze_stacks, hit_function,
}
use snail_server.Analysis.Stacks.CallTree.{
  add_total, CallTree, children_of, find_child, get_or_append_call_tree_child,
}
use snail_server.Analysis.Stacks.Counts.{count_of, counted_by_analysis}
use snail_server.Analysis.Stacks.Hits.{
  total_of, one_if, total_of-no_hits, total_of-count_hit, total_of-count_hit_self, hit_place,
}

-- How many stacks a sample has, and the samples of a source.
abbrev pub stack_of_sample : {max_source_id : ℕ} → Sample max_source_id → ℕ
stack_of_sample (with_stack frames) = 1
stack_of_sample (with_frame frame) = 0
stack_of_sample with_neither = 0

abbrev pub stacks_of : {max_source_id : ℕ} → ℕ → List (ℕ × List (Sample max_source_id)) → ℕ
stacks_of s sources = count_of stack_of_sample s sources

module _ (max_source_id : ℕ) where
  -- The total hits of the root of the call tree, and of the root of the functions, for a source.
  abbrev AreTotals : ℕ → ℕ → ℕ → StacksAnalysis max_source_id → Type 0
  AreTotals s n m a = (total_of s a.call_tree.root.hits ≡ n) × (total_of s a.function_root.hits ≡ m)

  abbrev pub AreRootHits : ℕ → ℕ → StacksAnalysis max_source_id → Type 0
  AreRootHits s n a = AreTotals s n n a

  abbrev SameRoots : StacksAnalysis max_source_id → StacksAnalysis max_source_id → Type 0
  SameRoots a b =
      (b.call_tree.root.hits ≡ a.call_tree.root.hits)
      × (b.function_root.hits ≡ a.function_root.hits)

  child-root :
      (function_id : ℕ) (k : Option ℕ) (t : CallTree)
      → (get_or_append_call_tree_child max_source_id k function_id t).1.root.hits ≡ t.root.hits
  unfolding get_or_append_call_tree_child
  child-root function_id none t =
      elim (Option-cases (find_child t.nodes function_id (children_of none t))) [
        | inl e ↦ rw e refl
        | inr (c, e) ↦ rw e refl
      ]
  child-root function_id (some i) t =
      elim (Option-cases (find_child t.nodes function_id (children_of (some i) t))) [
        | inl e ↦ rw e refl
        | inr (c, e) ↦ rw e refl
      ]

  add_stack_frame-SameRoots :
      (source : ℕ) (frame : StackFrame max_source_id) (previous : Option (Previous max_source_id))
      (a : StacksAnalysis max_source_id)
      → SameRoots a (add_stack_frame max_source_id source frame previous a).1
  unfolding add_stack_frame
  add_stack_frame-SameRoots source frame none a =
      (child-root (enter_frame max_source_id frame.names a.tables).0.1 none a.call_tree, refl)
  add_stack_frame-SameRoots source frame (some p) a = (
    child-root (enter_frame max_source_id frame.names a.tables).0.1 (some p.node_id) a.call_tree,
    refl,
  )

  add_stack-SameRoots :
      (source : ℕ) (frames : List (StackFrame max_source_id))
      (previous : Option (Previous max_source_id)) (a : StacksAnalysis max_source_id)
      → SameRoots a (add_stack max_source_id source frames previous a).1
  unfolding add_stack
  add_stack-SameRoots source [] previous a = (refl, refl)
  add_stack-SameRoots source (frame ∷ frames) previous a =
      let r = add_stack_frame max_source_id source frame previous a in
      let first = add_stack_frame-SameRoots source frame previous a in
      let others = add_stack-SameRoots source frames (some r.0) r.1 in
      (others.0 ∙ first.0, others.1 ∙ first.1)

  add_self_hits-AreTotals :
      (source s n m : ℕ) (last : Option (Previous max_source_id)) (a : StacksAnalysis max_source_id)
      → AreTotals s n m a
      → AreTotals s n m (add_self_hits max_source_id source last a)
  unfolding add_self_hits
  add_self_hits-AreTotals source s n m none a x = (
    total_of-count_hit_self source s a.call_tree.root.hits ∙ x.0,
    total_of-count_hit_self source s a.function_root.hits ∙ x.1,
  )
  add_self_hits-AreTotals source s n m (some p) a x = x

  add_sample-AreTotals :
      (source s n m : ℕ) (sample : Sample max_source_id) (a : StacksAnalysis max_source_id)
      → AreTotals s n m a
      → AreTotals s
          (n + (if source == s then stack_of_sample sample else 0))
          (m + (if source == s then stack_of_sample sample else 0))
          (add_sample max_source_id source sample a)
  unfolding add_sample
  add_sample-AreTotals source s n m (with_stack frames) a x =
      let counted = record a {
        function_root = hit_function max_source_id add_total source a.function_root;
        call_tree = hit_place add_total source none a.call_tree;
      } in
      let r = add_stack max_source_id source frames none counted in
      let same = add_stack-SameRoots source frames none counted in
      add_self_hits-AreTotals source s _ _ r.0 r.1 (
        ap (total_of s) same.0
            ∙ total_of-count_hit source s a.call_tree.root.hits
            ∙ ap (λ k. k + one_if (source == s)) x.0,
        ap (total_of s) same.1
            ∙ total_of-count_hit source s a.function_root.hits
            ∙ ap (λ k. k + one_if (source == s)) x.1,
      )
  add_sample-AreTotals source s n m (with_frame frame) a x = elim (Bool-cases (source == s)) [
    | inl b ↦ (ground (arith, b, x.0), ground (arith, b, x.1))
    | inr b ↦ (ground (arith, b, x.0), ground (arith, b, x.1))
  ]
  add_sample-AreTotals source s n m with_neither a x = elim (Bool-cases (source == s)) [
    | inl b ↦ (ground (arith, b, x.0), ground (arith, b, x.1))
    | inr b ↦ (ground (arith, b, x.0), ground (arith, b, x.1))
  ]

  -- Without a token, the root of the call tree and the root of the functions have one total hit for each
  -- stack of each source.
  pub analyze_stacks-AreRootHits :
      (sources : List (ℕ × List (Sample max_source_id))) (s : ℕ)
      → AreRootHits s (stacks_of s sources) (analyze_stacks max_source_id sources none)
  analyze_stacks-AreRootHits sources s =
      let z = total_of-no_hits s (max_source_id + 1) in
      let tree =
        counted_by_analysis max_source_id s stack_of_sample (λ a. Unit {0})
          (λ a. total_of s a.call_tree.root.hits) (λ source sample a x. tt)
          (λ source sample a x. (add_sample-AreTotals source s _ _ sample a (refl, refl)).0) sources
          tt in
      let functions =
        counted_by_analysis max_source_id s stack_of_sample (λ a. Unit {0})
          (λ a. total_of s a.function_root.hits) (λ source sample a x. tt)
          (λ source sample a x. (add_sample-AreTotals source s _ _ sample a (refl, refl)).1) sources
          tt in
      (omega (arith, z.0, tree), omega (arith, z.0, functions))
