-- ===== src/Analysis/Stacks/Linked/Samples.antt =====
-- The ids that functions and nodes hold, from one sample to the next.
use snail_server.Common.{
  ◌^◌, ◌-◌, All, All-append, All-weaken, ℕ, ◌<◌, ◌≡◌, refl, List, [], ◌∷◌, Option, none, some,
  arith, Option-cases, inl, inr,
}
use snail_server.Analysis.Stacks.{HitCounts, enter_frame}
use snail_server.Analysis.Stacks.CallTree.{
  add_total, add_self, CallTreeNode, CallTree, find_child, children_of,
  get_or_append_call_tree_child,
}
use snail_server.Analysis.Stacks.Analyze.{
  StackFrame, Sample, with_stack, with_frame, with_neither, StacksAnalysis, Previous, hit_names,
  node_before, count_call, add_stack_frame, add_stack, add_self_hits, add_sample,
}
use snail_server.Analysis.Stacks.Hits.{hit_place}
use snail_server.Analysis.Stacks.Linked.{All-update_at, Sizes, AreKnown, AreKnown-count_hit_at}
use snail_server.Analysis.Stacks.Linked.Tables.{AreLinked, HasFunction, HasFunction-grown, entered}
use snail_server.Analysis.Stacks.Linked.Updates.{
  hit_names-AreLinked, place_function-AreLinked, self_line-AreLinked, call_from-AreLinked,
  call_to-AreLinked,
}

abbrev pub AreCalls : ℕ → List CallTreeNode → Type 0
AreCalls n = All (λ node. node.function_id < n)

child-AreCalls :
    (max_source_id : ℕ) (k : Option ℕ) (function_id n : ℕ) (t : CallTree)
    → function_id < n
    → AreCalls n t.nodes
    → AreCalls n (get_or_append_call_tree_child max_source_id k function_id t).1.nodes
unfolding get_or_append_call_tree_child
child-AreCalls max_source_id none function_id n t h x =
    elim (Option-cases (find_child t.nodes function_id (children_of none t))) [
      | inl e ↦ rw e (All-append (λ node. node.function_id < n) t.nodes _ x h)
      | inr (c, e) ↦ rw e x
    ]
child-AreCalls max_source_id (some i) function_id n t h x =
    elim (Option-cases (find_child t.nodes function_id (children_of (some i) t))) [
      | inl e ↦ rw e (
          All-append (λ node. node.function_id < n) _ _
            (All-update_at (λ node. node.function_id < n) _ i t.nodes (λ node l. l) x) h)
      | inr (c, e) ↦ rw e x
    ]

hit_place-AreCalls :
    (f : HitCounts → HitCounts) (source n : ℕ) (k : Option ℕ) (t : CallTree)
    → AreCalls n t.nodes
    → AreCalls n (hit_place f source k t).nodes
hit_place-AreCalls f source n none t x = x
hit_place-AreCalls f source n (some i) t x =
    All-update_at (λ node. node.function_id < n) _ i t.nodes (λ node l. l) x

module _ (max_source_id : ℕ) where
  pub record IsResolving (b : Sizes) (a : StacksAnalysis max_source_id) : Type 0 where
    pub tables_linked : AreLinked a.function_root.id b a.tables
    pub nodes_linked : AreCalls b.functions a.call_tree.nodes
    pub root_id_fixed : a.function_root.id ≡ 2 ^ 32 - 1
    pub root_calling : AreKnown (λ key. key < b.functions) a.function_root.callees

  count_call-IsResolving :
      (source : ℕ) (previous : Option (Previous max_source_id)) (callee : ℕ) (b : Sizes)
      (a : StacksAnalysis max_source_id)
      → HasFunction previous b
      → callee < b.functions
      → IsResolving b a
      → IsResolving b (count_call max_source_id source previous callee a)
  count_call-IsResolving source none callee b a h k x = record {
    tables_linked =
        call_from-AreLinked max_source_id a.function_root.id source a.function_root.id callee b
          a.tables (inr refl) x.tables_linked;
    nodes_linked = x.nodes_linked;
    root_id_fixed = x.root_id_fixed;
    root_calling =
        AreKnown-count_hit_at (λ key. key < b.functions) callee source a.function_root.callees k
          x.root_calling;
  }
  count_call-IsResolving source (some p) callee b a h k x = record {
    tables_linked =
        call_from-AreLinked max_source_id a.function_root.id source p.function_id callee b _ (inl h)
          (call_to-AreLinked max_source_id a.function_root.id source callee p.function_id b a.tables
            k x.tables_linked);
    nodes_linked = x.nodes_linked;
    root_id_fixed = x.root_id_fixed;
    root_calling = x.root_calling;
  }

  add_stack_frame-IsResolving :
      (source : ℕ) (frame : StackFrame max_source_id) (previous : Option (Previous max_source_id))
      (b : Sizes) (a : StacksAnalysis max_source_id)
      → HasFunction previous b
      → IsResolving b a
      → (c : Sizes) × ((add_stack_frame max_source_id source frame previous a).0.function_id
          < c.functions)
        × IsResolving c (add_stack_frame max_source_id source frame previous a).1
  unfolding add_stack_frame
  add_stack_frame-IsResolving source frame previous b a h x =
      let (c, w, lt, file, y) =
        entered max_source_id a.function_root.id frame.names b a.tables x.tables_linked in
      let (ids, tables) = enter_frame max_source_id frame.names a.tables in
      let (node_id, tree) =
        get_or_append_call_tree_child max_source_id (node_before max_source_id previous) ids.1
          a.call_tree in
      let counted = record a {
        tables = hit_names max_source_id add_total source ids.0 ids.1 ids.2 tables;
        call_tree = hit_place add_total source (some node_id) tree;
      } in
      let called = count_call max_source_id source previous ids.1 counted in
      let nodes =
        All-weaken (λ node. node.function_id < b.functions) (λ node. node.function_id < c.functions)
          a.call_tree.nodes (λ node l. omega (arith, l, w.functions_within)) x.nodes_linked in
      let counts =
        count_call-IsResolving source previous ids.1 c counted (HasFunction-grown previous b c w h)
          lt
          (record {
            tables_linked =
                hit_names-AreLinked max_source_id a.function_root.id add_total source ids.0 ids.1
                  ids.2 c tables y;
            nodes_linked = hit_place-AreCalls add_total source c.functions (some node_id) tree (
                child-AreCalls max_source_id (node_before max_source_id previous) ids.1 c.functions
                  a.call_tree lt nodes);
            root_id_fixed = x.root_id_fixed;
            root_calling =
                λ key hits e. omega (arith, x.root_calling key hits e, w.functions_within);
          }) in
      (
        c,
        lt,
        record {
          tables_linked =
              place_function-AreLinked max_source_id called.function_root.id add_total source frame
                ids.1 ids.2 c called.tables file counts.tables_linked;
          nodes_linked = counts.nodes_linked;
          root_id_fixed = counts.root_id_fixed;
          root_calling = counts.root_calling;
        },
      )

  pub add_stack-IsResolving :
      (source : ℕ) (frames : List (StackFrame max_source_id))
      (previous : Option (Previous max_source_id)) (b : Sizes) (a : StacksAnalysis max_source_id)
      → HasFunction previous b
      → IsResolving b a
      → (c : Sizes) × HasFunction (add_stack max_source_id source frames previous a).0 c
        × IsResolving c (add_stack max_source_id source frames previous a).1
  unfolding add_stack
  add_stack-IsResolving source [] previous b a h x = (b, h, x)
  add_stack-IsResolving source (frame ∷ frames) previous b a h x =
      let r = add_stack_frame max_source_id source frame previous a in
      let (c, lt, y) = add_stack_frame-IsResolving source frame previous b a h x in
      add_stack-IsResolving source frames (some r.0) c r.1 lt y

  add_self_hits-IsResolving :
      (source : ℕ) (last : Option (Previous max_source_id)) (b : Sizes)
      (a : StacksAnalysis max_source_id)
      → IsResolving b a
      → IsResolving b (add_self_hits max_source_id source last a)
  unfolding add_self_hits
  add_self_hits-IsResolving source none b a x = record {
    tables_linked = x.tables_linked;
    nodes_linked = x.nodes_linked;
    root_id_fixed = x.root_id_fixed;
    root_calling = x.root_calling;
  }
  add_self_hits-IsResolving source (some p) b a x = record {
    tables_linked =
        self_line-AreLinked max_source_id a.function_root.id source p.line_number p.function_id
          p.file_id b _
          (hit_names-AreLinked max_source_id a.function_root.id add_self source p.module_id
            p.function_id p.file_id b a.tables x.tables_linked);
    nodes_linked =
        hit_place-AreCalls add_self source b.functions (some p.node_id) a.call_tree x.nodes_linked;
    root_id_fixed = x.root_id_fixed;
    root_calling = x.root_calling;
  }

  pub add_sample-IsResolving :
      (source : ℕ) (sample : Sample max_source_id) (a : StacksAnalysis max_source_id)
      → (b : Sizes) × IsResolving b a
      → (c : Sizes) × IsResolving c (add_sample max_source_id source sample a)
  unfolding add_sample
  add_sample-IsResolving source (with_stack frames) a (b, x) =
      let (c, last, y) = add_stack-IsResolving source frames none b _ tt (record {
        tables_linked = x.tables_linked;
        nodes_linked = x.nodes_linked;
        root_id_fixed = x.root_id_fixed;
        root_calling = x.root_calling;
      }) in
      (c, add_self_hits-IsResolving source _ c _ y)
  add_sample-IsResolving source (with_frame frame) a (b, x) =
      let (c, w, lt, file, y) =
        entered max_source_id a.function_root.id frame.names b a.tables x.tables_linked in
      let (ids, tables) = enter_frame max_source_id frame.names a.tables in
      (
        c,
        record {
          tables_linked =
              place_function-AreLinked max_source_id a.function_root.id _ source frame ids.1 ids.2 c
                _ file
                (hit_names-AreLinked max_source_id a.function_root.id add_self source ids.0 ids.1
                  ids.2 c _
                  (hit_names-AreLinked max_source_id a.function_root.id add_total source ids.0 ids.1
                    ids.2 c tables y));
          nodes_linked =
              All-weaken (λ node. node.function_id < b.functions)
                (λ node. node.function_id < c.functions) a.call_tree.nodes
                (λ node l. omega (arith, l, w.functions_within)) x.nodes_linked;
          root_id_fixed = x.root_id_fixed;
          root_calling = λ key hits e. omega (arith, x.root_calling key hits e, w.functions_within);
        },
      )
  add_sample-IsResolving source with_neither a x = x
